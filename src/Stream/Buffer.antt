-- ===== src/Stream/Buffer.antt =====
-- The buffer of S3Streambuf (src/s3_reader.cpp): its window and get pointer, seeks, and underflow.
pub mod Window
pub mod Position
pub mod Stands
use nanos3reader.Prelude.{
  ℤ, pos, negsuc, ◌-◌, ℕ, zero, suc, ◌+◌, ◌*◌, ◌/◌, ◌%◌, ◌^◌, ◌≤◌, ◌<◌, min, max, ◌≡◌, refl, sym,
  ap, ◌∙◌, subst, ◌≢◌, ◌↔◌, ◌⊎◌, inl, inr, Bool, true, false, not, ◌&&◌, ◌||◌, Option, none, some,
  List, [], ◌∷◌, map, ◌++◌, arith, ltb, leb, ◌==◌, if◌then◌else◌, ltb→lt, lt→ltb, leb→le, ==_iff,
  tests, Bool-cases, Option-cases, all_below, all_below_sound, length, get_elem?, take, drop,
  replicate, set, All, length-append, take-append-drop, length-take, length-drop, length-replicate,
  length-map, length-set, take-append, drop-append, take-all, drop-all, get_elem?-take,
  get_elem?-drop, get_elem?-none, All-append, drop-drop, take-add, take-take, get_elem?-set,
  get_elem?-lt, get_elem?-some,
}
use nanos3reader.Text.{
  Text, codes, text_eq, is_empty, text_lt, starts_with, shift, find_char, find, find_from,
  find_char_from, substr, substr_from, find_first_not_of, find_last_not_of, no_line_break,
  ends_with_char, is_blank, is_space, trim_by, trim, trim_ws, to_string_fuel, to_string, uint64_max,
  parse_digits, parse_u64,
}
use nanos3reader.Uri.{
  Config, scheme, malformed_uri, cut_at, cut_bucket, split_s3_uri, open_target, drop_slashes,
  split_endpoint, build_endpoint,
}
use nanos3reader.World.{World, Credentials, is_valid, no_credentials, second}
use nanos3reader.Credentials.Provider.{
  Provider, new_provider, has_key, no_pairs, is_open, em_dash, Resolved, is_current, diagnostic_of,
  describe_profile_gap, env_note, imds_note, resolve_imds, resolve_metadata, resolve_profile,
  resolve, get,
}
use nanos3reader.DiskCache.{
  File, Io, DiskCache, Files, find_file, remove_file, try_remove, place, count_one, clamp_blocks,
  configure, djb2, hex_low, hex_digits, hex16, block_name, is_block, scan, to_evict,
  evict_if_needed, touch, try_load, tmp_file, write_block, store,
}
use nanos3reader.Stream.Fetch.{
  Object, Outcome, loaded, past_end, broken, region_key, capture_region_header, capture_region,
  stream_range, stream_headers, is_redirect, may_retry, stream_request, fetch_failure, fetch_loop,
  fetch_loop-ends,
}

-- The members that change, and g_last_error. `get` is the distance of gptr() from eback(), `none` for
-- null pointers. Behind a failure window_len is 0 and nothing reads the window, which stays as it was.
pub record Buffer : Type 0 where
  pub region : Text
  pub window : Text
  pub window_start : ℕ
  pub window_len : ℕ
  pub get : Option ℕ
  pub reached_eof : Bool
  pub last_error : Text

abbrev pub read_ahead_or_one : ℕ → ℕ
read_ahead_or_one n = if n == 0 then 1 else n

abbrev pub new_buffer : Config → Buffer
new_buffer cfg = record {
  region = cfg.region;
  window = [];
  window_start = 0;
  window_len = 0;
  get = none;
  reached_eof = false;
  last_error = [];
}

abbrev pub distance : Option ℕ → ℕ
distance none = 0
distance (some g) = g

unfoldable pub cur_pos : Buffer → ℕ
cur_pos b = (b.window_start + distance b.get) % 2 ^ 64

-- The byte at gptr(), where gptr() < egptr().
unfoldable pub at_get : Buffer → Option ℕ
at_get b = elim b.get [
  | none ↦ none
  | some g ↦ if ltb g b.window_len then get_elem? b.window g else none
]

-- Where the get pointer goes in a window that starts at `start`.
abbrev pub place_get : ℕ → ℕ → ℕ → ℕ
place_get logical_pos start len = min (if leb start logical_pos then logical_pos - start else 0) len

unfoldable pub install_window : ℕ → ℕ → ℕ → Bool → Text → Buffer → Buffer
install_window read_ahead window_origin logical_pos partial window b =
    let start = if partial then window_origin else 0 in
    record b {
      window = window;
      window_start = start;
      window_len = length window;
      get = some (place_get logical_pos start (length window));
      reached_eof = if partial then ltb (length window) read_ahead else true;
    }

unfoldable pub fail : Text → Buffer → Buffer
fail msg b = record b { window_len = 0; get = none; last_error = msg }

-- The window behind the end of the object: 416.
unfoldable pub end_window : ℕ → Buffer → Buffer
end_window start b = record b {
  window = [];
  window_start = start;
  window_len = 0;
  get = none;
  reached_eof = true;
}

-- Whether a position is in the live window, its end included.
unfoldable pub in_window : Buffer → ℕ → Bool
in_window b target =
    ltb 0 b.window_len
    && (leb b.window_start target && leb target ((b.window_start + b.window_len) % 2 ^ 64))

-- A seek in the window moves the get pointer only.
unfoldable pub move_get : ℕ → Buffer → Buffer
move_get target b = record b { get = some (target - b.window_start) }

-- -1, for a seek that failed, is `none`.
abbrev pub Sought : Type 0 → Type 0
Sought S = Option (Option ℕ × Buffer × S)

abbrev pub clear_error : Buffer → Buffer
clear_error b = record b { last_error = [] }

pub data SeekDir : Type 0 where
  beg cur end : SeekDir

-- base + off, `none` below 0
abbrev pub add_off : ℕ → ℤ → Option ℕ
add_off base (pos n) = some (base + n)
add_off base (negsuc n) = if leb (n + 1) base then some (base - (n + 1)) else none

module _ {S : Type 0} (load : ℕ → Buffer → S → Option (Bool × Buffer × S)) where
  -- The byte at gptr(), which is returned without asking that gptr() < egptr(). At the window's end
  -- that is a read past the buffer, which has no defined result: the outer `none`.
  abbrev pub read_get : Option ℕ → Buffer → S → Option (Option ℕ × Buffer × S)
  read_get none b s = none
  read_get (some c) b s = some (some c, b, s)

  -- The next byte, or the inner `none` for eof, after a load that was asked for.
  unfoldable pub after_load : Bool × Buffer × S → Option (Option ℕ × Buffer × S)
  after_load (done, b, s) =
      if not done
      then some (none, b, s)
      else if b.window_len == 0
      then some (none, record b { reached_eof = true }, s)
      else read_get (at_get b) b s

  -- Behind the window, and at the end of the object or not.
  unfoldable pub refill : Bool → Buffer → S → Option (Option ℕ × Buffer × S)
  refill true b s = some (none, b, s)
  refill false b s = elim (load ((b.window_start + b.window_len) % 2 ^ 64) b s) [
    | none ↦ none
    | some r ↦ after_load r
  ]

  -- The outer `none` is a load that ran out of fuel, or a read past the buffer.
  unfoldable pub underflow : Buffer → S → Option (Option ℕ × Buffer × S)
  underflow b s = elim (at_get b) [ some c ↦ some (some c, b, s) | none ↦ refill b.reached_eof b s ]

  -- A seek to a position, for a stream that is open for input.
  unfoldable pub seekpos : ℕ → Buffer → S → Sought S
  seekpos target b s =
      if in_window b target
      then some (some target, move_get target (clear_error b), s)
      else elim (load target (clear_error b) s) [
        | none ↦ none
        | some (done, b', s') ↦ some (if done then some target else none, b', s')
      ]

  unfoldable pub seek_to : Option ℕ → Buffer → S → Sought S
  seek_to none b s = some (none, b, s)
  seek_to (some target) b s = seekpos target b s

  -- seekoff from the start or from the position; offsets are such that the sum fits in 63 bits.
  unfoldable pub seekoff : ℤ → SeekDir → Buffer → S → Sought S
  seekoff off beg b s = seek_to (add_off 0 off) b s
  seekoff off cur b s = seek_to (add_off (cur_pos b) off) b s
  seekoff off end b s = some (none, b, s)
