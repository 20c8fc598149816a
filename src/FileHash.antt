-- ===== src/FileHash.antt =====
-- sha256_file_hex of src/s3_reader.cpp: the SHA-256 of a range of a file, read in chunks, over either
-- backend's streaming interface.
pub mod Range
use nanos3reader.Prelude.{
  ℕ, zero, suc, ◌+◌, ◌-◌, ◌*◌, ◌/◌, ◌%◌, ◌^◌, ◌≤◌, ◌<◌, min, max, ◌≡◌, refl, sym, ap, ◌∙◌, subst,
  ◌≢◌, ◌↔◌, ◌⊎◌, inl, inr, Bool, true, false, not, ◌&&◌, ◌||◌, Option, none, some, List, [], ◌∷◌,
  map, ◌++◌, arith, ltb, leb, ◌==◌, if◌then◌else◌, ltb→lt, lt→ltb, leb→le, ==_iff, tests,
  Bool-cases, Option-cases, all_below, all_below_sound, length, get_elem?, take, drop, replicate,
  set, All, length-append, take-append-drop, length-take, length-drop, length-replicate, length-map,
  length-set, take-append, drop-append, take-all, drop-all, get_elem?-take, get_elem?-drop,
  get_elem?-none, All-append, ℤ, pos, negsuc, drop-drop, take-add, take-take, get_elem?-set,
  get_elem?-lt, get_elem?-some,
}
use nanos3reader.Text.{
  Text, codes, text_eq, is_empty, text_lt, starts_with, shift, find_char, find, find_from,
  find_char_from, substr, substr_from, find_first_not_of, find_last_not_of, no_line_break,
  ends_with_char, is_blank, is_space, trim_by, trim, trim_ws, to_string_fuel, to_string, uint64_max,
  parse_digits, parse_u64,
}
use nanos3reader.Encode.{hex_encode}

-- A streaming hash that gives `digest`: an Sha256, or OpenSSL's EVP_MD_CTX.
pub record Hasher (digest : Text → Text) : Type 1 where
  pub State : Type 0
  pub init : State
  pub update : State → Text → State
  pub finish : State → Text
  pub update-nil : update init [] ≡ init
  pub update-append : (p q : Text) → update (update init p) q ≡ update init (p ++ q)
  pub finish-update : (m : Text) → finish (update init m) ≡ digest m

-- The size of the buffer.
abbrev pub read_chunk : ℕ
read_chunk = 1048576

module _ {digest : Text → Text} (h : Hasher digest) where
  open h use {State, init, update, finish}

  -- The loop over the `left` bytes still wanted, where fread has `rest` before the end of the file.
  -- `none` is a file that is too short. The fuel bounds the reads.
  unfoldable pub hash_loop : ℕ → ℕ → Text → State → Option State
  hash_loop zero left rest st = none
  hash_loop (suc fuel) left rest st =
      let n = min left read_chunk in
      let more = hash_loop fuel (left - n) (drop n rest) (update st (take n rest)) in
      if left == 0 then some st else if length (take n rest) == n then more else none

  unfoldable pub hash_digest : Option State → Option Text
  hash_digest none = none
  hash_digest (some st) = some (hex_encode (finish st))

  -- The cast to a 64-bit off_t makes an offset from 2^63 on negative, and fseeko refuses it. In an
  -- open regular file it takes every other one, behind the end of the file too.
  unfoldable pub sha256_file_hex : Text → ℕ → ℕ → Option Text
  sha256_file_hex bytes offset len =
      if leb (2 ^ 63) offset
      then none
      else hash_digest (hash_loop (len / read_chunk + 2) len (drop offset bytes) init)
