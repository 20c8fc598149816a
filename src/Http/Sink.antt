-- ===== src/Http/Sink.antt =====
-- The write callback sink_write, and the header callback capture_etag.
pub mod Limits
pub mod Etag
use nanos3reader.Prelude.{
  ℕ, ◌+◌, ◌-◌, ◌^◌, Bool, true, false, ◌&&◌, Option, none, some, List, [], ◌∷◌, map, ◌++◌, ltb, leb,
  ◌==◌, if◌then◌else◌, length, take, drop, ◌%◌, zero, suc, ◌*◌, ◌/◌, ◌≤◌, ◌<◌, min, max, ◌≡◌, refl,
  sym, ap, ◌∙◌, subst, ◌≢◌, ◌↔◌, ◌⊎◌, inl, inr, not, ◌||◌, arith, ltb→lt, lt→ltb, leb→le, ==_iff,
  tests, Bool-cases, Option-cases, all_below, all_below_sound, get_elem?, replicate, set, All,
  length-append, take-append-drop, length-take, length-drop, length-replicate, length-map,
  length-set, take-append, drop-append, take-all, drop-all, get_elem?-take, get_elem?-drop,
  get_elem?-none, All-append, drop-drop, take-add,
}
use nanos3reader.Text.{
  Text, codes, text_eq, substr, find_first_not_of, find_last_not_of, is_blank, is_space, is_empty,
  text_lt, starts_with, shift, find_char, find, find_from, find_char_from, substr_from,
  no_line_break, ends_with_char, trim_by, trim, trim_ws, to_string_fuel, to_string, uint64_max,
  parse_digits, parse_u64,
}

-- 16 MiB: kClientTextCap
abbrev pub text_cap : ℕ
text_cap = 2 ^ 24

-- `dst_cap` is `none` where the call has no destination; `dst` holds the bytes written to it.
pub record Sink : Type 0 where
  pub dst_cap : Option ℕ
  pub dst : Text
  pub text : Text
  pub overflow : Bool

unfoldable pub append_text : Sink → Text → Sink × Bool
append_text s chunk =
    if ltb text_cap (length s.text + length chunk)
    then (record s { overflow = true }, false)
    else (record s { text = s.text ++ chunk }, true)

-- A chunk for a destination of the given room, or for the text.
unfoldable pub write_to : Option ℕ → ℕ → Sink → Text → Sink × Bool
unfolding append_text
write_to none code s chunk = append_text s chunk
write_to (some room) code s chunk =
    if code == 206
    then (if ltb (room - length s.dst) (length chunk)
        then (record s { overflow = true }, false)
        else (record s { dst = s.dst ++ chunk }, true))
    else append_text s chunk

-- The new state, and whether the callback took the chunk; libcurl stops at a chunk that it did not.
unfoldable pub sink_write : ℕ → Sink → Text → Sink × Bool
unfolding write_to
sink_write code s chunk = write_to s.dst_cap code s chunk

-- libcurl's calls of the callback, in order, up to the first that it refuses.
unfoldable pub sink_all : ℕ → Sink → List Text → Sink × Bool
sink_all code s [] = (s, true)
sink_all code s (chunk ∷ chunks) =
    let (s', taken) = sink_write code s chunk in
    let rest = sink_all code s' chunks in if taken then rest else (s', false)

abbrev pub new_sink : Option ℕ → Sink
new_sink cap = record { dst_cap = cap; dst = []; text = []; overflow = false }

-- std::tolower in the "C" locale
unfoldable pub to_lower : ℕ → ℕ
to_lower c = if leb b'A' c && leb c b'Z' then c + 32 else c

-- The count `last - first + 1` of the source, on std::size_t; npos is 2^64 - 1.
abbrev pub etag_count : Option ℕ → ℕ → ℕ
etag_count none first = (2 ^ 64 - first) % 2 ^ 64
etag_count (some last) first = last + 1 - first

-- The value of an ETag line, without the blanks before it and the blanks and line break behind it;
-- another line leaves the value.
unfoldable pub capture_etag : Text → Text → Text
unfolding to_lower text_eq find_first_not_of find_last_not_of substr
capture_etag etag line =
    if ltb 5 (length line) && text_eq (map to_lower (take 5 line)) (codes "etag:")
    then (let value = drop 5 line in
        elim (find_first_not_of is_blank value) [
          | none ↦ []
          | some first ↦ substr value first (etag_count (find_last_not_of is_space value) first)
        ])
    else etag

unfoldable pub capture_etags : Text → List Text → Text
unfolding capture_etag
capture_etags etag [] = etag
capture_etags etag (line ∷ lines) = capture_etags (capture_etag etag line) lines
