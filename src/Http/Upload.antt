-- ===== src/Http/Upload.antt =====
-- The read callback upload_read: a body from memory, or a range of a file.
pub mod Body
use nanos3reader.Prelude.{
  ℕ, ◌+◌, ◌-◌, min, Bool, true, false, Option, none, some, List, [], ◌∷◌, ◌++◌, ◌==◌, if◌then◌else◌,
  length, take, drop, zero, suc, ◌*◌, ◌/◌, ◌%◌, ◌^◌, ◌≤◌, ◌<◌, max, ◌≡◌, refl, sym, ap, ◌∙◌, subst,
  ◌≢◌, ◌↔◌, ◌⊎◌, inl, inr, not, ◌&&◌, ◌||◌, map, arith, ltb, leb, ltb→lt, lt→ltb, leb→le, ==_iff,
  tests, Bool-cases, Option-cases, all_below, all_below_sound, get_elem?, replicate, set, All,
  length-append, take-append-drop, length-take, length-drop, length-replicate, length-map,
  length-set, take-append, drop-append, take-all, drop-all, get_elem?-take, get_elem?-drop,
  get_elem?-none, All-append, drop-drop, take-add,
}
use nanos3reader.Text.{
  Text, codes, text_eq, is_empty, text_lt, starts_with, shift, find_char, find, find_from,
  find_char_from, substr, substr_from, find_first_not_of, find_last_not_of, no_line_break,
  ends_with_char, is_blank, is_space, trim_by, trim, trim_ws, to_string_fuel, to_string, uint64_max,
  parse_digits, parse_u64,
}

-- A file is the bytes that it holds while it is sent.
pub data Source : Type 0 where
  memory : Text → Source
  file : Text → ℕ → Source

pub record Upload : Type 0 where
  pub source : Source
  pub len : ℕ
  pub at : ℕ
  pub failed : Bool

-- The bytes that the source has for the body from its position `at`, `want` of them or fewer.
unfoldable pub source_bytes : Source → ℕ → ℕ → Text
source_bytes (memory body) at want = take want (drop at body)
source_bytes (file bytes offset) at want = take want (drop (offset + at) bytes)

-- One call with room for `room` bytes: the bytes handed over, or `none` for
-- CURL_READFUNC_ABORT. A file that is too short is a failure; memory holds the whole body.
unfoldable pub upload_read : Upload → ℕ → Upload × Option Text
unfolding source_bytes
upload_read u room =
    let want = min room (u.len - u.at) in
    let bytes = source_bytes u.source u.at want in
    if want == 0
    then (u, some [])
    else if length bytes == want
    then (record u { at = u.at + want }, some bytes)
    else (record u { failed = true }, none)

-- libcurl's calls of the callback, with the room of each, up to one that hands over nothing; and
-- the bytes that went out.
unfoldable pub upload_all : Upload → List ℕ → Upload × Text
upload_all u [] = (u, [])
upload_all u (room ∷ rooms) =
    let (u', handed) = upload_read u room in
    let (u'', rest) = upload_all u' rooms in
    elim handed [ none ↦ (u', []) | some bytes ↦ (u'', bytes ++ rest) ]

abbrev pub new_upload : Source → ℕ → Upload
new_upload source len = record { source = source; len = len; at = 0; failed = false }
