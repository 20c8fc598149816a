-- ===== src/Encode.antt =====
-- Hexadecimal and percent-encoding in src/s3_reader.cpp: hex_encode, uri_encode_path and
-- uri_encode_component. A byte is a number below 256.
pub mod Hex
pub mod Percent
use nanos3reader.Prelude.{
  ℕ, zero, suc, ◌+◌, ◌-◌, ◌*◌, ◌/◌, ◌%◌, ◌^◌, ◌≤◌, ◌<◌, min, max, ◌≡◌, refl, sym, ap, ◌∙◌, subst,
  ◌≢◌, ◌↔◌, ◌⊎◌, inl, inr, Bool, true, false, not, ◌&&◌, ◌||◌, Option, none, some, List, [], ◌∷◌,
  map, ◌++◌, arith, ltb, leb, ◌==◌, if◌then◌else◌, ltb→lt, lt→ltb, leb→le, ==_iff, tests,
  Bool-cases, Option-cases, all_below, all_below_sound, length, get_elem?, take, drop, replicate,
  set, All, length-append, take-append-drop, length-take, length-drop, length-replicate, length-map,
  length-set, take-append, drop-append, take-all, drop-all, get_elem?-take, get_elem?-drop,
  get_elem?-none,
}
use nanos3reader.Text.{Text, codes}

-- Element of a digit table; the index of every call is below 16.
abbrev pub digit_at : Text → ℕ → ℕ
digit_at [] i = 0
digit_at (c ∷ s) zero = c
digit_at (c ∷ s) (suc i) = digit_at s i

unfoldable pub hex_digit : ℕ → ℕ
hex_digit i = digit_at (codes "0123456789abcdef") i

-- `c >> 4` and `c & 0x0F` of an unsigned char
unfoldable pub hex_encode : Text → Text
unfolding hex_digit
hex_encode [] = []
hex_encode (c ∷ s) = hex_digit (c / 16) ∷ hex_digit (c % 16) ∷ hex_encode s

unfoldable pub upper_digit : ℕ → ℕ
upper_digit i = digit_at (codes "0123456789ABCDEF") i

unfoldable pub is_unreserved : ℕ → Bool
is_unreserved c =
    (leb b'A' c && leb c b'Z')
    || (leb b'a' c && leb c b'z')
    || (leb b'0' c && leb c b'9')
    || c == b'-'
    || c == b'_'
    || c == b'.'
    || c == b'~'

unfoldable pub is_unreserved_or_slash : ℕ → Bool
unfolding is_unreserved
is_unreserved_or_slash c = is_unreserved c || c == b'/'

-- The loop of both encoders: the bytes that `keep` allows stay, the others become %XX.
unfoldable pub percent_encode : (ℕ → Bool) → Text → Text
unfolding upper_digit
percent_encode keep [] = []
percent_encode keep (c ∷ s) =
    let rest = percent_encode keep s in
    if keep c then c ∷ rest else b'%' ∷ upper_digit (c / 16) ∷ upper_digit (c % 16) ∷ rest

unfoldable pub uri_encode_path : Text → Text
unfolding percent_encode is_unreserved_or_slash
uri_encode_path path = percent_encode is_unreserved_or_slash path

unfoldable pub uri_encode_component : Text → Text
unfolding percent_encode is_unreserved
uri_encode_component s = percent_encode is_unreserved s
