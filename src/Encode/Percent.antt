-- ===== src/Encode/Percent.antt =====
-- The percent encoders against a decoder, and the alphabet of their output.
use nanos3reader.Prelude.{
  ℕ, ◌/◌, ◌%◌, ◌<◌, ◌≡◌, refl, ◌⊎◌, inl, inr, Bool, true, false, ◌&&◌, ◌||◌, Option, none, some, [],
  ◌∷◌, arith, leb, ◌==◌, if◌then◌else◌, ==_iff, Bool-cases, all_below, all_below_sound, All,
}
use nanos3reader.Text.{Text}
use nanos3reader.Encode.{upper_digit, percent_encode, uri_encode_path, uri_encode_component}
use nanos3reader.Encode.Hex.{AreBytes, nibble_of, pair_digits, join_byte, pair_upper}

-- The reader of a percent-encoded text.
unfoldable pub percent_decode : Text → Option Text
percent_decode [] = some []
percent_decode (c ∷ []) = if c == b'%' then none else some (c ∷ [])
percent_decode (c ∷ h ∷ []) =
    if c == b'%' then none else join_byte (some c) (percent_decode (h ∷ []))
percent_decode (c ∷ h ∷ l ∷ s) =
    let escaped = join_byte (pair_digits (nibble_of h) (nibble_of l)) (percent_decode s) in
    let plain = join_byte (some c) (percent_decode (h ∷ l ∷ s)) in
    if c == b'%' then escaped else plain

percent_decode-empty : percent_decode [] ≡ some []
unfolding percent_decode
percent_decode-empty = refl

percent_decode-plain :
    (c : ℕ) (s : Text)
    → (c == b'%') ≡ false
    → percent_decode (c ∷ s) ≡ join_byte (some c) (percent_decode s)
unfolding percent_decode
percent_decode-plain c [] h = ground arith
percent_decode-plain c (a ∷ []) h = ground arith
percent_decode-plain c (a ∷ b ∷ s) h = ground arith

percent_decode-escaped :
    (c : ℕ) (s t : Text)
    → c < 256
    → percent_decode s ≡ some t
    → percent_decode (b'%' ∷ upper_digit (c / 16) ∷ upper_digit (c % 16) ∷ s) ≡ some (c ∷ t)
unfolding percent_decode
percent_decode-escaped c s t h e = rw (pair_upper c h, e)

-- A kept byte is not '%', if '%' is not kept.
kept-ne-percent :
    (keep : ℕ → Bool) (c : ℕ) → keep b'%' ≡ false → keep c ≡ true → (c == b'%') ≡ false
kept-ne-percent keep c k e = elim (Bool-cases (c == b'%')) [
  | inl q ↦ let p : c ≡ b'%' = (==_iff c b'%').0 q in cc
  | inr q ↦ q
]

percent_decode-percent_encode :
    (keep : ℕ → Bool) (s : Text)
    → keep b'%' ≡ false
    → AreBytes s
    → percent_decode (percent_encode keep s) ≡ some s
unfolding percent_encode
percent_decode-percent_encode keep [] k h = percent_decode-empty
percent_decode-percent_encode keep (c ∷ s) k h =
    let ih = percent_decode-percent_encode keep s k h.1 in
    elim (Bool-cases (keep c)) [
      | inl e ↦
          rw (e, percent_decode-plain c (percent_encode keep s) (kept-ne-percent keep c k e), ih)
      | inr e ↦ rw e (percent_decode-escaped c (percent_encode keep s) s h.0 ih)
    ]

-- The encoded path of any key is decoded to that key.
pub percent_decode-uri_encode_path :
    (path : Text) → AreBytes path → percent_decode (uri_encode_path path) ≡ some path
unfolding uri_encode_path
percent_decode-uri_encode_path path h = percent_decode-percent_encode _ path refl h

-- A query value of any bytes is decoded to those bytes.
percent_decode-uri_encode_component :
    (s : Text) → AreBytes s → percent_decode (uri_encode_component s) ≡ some s
unfolding uri_encode_component
percent_decode-uri_encode_component s h = percent_decode-percent_encode _ s refl h

-- The bytes of an encoded text: kept ones, '%', and upper-case hexadecimal digits.
abbrev pub is_upper_hex : ℕ → Bool
is_upper_hex c = (leb b'0' c && leb c b'9') || (leb b'A' c && leb c b'F')

upper_digit_table : all_below 16 (λ i. is_upper_hex (upper_digit i)) ≡ true
unfolding all_below upper_digit
upper_digit_table = refl

abbrev pub IsSafe : (ℕ → Bool) → ℕ → Type 0
IsSafe keep c = (keep c ≡ true) ⊎ ((c == b'%') ≡ true) ⊎ (is_upper_hex c ≡ true)

upper_digit-hex : (i : ℕ) → i < 16 → is_upper_hex (upper_digit i) ≡ true
upper_digit-hex i h = all_below_sound 16 (λ j. is_upper_hex (upper_digit j)) i upper_digit_table h

-- Every byte of an encoded text is one that is kept, or the percent sign, or an upper-case digit.
percent_encode-IsSafe :
    (keep : ℕ → Bool) (s : Text) → AreBytes s → All (IsSafe keep) (percent_encode keep s)
unfolding percent_encode
percent_encode-IsSafe keep [] h = tt
percent_encode-IsSafe keep (c ∷ s) h = elim (Bool-cases (keep c)) [
  | inl e ↦ rw e (inl e, percent_encode-IsSafe keep s h.1)
  | inr e ↦ rw e (
    inr (inl refl),
    (
      inr (inr (upper_digit-hex (c / 16) (omega (arith, h.0)))),
      (inr (inr (upper_digit-hex (c % 16) (omega arith))), percent_encode-IsSafe keep s h.1),
    ),
  )
]
