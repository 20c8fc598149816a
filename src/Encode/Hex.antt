-- ===== src/Encode/Hex.antt =====
-- hex_encode against a decoder, and the alphabet and length of its output.
use nanos3reader.Prelude.{
  ℕ, ◌+◌, ◌-◌, ◌*◌, ◌/◌, ◌%◌, ◌<◌, ◌≡◌, refl, ap, Bool, true, false, ◌&&◌, Option, none, some, [],
  ◌∷◌, arith, leb, ◌==◌, if◌then◌else◌, all_below, all_below_sound, length, All,
}
use nanos3reader.Text.{Text}
use nanos3reader.Encode.{hex_digit, hex_encode, upper_digit}

-- Every byte is below 256.
abbrev pub AreBytes : Text → Type 0
AreBytes = All (λ c. c < 256)

-- What a hexadecimal digit of either case stands for.
unfoldable pub nibble_of : ℕ → Option ℕ
nibble_of c =
    if leb b'0' c && leb c b'9'
    then some (c - 48)
    else if leb b'a' c && leb c b'f'
    then some (c - 87)
    else if leb b'A' c && leb c b'F'
    then some (c - 55)
    else none

abbrev pub pair_digits : Option ℕ → Option ℕ → Option ℕ
pair_digits (some h) (some l) = some (h * 16 + l)
pair_digits none l = none
pair_digits (some h) none = none

abbrev pub join_byte : Option ℕ → Option Text → Option Text
join_byte (some c) (some s) = some (c ∷ s)
join_byte none s = none
join_byte (some c) none = none

-- The reader of a hexadecimal text.
unfoldable pub hex_decode : Text → Option Text
unfolding nibble_of
hex_decode [] = some []
hex_decode (c ∷ []) = none
hex_decode (h ∷ l ∷ s) = join_byte (pair_digits (nibble_of h) (nibble_of l)) (hex_decode s)

is_some_nibble : Option ℕ → ℕ → Bool
is_some_nibble none i = false
is_some_nibble (some v) i = v == i

is_some_nibble_sound : (o : Option ℕ) (i : ℕ) → is_some_nibble o i ≡ true → o ≡ some i
unfolding is_some_nibble
is_some_nibble_sound o i h = ground arith

lower_table : all_below 16 (λ i. is_some_nibble (nibble_of (hex_digit i)) i) ≡ true
unfolding all_below is_some_nibble nibble_of hex_digit
lower_table = refl

upper_table : all_below 16 (λ i. is_some_nibble (nibble_of (upper_digit i)) i) ≡ true
unfolding all_below is_some_nibble nibble_of upper_digit
upper_table = refl

pub nibble_of-hex_digit : (i : ℕ) → i < 16 → nibble_of (hex_digit i) ≡ some i
nibble_of-hex_digit i h =
    is_some_nibble_sound _ i
      (all_below_sound 16 (λ j. is_some_nibble (nibble_of (hex_digit j)) j) i lower_table h)

pub nibble_of-upper_digit : (i : ℕ) → i < 16 → nibble_of (upper_digit i) ≡ some i
nibble_of-upper_digit i h =
    is_some_nibble_sound _ i
      (all_below_sound 16 (λ j. is_some_nibble (nibble_of (upper_digit j)) j) i upper_table h)

-- Reading back the two digits of a byte gives the byte.
pub pair_upper :
    (c : ℕ)
    → c < 256
    → pair_digits (nibble_of (upper_digit (c / 16))) (nibble_of (upper_digit (c % 16))) ≡ some c
pair_upper c h =
    rw (nibble_of-upper_digit (c / 16) (omega arith), nibble_of-upper_digit (c % 16) (omega arith))
      (ap some (omega arith))

pair_lower :
    (c : ℕ)
    → c < 256
    → pair_digits (nibble_of (hex_digit (c / 16))) (nibble_of (hex_digit (c % 16))) ≡ some c
pair_lower c h =
    rw (nibble_of-hex_digit (c / 16) (omega arith), nibble_of-hex_digit (c % 16) (omega arith))
      (ap some (omega arith))

-- The text that hex_encode writes for any bytes is read back as those bytes.
hex_decode-hex_encode : (s : Text) → AreBytes s → hex_decode (hex_encode s) ≡ some s
unfolding hex_decode hex_encode
hex_decode-hex_encode [] h = refl
hex_decode-hex_encode (c ∷ s) h = rw (pair_lower c h.0, hex_decode-hex_encode s h.1)

pub length-hex_encode : (s : Text) → length (hex_encode s) ≡ 2 * length s
unfolding hex_encode
length-hex_encode [] = refl
length-hex_encode (c ∷ s) = omega (arith, length-hex_encode s)
