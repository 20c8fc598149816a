-- ===== src/Xml/Utf8.antt =====
-- append_utf8, and a decoder that reads back every code point.
use Prim.Native.Nat.{bit_or}
use nanos3reader.Prelude.{
  ℕ, ◌+◌, ◌-◌, ◌*◌, ◌/◌, ◌%◌, ◌≤◌, ◌<◌, ◌≡◌, refl, true, Option, none, some, [], ◌∷◌, ◌++◌, arith,
  ltb, ◌==◌, if◌then◌else◌, ==_iff, all_below, all_below_sound,
}
use nanos3reader.Text.{Text}

-- The bytes that append_utf8 adds; `x & 0x3F` is `x % 64`.
unfoldable pub utf8 : ℕ → Text
utf8 cp =
    if ltb cp 0x80
    then cp ∷ []
    else if ltb cp 0x800
    then bit_or 0xc0 (cp / 64) ∷ bit_or 0x80 (cp % 64) ∷ []
    else if ltb cp 0x10000
    then bit_or 0xe0 (cp / 4096) ∷ bit_or 0x80 (cp / 64 % 64) ∷ bit_or 0x80 (cp % 64) ∷ []
    else bit_or 0xf0 (cp / 262144)
      ∷ bit_or 0x80 (cp / 4096 % 64)
      ∷ bit_or 0x80 (cp / 64 % 64)
      ∷ bit_or 0x80 (cp % 64)
      ∷ []

unfoldable pub append_utf8 : Text → ℕ → Text
unfolding utf8
append_utf8 out cp = out ++ utf8 cp

-- The reader of one encoded code point, from the ranges of the first byte.
unfoldable pub utf8_decode : Text → Option ℕ
utf8_decode (a ∷ []) = if ltb a 0x80 then some a else none
utf8_decode (a ∷ b ∷ []) = some ((a - 0xc0) * 64 + (b - 0x80))
utf8_decode (a ∷ b ∷ c ∷ []) = some ((a - 0xe0) * 4096 + (b - 0x80) * 64 + (c - 0x80))
utf8_decode (a ∷ b ∷ c ∷ d ∷ []) =
    some ((a - 0xf0) * 262144 + (b - 0x80) * 4096 + (c - 0x80) * 64 + (d - 0x80))
utf8_decode _ = none

mark_table :
    (all_below 64 (λ x. bit_or 0x80 x == 0x80 + x) ≡ true)
    × (all_below 32 (λ x. bit_or 0xc0 x == 0xc0 + x) ≡ true)
    × (all_below 16 (λ x. bit_or 0xe0 x == 0xe0 + x) ≡ true)
    × (all_below 8 (λ x. bit_or 0xf0 x == 0xf0 + x) ≡ true)
unfolding all_below
mark_table = (refl, refl, refl, refl)

or_tail : (x : ℕ) → x < 64 → bit_or 0x80 x ≡ 0x80 + x
or_tail x h = (==_iff _ _).0 (all_below_sound 64 (λ x. bit_or 0x80 x == 0x80 + x) x mark_table.0 h)

or_two : (x : ℕ) → x < 32 → bit_or 0xc0 x ≡ 0xc0 + x
or_two x h = (==_iff _ _).0 (all_below_sound 32 (λ x. bit_or 0xc0 x == 0xc0 + x) x mark_table.1 h)

or_three : (x : ℕ) → x < 16 → bit_or 0xe0 x ≡ 0xe0 + x
or_three x h = (==_iff _ _).0 (all_below_sound 16 (λ x. bit_or 0xe0 x == 0xe0 + x) x mark_table.2 h)

or_four : (x : ℕ) → x < 8 → bit_or 0xf0 x ≡ 0xf0 + x
or_four x h = (==_iff _ _).0 (all_below_sound 8 (λ x. bit_or 0xf0 x == 0xf0 + x) x mark_table.3 h)

-- The bytes that append_utf8 adds for any code point up to 0x10FFFF are read back as it.
utf8_decode-utf8 : (cp : ℕ) → cp ≤ 0x10ffff → utf8_decode (utf8 cp) ≡ some cp
unfolding utf8_decode utf8
utf8_decode-utf8 cp h = ground (
  arith,
  or_tail (cp % 64) (omega arith),
  or_tail (cp / 64 % 64) (omega arith),
  or_tail (cp / 4096 % 64) (omega arith),
  or_two (cp / 64),
  or_three (cp / 4096),
  or_four (cp / 262144),
)
