-- ===== src/Text/Decimal.antt =====
-- parse_u64 against the value of a decimal numeral, and its round trip with std::to_string.
use nanos3reader.Prelude.{
  ℕ, zero, suc, ◌+◌, ◌-◌, ◌*◌, ◌/◌, ◌%◌, ◌≤◌, ◌<◌, ◌≡◌, refl, Bool, true, false, ◌&&◌, not, Option,
  none, some, [], ◌∷◌, ◌++◌, arith, leb, if◌then◌else◌,
}
use nanos3reader.Text.Defs.{
  Text, is_empty, to_string_fuel, to_string, uint64_max, parse_digits, parse_u64,
}

abbrev pub is_digit : ℕ → Bool
is_digit c = leb 48 c && leb c 57

unfoldable pub all_digits : Text → Bool
all_digits [] = true
all_digits (c ∷ s) = is_digit c && all_digits s

-- What a decimal numeral stands for, after the digits that stand for `acc`.
unfoldable pub value_from : ℕ → Text → ℕ
value_from acc [] = acc
value_from acc (c ∷ s) = value_from (acc * 10 + (c - 48)) s

-- What `parse_u64` promises: it takes the non-empty numerals below 2^64, and nothing else.
unfoldable pub u64_of : Text → Option ℕ
unfolding all_digits value_from
u64_of s =
    if not (is_empty s) && (all_digits s && leb (value_from 0 s) uint64_max)
    then some (value_from 0 s)
    else none

le-value_from : (acc : ℕ) (s : Text) → acc ≤ value_from acc s
unfolding value_from
le-value_from acc [] = omega arith
le-value_from acc (c ∷ s) = omega (arith, le-value_from (acc * 10 + (c - 48)) s)

parse_digits-eq :
    (v : ℕ) (s : Text)
    → v ≤ uint64_max
    → parse_digits v s
      ≡ (if all_digits s && leb (value_from v s) uint64_max then some (value_from v s) else none)
unfolding parse_digits all_digits value_from
parse_digits-eq v [] h = ground arith
parse_digits-eq v (c ∷ s) h =
    ground (arith, parse_digits-eq (v * 10 + (c - 48)) s, le-value_from (v * 10 + (c - 48)) s)

-- parse_u64 takes exactly the non-empty texts of digits whose value is below 2^64, and gives that
-- value: its overflow test neither passes a larger number nor stops a smaller one.
pub parse_u64-eq-u64_of : (s : Text) → parse_u64 s ≡ u64_of s
unfolding parse_u64 u64_of
parse_u64-eq-u64_of [] = refl
parse_u64-eq-u64_of (c ∷ s) = parse_digits-eq 0 (c ∷ s) (omega arith)

value_from-append :
    (acc : ℕ) (s t : Text) → value_from acc (s ++ t) ≡ value_from (value_from acc s) t
unfolding value_from
value_from-append acc [] t = refl
value_from-append acc (c ∷ s) t = value_from-append (acc * 10 + (c - 48)) s t

all_digits-append : (s t : Text) → all_digits (s ++ t) ≡ (all_digits s && all_digits t)
unfolding all_digits
all_digits-append [] t = refl
all_digits-append (c ∷ s) t = ground (arith, all_digits-append s t)

value_from-to_string_fuel : (f n : ℕ) → n < f → value_from 0 (to_string_fuel f n) ≡ n
unfolding value_from to_string_fuel
value_from-to_string_fuel zero n h = elim h [ ]
value_from-to_string_fuel (suc f) n h = ground (
  arith,
  value_from-to_string_fuel f (n / 10),
  value_from-append 0 (to_string_fuel f (n / 10)) ((48 + n % 10) ∷ []),
)

all_digits-to_string_fuel : (f n : ℕ) → all_digits (to_string_fuel f n) ≡ true
unfolding all_digits to_string_fuel
all_digits-to_string_fuel zero n = refl
all_digits-to_string_fuel (suc f) n = ground (
  arith,
  all_digits-to_string_fuel f (n / 10),
  all_digits-append (to_string_fuel f (n / 10)) ((48 + n % 10) ∷ []),
)

pub value_from-to_string : (n : ℕ) → value_from 0 (to_string n) ≡ n
unfolding to_string
value_from-to_string n = value_from-to_string_fuel (n + 1) n (omega arith)

pub all_digits-to_string : (n : ℕ) → all_digits (to_string n) ≡ true
unfolding to_string
all_digits-to_string n = all_digits-to_string_fuel (n + 1) n

is_empty-append : (s : Text) (c : ℕ) → is_empty (s ++ c ∷ []) ≡ false
is_empty-append [] c = refl
is_empty-append (d ∷ s) c = refl

is_empty-to_string_fuel : (f n : ℕ) → is_empty (to_string_fuel (suc f) n) ≡ false
unfolding to_string_fuel
is_empty-to_string_fuel f n =
    ground (arith, is_empty-append (to_string_fuel f (n / 10)) (48 + n % 10))

pub is_empty-to_string : (n : ℕ) → is_empty (to_string n) ≡ false
unfolding to_string
is_empty-to_string n = let e : n + 1 ≡ suc n = omega arith in rw e (is_empty-to_string_fuel n n)

-- A 64-bit number that std::to_string printed is read back by parse_u64.
pub parse_u64-to_string : (n : ℕ) → n ≤ uint64_max → parse_u64 (to_string n) ≡ some n
unfolding u64_of
parse_u64-to_string n h =
    rw parse_u64-eq-u64_of
      (ground (arith, value_from-to_string n, all_digits-to_string n, is_empty-to_string n))
