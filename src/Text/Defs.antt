-- ===== src/Text/Defs.antt =====
-- Texts as lists of bytes, and std::string's find, substr and comparisons.
use Prim.Native.Char.{code}
use Prim.Native.String.{String}
use nanos3reader.Prelude.{
  ℕ, zero, suc, ◌+◌, ◌-◌, ◌*◌, ◌/◌, ◌%◌, Bool, true, false, ◌&&◌, ◌||◌, Option, none, some, List,
  [], ◌∷◌, ◌++◌, ltb, ◌==◌, if◌then◌else◌, take, drop,
}

abbrev pub Text : Type 0
Text = List ℕ

-- The bytes of an ASCII literal.
abbrev pub codes : String → Text
codes String.[] = []
codes (String.◌∷◌ c s) = code c ∷ codes s

unfoldable pub text_eq : Text → Text → Bool
text_eq [] [] = true
text_eq [] (d ∷ t) = false
text_eq (c ∷ s) [] = false
text_eq (c ∷ s) (d ∷ t) = c == d && text_eq s t

abbrev pub is_empty : Text → Bool
is_empty [] = true
is_empty (c ∷ s) = false

-- a < b on std::string: the order of the bytes, a proper prefix first.
unfoldable pub text_lt : Text → Text → Bool
text_lt s [] = false
text_lt [] (d ∷ t) = true
text_lt (c ∷ s) (d ∷ t) = ltb c d || (c == d && text_lt s t)

-- s.rfind(prefix, 0) == 0
unfoldable pub starts_with : Text → Text → Bool
starts_with [] s = true
starts_with (p ∷ ps) [] = false
starts_with (p ∷ ps) (c ∷ s) = p == c && starts_with ps s

abbrev pub shift : ℕ → Option ℕ → Option ℕ
shift k none = none
shift k (some i) = some (k + i)

-- s.find(c); `none` is npos
unfoldable pub find_char : ℕ → Text → Option ℕ
find_char c [] = none
find_char c (d ∷ s) = if c == d then some 0 else shift 1 (find_char c s)

-- s.find(needle)
unfoldable pub find : Text → Text → Option ℕ
unfolding starts_with
find needle [] = if starts_with needle [] then some 0 else none
find needle (c ∷ s) = if starts_with needle (c ∷ s) then some 0 else shift 1 (find needle s)

-- s.find(needle, pos) and s.find(c, pos) for pos <= s.size(), as every call has it
unfoldable pub find_from : Text → Text → ℕ → Option ℕ
unfolding find
find_from needle s pos = shift pos (find needle (drop pos s))

unfoldable pub find_char_from : ℕ → Text → ℕ → Option ℕ
unfolding find_char
find_char_from c s pos = shift pos (find_char c (drop pos s))

-- s.substr(pos, n) and s.substr(pos) for pos <= s.size(), as every call has it
unfoldable pub substr : Text → ℕ → ℕ → Text
substr s pos n = take n (drop pos s)

unfoldable pub substr_from : Text → ℕ → Text
substr_from s pos = drop pos s

-- s.find_first_not_of(set) and s.find_last_not_of(set), the set as a test
unfoldable pub find_first_not_of : (ℕ → Bool) → Text → Option ℕ
find_first_not_of p [] = none
find_first_not_of p (c ∷ s) = if p c then shift 1 (find_first_not_of p s) else some 0

unfoldable pub find_last_not_of : (ℕ → Bool) → Text → Option ℕ
find_last_not_of p [] = none
find_last_not_of p (c ∷ s) = elim (find_last_not_of p s) [
  | some i ↦ some (1 + i)
  | none ↦ if p c then none else some 0
]

-- s.find_first_of("\r\n") == npos
unfoldable pub no_line_break : Text → Bool
no_line_break [] = true
no_line_break (c ∷ s) = if c == 13 || c == 10 then false else no_line_break s

-- s.back() == c, on a text that may be empty
unfoldable pub ends_with_char : ℕ → Text → Bool
ends_with_char c [] = false
ends_with_char c (d ∷ []) = d == c
ends_with_char c (d ∷ e ∷ s) = ends_with_char c (e ∷ s)

abbrev pub is_blank : ℕ → Bool
is_blank c = c == 32 || c == 9

abbrev pub is_space : ℕ → Bool
is_space c = c == 32 || c == 9 || c == 13 || c == 10

-- The part from the first to the last byte outside the set.
unfoldable pub trim_by : (ℕ → Bool) → Text → Text
unfolding find_first_not_of find_last_not_of substr
trim_by p s = elim (find_first_not_of p s) [
  | none ↦ []
  | some b ↦ elim (find_last_not_of p s) [ none ↦ [] | some e ↦ substr s b (e + 1 - b) ]
]

unfoldable pub trim : Text → Text
unfolding trim_by
trim s = trim_by is_blank s

unfoldable pub trim_ws : Text → Text
unfolding trim_by
trim_ws s = trim_by is_space s

-- std::to_string: `f` bounds the digits, and `n + 1` rounds are more than enough.
unfoldable pub to_string_fuel : ℕ → ℕ → Text
to_string_fuel zero n = []
to_string_fuel (suc f) n =
    let rest = to_string_fuel f (n / 10) in
    if ltb n 10 then (48 + n) ∷ [] else rest ++ (48 + n % 10) ∷ []

unfoldable pub to_string : ℕ → Text
unfolding to_string_fuel
to_string n = to_string_fuel (n + 1) n

abbrev pub uint64_max : ℕ
uint64_max = 18446744073709551615

-- The loop of parse_u64: `v` is what the digits so far stand for.
unfoldable pub parse_digits : ℕ → Text → Option ℕ
parse_digits v [] = some v
parse_digits v (c ∷ s) =
    let rest = parse_digits (v * 10 + (c - 48)) s in
    if ltb c b'0' || ltb b'9' c
    then none
    else if ltb ((uint64_max - (c - 48)) / 10) v
    then none
    else rest

unfoldable pub parse_u64 : Text → Option ℕ
unfolding parse_digits
parse_u64 [] = none
parse_u64 (c ∷ s) = parse_digits 0 (c ∷ s)
