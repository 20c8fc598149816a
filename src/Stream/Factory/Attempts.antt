-- ===== src/Stream/Factory/Attempts.antt =====
-- How AWS_MAX_ATTEMPTS is read.
use nanos3reader.Prelude.{ℕ, ◌+◌, ◌-◌, ◌*◌, ◌≤◌, ◌≡◌, refl, ◌∙◌, true, [], ◌∷◌, arith}
use nanos3reader.Text.{Text, to_string}
use nanos3reader.Text.Decimal.{all_digits, value_from, value_from-to_string, all_digits-to_string}
use nanos3reader.Stream.Factory.{atoi_digits, atoi_or_zero, max_attempts_of}

atoi_digits-all : (acc : ℕ) (s : Text) → all_digits s ≡ true → atoi_digits acc s ≡ value_from acc s
unfolding atoi_digits all_digits value_from
atoi_digits-all acc [] h = refl
atoi_digits-all acc (c ∷ s) h = ground (arith, atoi_digits-all (acc * 10 + (c - 48)) s)

atoi_or_zero-all : (s : Text) → all_digits s ≡ true → atoi_or_zero s ≡ value_from 0 s
unfolding atoi_or_zero all_digits value_from
atoi_or_zero-all [] h = refl
atoi_or_zero-all (c ∷ s) h = let digits = atoi_digits-all 0 (c ∷ s) h in ground (arith, digits)

-- The number of attempts is never 0, whatever the variable has, and a number from 1 on that
-- std::to_string printed is taken as it is.
pub max_attempts_of_lem :
    (text : Text) (n : ℕ) → 1 ≤ n → (1 ≤ max_attempts_of text) × (max_attempts_of (to_string n) ≡ n)
unfolding max_attempts_of
max_attempts_of_lem text n h =
    let same = atoi_or_zero-all (to_string n) (all_digits-to_string n) ∙ value_from-to_string n in
    (ground arith, ground (arith, same))
