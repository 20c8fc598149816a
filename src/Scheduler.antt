-- ===== src/Scheduler.antt =====
-- Pools of std::threads that are all joined: which threads still run, the scheduler's choice of the
-- next one, and the steps that they have ahead of them.
use nanos3reader.Prelude.{
  ℕ, zero, suc, ◌+◌, ◌*◌, ◌%◌, ◌<◌, ◌≡◌, refl, sym, subst, inl, inr, Bool, true, false, Option,
  none, some, List, [], ◌∷◌, arith, if◌then◌else◌, Bool-cases, length, get_elem?, replicate, set,
  get_elem?-some,
}

module _ {A : Type 0} (is_done : A → Bool) where
  -- The indices, counted from `i`, of the threads that have not returned.
  unfoldable pub busy_from : ℕ → List A → List ℕ
  busy_from i [] = []
  busy_from i (x ∷ xs) = if is_done x then busy_from (i + 1) xs else i ∷ busy_from (i + 1) xs

  pub busy_from-busy :
      (k : ℕ) (xs : List A) (j i : ℕ)
      → get_elem? (busy_from k xs) j ≡ some i
      → (m : ℕ) × (x : A) × (i ≡ k + m) × (get_elem? xs m ≡ some x) × (is_done x ≡ false)
  unfolding busy_from
  busy_from-busy k [] j i h = absurd (cc)
  busy_from-busy k (x ∷ xs) zero i h = elim (Bool-cases (is_done x)) [
    | inl e ↦
        let (m, y, place, at, busy) = busy_from-busy (k + 1) xs zero i (rw (busy_from, e) at h) in
        (suc m, y, omega arith, at, busy)
    | inr e ↦
        let h' = rw (busy_from, e) at h in let same : k ≡ i = cc in (0, x, omega arith, refl, e)
  ]
  busy_from-busy k (x ∷ xs) (suc j) i h = elim (Bool-cases (is_done x)) [
    | inl e ↦
        let (m, y, place, at, busy) =
          busy_from-busy (k + 1) xs (suc j) i (rw (busy_from, e) at h) in
        (suc m, y, omega arith, at, busy)
    | inr e ↦
        let (m, y, place, at, busy) = busy_from-busy (k + 1) xs j i (rw (busy_from, e) at h) in
        (suc m, y, omega arith, at, busy)
  ]

  pub busy_from-none :
      (k : ℕ) (xs : List A) (j : ℕ) (x : A)
      → busy_from k xs ≡ []
      → get_elem? xs j ≡ some x
      → is_done x ≡ true
  unfolding busy_from
  busy_from-none k [] j x h at = absurd (cc)
  busy_from-none k (z ∷ xs) zero x h at = elim (Bool-cases (is_done z)) [
    | inl e ↦ let same : z ≡ x = cc in rw (sym same) e
    | inr e ↦ let h' = rw (busy_from, e) at h in absurd (cc)
  ]
  busy_from-none k (z ∷ xs) (suc j) x h at = elim (Bool-cases (is_done z)) [
    | inl e ↦ busy_from-none (k + 1) xs j x (rw (busy_from, e) at h) at
    | inr e ↦ let h' = rw (busy_from, e) at h in absurd (cc)
  ]

-- Which of them is next, by the scheduler's number; `none` when none is left.
unfoldable pub choice : List ℕ → ℕ → Option ℕ
choice is k = get_elem? is (k % length is)

pub choice-none : (is : List ℕ) (k : ℕ) → choice is k ≡ none → is ≡ []
unfolding choice
choice-none [] k h = refl
choice-none (i ∷ is) k h =
    let low : k % length (i ∷ is) < length (i ∷ is) = grind arith in
    let (a, e) = get_elem?-some (i ∷ is) (k % length (i ∷ is)) low in absurd (cc)

-- The chosen thread has not returned.
pub choice-busy :
    {A : Type 0}
    → (is_done : A → Bool) (xs : List A) (k i : ℕ) → choice (busy_from is_done 0 xs) k ≡ some i
    → (x : A) × (get_elem? xs i ≡ some x) × (is_done x ≡ false)
unfolding choice
choice-busy is_done xs k i e =
    let (m, x, place, at, busy) =
      busy_from-busy is_done 0 xs (k % length (busy_from is_done 0 xs)) i e in
    let same : m ≡ i = omega arith in (x, subst (λ (j : ℕ). get_elem? xs j ≡ some x) same at, busy)

module _ {A : Type 0} (weight : A → ℕ) where
  -- The sum over all threads.
  unfoldable pub weights : List A → ℕ
  weights [] = 0
  weights (x ∷ xs) = weight x + weights xs

  pub weights-set :
      (xs : List A) (i : ℕ) (x x' : A)
      → get_elem? xs i ≡ some x
      → weights (set xs i x') + weight x ≡ weights xs + weight x'
  unfolding weights
  weights-set [] i x x' h = absurd (cc)
  weights-set (z ∷ xs) zero x x' h = let same : z ≡ x = cc in rw (sym same) (omega arith)
  weights-set (z ∷ xs) (suc i) x x' h = omega (arith, weights-set xs i x x' h)

  pub weights-replicate : (n : ℕ) (x : A) → weights (replicate n x) ≡ n * weight x
  unfolding weights
  weights-replicate zero x = omega arith
  weights-replicate (suc n) x = grind (arith, weights-replicate n x)

pub get_elem?-replicate :
    {A : Type 0} (n i : ℕ) (a x : A) → get_elem? (replicate n a) i ≡ some x → a ≡ x
get_elem?-replicate zero i a x h = absurd (cc)
get_elem?-replicate (suc n) zero a x h = cc
get_elem?-replicate (suc n) (suc i) a x h = get_elem?-replicate n i a x h
