-- ===== src/Text/Find.antt =====
-- Laws of find, substr and the comparisons on texts.
use nanos3reader.Prelude.{
  ℕ, zero, suc, ◌+◌, ◌≤◌, ◌<◌, ◌≡◌, refl, ap, ◌∙◌, ◌≢◌, ◌↔◌, inl, inr, true, false, none, some, [],
  ◌∷◌, ◌++◌, arith, leb, ◌==◌, Bool-cases, Option-cases, length, take, drop, All, length-append,
  length-drop,
}
use nanos3reader.Text.Defs.{Text, text_eq, is_empty, starts_with, find_char, find}

pub text_eq→eq : (s t : Text) → text_eq s t ≡ true → s ≡ t
unfolding text_eq
text_eq→eq [] [] h = refl
text_eq→eq [] (d ∷ t) h = cc
text_eq→eq (c ∷ s) [] h = cc
text_eq→eq (c ∷ s) (d ∷ t) h = ground (arith, text_eq→eq s t)

pub text_eq_refl : (s : Text) → text_eq s s ≡ true
unfolding text_eq
text_eq_refl [] = refl
text_eq_refl (c ∷ s) = ground (arith, text_eq_refl s)

pub text_eq_iff : (s t : Text) → (text_eq s t ≡ true) ↔ (s ≡ t)
text_eq_iff s t = (text_eq→eq s t, λ e. rw e (text_eq_refl t))

pub starts_with-append : (p s : Text) → starts_with p (p ++ s) ≡ true
unfolding starts_with
starts_with-append [] s = refl
starts_with-append (c ∷ p) s = ground (arith, starts_with-append p s)

pub starts_with→append : (p s : Text) → starts_with p s ≡ true → s ≡ p ++ drop (length p) s
unfolding starts_with
starts_with→append [] s h = refl
starts_with→append (c ∷ p) [] h = cc
starts_with→append (c ∷ p) (d ∷ s) h = ground (arith, starts_with→append p s)

-- The byte is absent.
abbrev pub Lacks : ℕ → Text → Type 0
Lacks c = All (λ d. c ≢ d)

-- `find_char` gives the first place of the byte.
pub find_char-append : (c : ℕ) (s t : Text) → Lacks c s → find_char c (s ++ c ∷ t) ≡ some (length s)
unfolding find_char
find_char-append c [] t h = ground arith
find_char-append c (d ∷ s) t h = ground (arith, find_char-append c s t h.1)

pub find_char-Lacks : (c : ℕ) (s : Text) → Lacks c s → find_char c s ≡ none
unfolding find_char
find_char-Lacks c [] h = refl
find_char-Lacks c (d ∷ s) h = ground (arith, find_char-Lacks c s h.1)

pub find_char-none : (c : ℕ) (s : Text) → find_char c s ≡ none → Lacks c s
unfolding find_char
find_char-none c [] h = tt
find_char-none c (d ∷ s) h = elim (Bool-cases (c == d)) [
  | inl e ↦ absurd (ground arith)
  | inr e ↦ (ground arith, find_char-none c s (ground (arith, Option-cases (find_char c s))))
]

pub is_empty-drop : (n : ℕ) (s : Text) → is_empty (drop n s) ≡ leb (length s) n
is_empty-drop zero [] = refl
is_empty-drop zero (c ∷ s) = ground arith
is_empty-drop (suc n) [] = ground arith
is_empty-drop (suc n) (c ∷ s) = ground (arith, is_empty-drop n s)

-- Where `find_char` gives a place, the text is cut there, and the byte is not before it.
pub find_char-some :
    (c : ℕ) (s : Text) (i : ℕ)
    → find_char c s ≡ some i
    → (s ≡ take i s ++ c ∷ drop (suc i) s) × Lacks c (take i s) × (length (take i s) ≡ i)
unfolding find_char
find_char-some c [] i h = cc
find_char-some c (d ∷ s) zero h = elim (Bool-cases (c == d)) [
  | inl e ↦ (ground arith, tt, refl)
  | inr e ↦ absurd (ground (arith))
]
find_char-some c (d ∷ s) (suc i) h = elim (Bool-cases (c == d)) [
  | inl e ↦ absurd (ground arith)
  | inr e ↦
      let r = find_char-some c s i (ground arith) in
      (ap (◌∷◌ d) r.0, (ground arith, r.1), ap suc r.2)
]

-- `find` gives the first place where the needle stands.
pub find-some :
    (needle s : Text) (i : ℕ)
    → find needle s ≡ some i
    → (starts_with needle (drop i s) ≡ true) × (i ≤ length s)
unfolding find
find-some needle [] zero h = ground arith
find-some needle [] (suc i) h = absurd (ground arith)
find-some needle (c ∷ s) zero h = ground arith
find-some needle (c ∷ s) (suc i) h = elim (Bool-cases (starts_with needle (c ∷ s))) [
  | inl e ↦ absurd (cc (rw e at h))
  | inr e ↦ let r = find-some needle s i (ground arith) in (r.0, omega (arith, r.1))
]

starts_with-length : (p s : Text) → starts_with p s ≡ true → length p ≤ length s
starts_with-length p s h =
    let e : length s ≡ length p + length (drop (length p) s) =
      ap length (starts_with→append p s h) ∙ length-append p _ in
    omega arith

pub find-bound : (needle s : Text) (i : ℕ) → find needle s ≡ some i → i + length needle ≤ length s
find-bound needle s i h =
    let r = find-some needle s i h in
    omega (arith, starts_with-length needle (drop i s) r.0, length-drop i s)

-- Nothing before the place that `find` gives starts with the needle.
pub find-first :
    (needle s : Text) (i j : ℕ)
    → find needle s ≡ some i
    → j < i
    → starts_with needle (drop j s) ≡ false
unfolding find
find-first needle [] zero j h lt = elim lt [ ]
find-first needle [] (suc i) j h lt = absurd (ground arith)
find-first needle (c ∷ s) zero j h lt = elim lt [ ]
find-first needle (c ∷ s) (suc i) zero h lt = ground arith
find-first needle (c ∷ s) (suc i) (suc j) h lt =
    find-first needle s i j (ground arith) (omega arith)
