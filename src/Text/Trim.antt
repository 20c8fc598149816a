-- ===== src/Text/Trim.antt =====
-- What trimming leaves: the text without the padding at its ends.
use nanos3reader.Prelude.{
  ℕ, ◌+◌, ◌-◌, ◌≡◌, refl, sym, ◌∙◌, Bool, true, false, none, some, [], ◌∷◌, ◌++◌, arith, length,
  All, length-append, take-append, drop-append,
}
use nanos3reader.Text.Defs.{Text, substr, find_first_not_of, find_last_not_of, trim_by}
use mathlib.Core.List.{append_assoc}

-- All bytes are in the set.
abbrev pub AllIn : (ℕ → Bool) → Text → Type 0
AllIn p = All (λ c. p c ≡ true)

find_first_not_of-append :
    (p : ℕ → Bool) (l m : Text) (c : ℕ)
    → AllIn p l
    → p c ≡ false
    → find_first_not_of p (l ++ c ∷ m) ≡ some (length l)
unfolding find_first_not_of
find_first_not_of-append p [] m c h k = ground arith
find_first_not_of-append p (d ∷ l) m c h k =
    ground (arith, h.0, find_first_not_of-append p l m c h.1 k)

find_first_not_of-none : (p : ℕ → Bool) (l : Text) → AllIn p l → find_first_not_of p l ≡ none
unfolding find_first_not_of
find_first_not_of-none p [] h = refl
find_first_not_of-none p (d ∷ l) h = ground (arith, h.0, find_first_not_of-none p l h.1)

find_last_not_of-none : (p : ℕ → Bool) (l : Text) → AllIn p l → find_last_not_of p l ≡ none
unfolding find_last_not_of
find_last_not_of-none p [] h = refl
find_last_not_of-none p (d ∷ l) h = ground (arith, h.0, find_last_not_of-none p l h.1)

find_last_not_of-append :
    (p : ℕ → Bool) (m r : Text) (d : ℕ)
    → AllIn p r
    → p d ≡ false
    → find_last_not_of p (m ++ d ∷ r) ≡ some (length m)
unfolding find_last_not_of
find_last_not_of-append p [] r d h k = ground (arith, find_last_not_of-none p r h)
find_last_not_of-append p (c ∷ m) r d h k = ground (arith, find_last_not_of-append p m r d h k)

-- Neither end is in the set.
pub record Tight (p : ℕ → Bool) (t : Text) : Type 0 where
  pub first : ℕ
  pub rest : Text
  pub front : Text
  pub last : ℕ
  pub from_first : t ≡ first ∷ rest
  pub to_last : t ≡ front ++ last ∷ []
  pub first_out : p first ≡ false
  pub last_out : p last ≡ false

pub trim_by-blank : (p : ℕ → Bool) (s : Text) → AllIn p s → trim_by p s ≡ []
unfolding trim_by
trim_by-blank p s h = rw (trim_by, find_first_not_of-none p s h)

-- Cutting at the two places that the searches give leaves the middle.
cut_middle :
    (l m r : Text) (d : ℕ)
    → substr (l ++ (m ++ d ∷ r)) (length l) (length l + length m + 1 - length l) ≡ m ++ d ∷ []
unfolding substr
cut_middle l m r d =
    let e : length l + length m + 1 - length l ≡ length (m ++ d ∷ []) =
      omega (arith, length-append m (d ∷ [])) in
    rw (drop-append l (m ++ d ∷ r) (length l) refl, e, sym (append_assoc m (d ∷ []) r))
      (take-append (m ++ d ∷ []) r (length (m ++ d ∷ [])) refl)

pub trim_by-append :
    (p : ℕ → Bool) (l t r : Text)
    → AllIn p l
    → AllIn p r
    → Tight p t
    → trim_by p (l ++ (t ++ r)) ≡ t
unfolding trim_by
trim_by-append p l t r hl hr k = rw (trim_by, front_found, back_found) cut
  where
    open k use {first, rest, front, last}

    text : l ++ (t ++ r) ≡ l ++ (front ++ last ∷ r)
    text = rw (k.to_last, append_assoc front (last ∷ []) r)

    front_found : find_first_not_of p (l ++ (t ++ r)) ≡ some (length l)
    front_found = rw k.from_first (find_first_not_of-append p l (rest ++ r) first hl k.first_out)

    back_found : find_last_not_of p (l ++ (t ++ r)) ≡ some (length l + length front)
    back_found =
        rw (text, sym (append_assoc l front (last ∷ r)), sym (length-append l front))
          (find_last_not_of-append p (l ++ front) r last hr k.last_out)

    cut : substr (l ++ (t ++ r)) (length l) (length l + length front + 1 - length l) ≡ t
    cut = rw text (cut_middle l front r last ∙ sym k.to_last)
