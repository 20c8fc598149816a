-- ===== src/PutDirectory/Order.antt =====
-- The files are started largest first, those of one size in the order of the walk, and none is lost.
use nanos3reader.Prelude.{
  ℕ, zero, ◌≤◌, ◌≡◌, refl, ap, ◌∙◌, inl, inr, false, List, [], ◌∷◌, arith, ltb, ◌==◌, if◌then◌else◌,
  Bool-cases, All,
}
use nanos3reader.PutDirectory.Items.{Item, insert_item, largest_first}

-- Those of one size, in order.
unfoldable pub of_size : ℕ → List Item → List Item
of_size n [] = []
of_size n (x ∷ xs) = if x.size == n then x ∷ of_size n xs else of_size n xs

-- Each is at least as large as those behind it.
abbrev pub IsDescending : List Item → Type 0
IsDescending [] = zero ≡ zero
IsDescending (x ∷ xs) = All (λ (y : Item). y.size ≤ x.size) xs × IsDescending xs

All-insert_item :
    (n : ℕ) (x : Item) (xs : List Item)
    → x.size ≤ n
    → All (λ (y : Item). y.size ≤ n) xs
    → All (λ (y : Item). y.size ≤ n) (insert_item x xs)
unfolding insert_item
All-insert_item n x [] h k = (h, tt)
All-insert_item n x (y ∷ ys) h k = elim (Bool-cases (ltb x.size y.size)) [
  | inl e ↦ rw (insert_item, e) (k.0, All-insert_item n x ys h k.1)
  | inr e ↦ rw (insert_item, e) (h, k)
]

All-le :
    (m n : ℕ) (xs : List Item)
    → m ≤ n
    → All (λ (y : Item). y.size ≤ m) xs
    → All (λ (y : Item). y.size ≤ n) xs
All-le m n [] h k = tt
All-le m n (x ∷ xs) h k = (omega (arith, k.0), All-le m n xs h k.1)

insert_item-IsDescending :
    (x : Item) (xs : List Item) → IsDescending xs → IsDescending (insert_item x xs)
unfolding insert_item
insert_item-IsDescending x [] h = (tt, refl)
insert_item-IsDescending x (y ∷ ys) h = elim (Bool-cases (ltb x.size y.size)) [
  | inl e ↦
      rw (insert_item, e)
        (All-insert_item y.size x ys (ground arith) h.0, insert_item-IsDescending x ys h.1)
  | inr e ↦
      let le : y.size ≤ x.size = ground arith in
      rw (insert_item, e) ((le, All-le y.size x.size ys le h.0), h)
]

of_size-insert_item :
    (n : ℕ) (x : Item) (xs : List Item) → of_size n (insert_item x xs) ≡ of_size n (x ∷ xs)
unfolding insert_item of_size
of_size-insert_item n x [] = refl
of_size-insert_item n x (y ∷ ys) = elim (Bool-cases (ltb x.size y.size)) [
  | inl e ↦ elim (Bool-cases (x.size == n)) [
    | inl q ↦
        let r : (y.size == n) ≡ false = ground arith in
        rw (insert_item, e, r, q) (of_size-insert_item n x ys ∙ rw q refl)
    | inr q ↦
        let ih : of_size n (insert_item x ys) ≡ of_size n ys =
          of_size-insert_item n x ys ∙ rw q refl in
        rw (insert_item, e, q, ih) refl
  ]
  | inr e ↦ rw (insert_item, e) refl
]

-- The order of std::stable_sort: descending sizes, and the files of each size in the order of the
-- walk, all of them and no others.
pub largest_first_lem :
    (xs : List Item)
    → IsDescending (largest_first xs) × ((n : ℕ) → of_size n (largest_first xs) ≡ of_size n xs)
unfolding largest_first of_size
largest_first_lem [] = (refl, λ n. refl)
largest_first_lem (x ∷ xs) =
    let (down, same) = largest_first_lem xs in
    (
      insert_item-IsDescending x (largest_first xs) down,
      (λ n.
          of_size-insert_item n x (largest_first xs)
          ∙ ap (λ (ys : List Item). if x.size == n then x ∷ ys else ys) (same n)),
    )
