-- ===== src/Result.antt =====
-- The bool-and-error-text results of src/s3_reader.cpp: `err e` is `error = e; return false`.
use nanos3reader.Prelude.{◌≡◌, refl, ◌⊎◌, inl, inr}
use nanos3reader.Text.{Text}

pub data Result {ℓ} (X : Type ℓ) : Type ℓ where
  err : Text → Result X
  ok : X → Result X

infixl 5 ◌>>=◌
abbrev pub ◌>>=◌ {ℓ κ} : {Y : Type κ} {X : Type ℓ} → Result X → (X → Result Y) → Result Y
err message >>= next = err message
ok x >>= next = next x

-- A bind that succeeds went on from a success.
pub >>=-eq-ok {ℓ κ} :
    {X : Type ℓ} {Y : Type κ} {y : Y}
    → (r : Result X) (next : X → Result Y) → (r >>= next) ≡ ok y
    → (x : X) × (r ≡ ok x) × (next x ≡ ok y)
>>=-eq-ok (err message) next went = cc
>>=-eq-ok (ok x) next went = (x, refl, went)

-- A result changed in its error text only.
abbrev pub map_err {ℓ} : {A : Type ℓ} → (Text → Text) → Result A → Result A
map_err f (ok a) = ok a
map_err f (err e) = err (f e)

pub Result-cases {ℓ} :
    {X : Type ℓ} (r : Result X) → ((e : Text) × (r ≡ err e)) ⊎ ((x : X) × (r ≡ ok x))
Result-cases (err e) = inl (e, refl)
Result-cases (ok x) = inr (x, refl)
