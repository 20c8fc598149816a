-- ===== src/Uri/Split.antt =====
-- split_s3_uri against the form of a URI, and its agreement with S3MinStreamFactory::open.
use nanos3reader.Prelude.{
  ℕ, suc, ◌+◌, ◌≡◌, refl, sym, subst, ◌⊎◌, inl, inr, Bool, true, false, ◌&&◌, Option, none, some,
  [], ◌∷◌, ◌++◌, arith, ◌==◌, Option-cases, length, take, drop, length-append, take-append,
  drop-append,
}
use mathlib.Core.List.{append_assoc}
use nanos3reader.Text.{Text, is_empty, starts_with, find_char}
use nanos3reader.Text.Find.{
  starts_with→append, Lacks, find_char-append, find_char-none, is_empty-drop, find_char-some,
}
use nanos3reader.Result.{Result, ok, err}
use nanos3reader.Uri.{scheme, cut_bucket, split_s3_uri, open_target}

abbrev pub to_option {ℓ} : {A : Type ℓ} → Result A → Option A
to_option (ok a) = some a
to_option (err e) = none

-- The two parts of an authority and path.
abbrev pub Joins : Text → Text → Text → Type 0
Joins rest bucket key = (rest ≡ bucket ++ b'/' ∷ key) ⊎ ((rest ≡ bucket) × (key ≡ []))

cut_bucket-join :
    (bucket key : Text) → Lacks b'/' bucket → cut_bucket (bucket ++ b'/' ∷ key) ≡ (bucket, key)
cut_bucket-join bucket key h =
    rw (find_char-append b'/' bucket key h) (
      ground
        (arith, take-append bucket (b'/' ∷ key) (length bucket) refl, drop-suc bucket key b'/'))
  where
    drop-suc : (s t : Text) (c : ℕ) → drop (length s + 1) (s ++ c ∷ t) ≡ t
    drop-suc s t c =
        rw (sym (append_assoc s (c ∷ []) t))
          (drop-append (s ++ c ∷ []) t _ (omega (arith, length-append s (c ∷ []))))

cut_bucket-Joins :
    (rest : Text)
    → Joins rest (cut_bucket rest).0 (cut_bucket rest).1 × Lacks b'/' (cut_bucket rest).0
cut_bucket-Joins rest = elim (Option-cases (find_char b'/' rest)) [
  | inl q ↦ rw q (inr (refl, refl), find_char-none b'/' rest q)
  | inr (i, q) ↦
      let r = find_char-some b'/' rest i q in
      let e : i + 1 ≡ suc i = omega arith in rw q (inl (rw e r.0), r.1)
]

-- The URI of a bucket and a key is read as that bucket and that key.
pub split_s3_uri-join :
    (bucket key : Text) (need_key : Bool)
    → Lacks b'/' bucket
    → is_empty bucket ≡ false
    → (need_key && is_empty key) ≡ false
    → split_s3_uri (scheme ++ (bucket ++ b'/' ∷ key)) need_key ≡ ok (bucket, key)
unfolding split_s3_uri
split_s3_uri-join bucket key need_key h ne k = ground (arith, cut_bucket-join bucket key h)

split_s3_uri-inv :
    (uri : Text) (need_key : Bool) (bucket key : Text)
    → split_s3_uri uri need_key ≡ ok (bucket, key)
    → (starts_with scheme uri ≡ true)
      × (cut_bucket (drop 5 uri) ≡ (bucket, key))
      × (is_empty bucket ≡ false)
      × ((need_key && is_empty key) ≡ false)
unfolding split_s3_uri
split_s3_uri-inv uri need_key bucket key h =
    (ground arith, ground arith, ground arith, ground arith)

-- What split_s3_uri takes has the form of a URI, and its parts are those of the result.
split_s3_uri-ok :
    (uri : Text) (need_key : Bool) (bucket key : Text)
    → split_s3_uri uri need_key ≡ ok (bucket, key)
    → (uri ≡ scheme ++ drop 5 uri)
      × Joins (drop 5 uri) bucket key
      × (is_empty bucket ≡ false)
      × ((need_key && is_empty key) ≡ false)
      × Lacks b'/' bucket
split_s3_uri-ok uri need_key bucket key h =
    let v = split_s3_uri-inv uri need_key bucket key h in
    let j =
      subst (λ (p : Text × Text). Joins (drop 5 uri) p.0 p.1 × Lacks b'/' p.0) v.1
        (cut_bucket-Joins (drop 5 uri)) in
    (starts_with→append scheme uri v.0, j.0, v.2, v.3, j.1)

is_empty-length : (s : Text) → is_empty s ≡ (length s == 0)
is_empty-length [] = refl
is_empty-length (c ∷ s) = ground arith

-- The stream factory and the client take the same object URIs, and read the same parts.
open_target-eq-split_s3_uri :
    (uri : Text) → to_option (open_target uri) ≡ to_option (split_s3_uri uri true)
unfolding open_target split_s3_uri
open_target-eq-split_s3_uri uri = elim (Option-cases (find_char b'/' (drop 5 uri))) [
  | inl q ↦ ground arith
  | inr (i, q) ↦ ground (
    arith,
    is_empty-length (take i (drop 5 uri)),
    (find_char-some b'/' (drop 5 uri) i q).2,
    is_empty-drop (i + 1) (drop 5 uri),
  )
]
