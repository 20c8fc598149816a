-- ===== src/Multipart/Parts.antt =====
-- The parts of a file: how large they are, how many there are, and that they make up the file.
use mathlib.Core.List.{flatten}
use nanos3reader.Prelude.{
  ℕ, zero, suc, ◌+◌, ◌-◌, ◌*◌, ◌/◌, ◌^◌, ◌≤◌, ◌<◌, min, max, ◌≡◌, refl, sym, ap, ◌∙◌, inl, inr,
  List, [], ◌∷◌, ◌++◌, arith, ltb, leb, leb→le, Bool-cases, length, take, drop, length-drop,
  take-all, drop-drop, take-add,
}
use nanos3reader.Text.{Text, uint64_max}
use nanos3reader.Multipart.{
  min_part_size, max_parts, word64, part_size_for, part_count, part_offset, part_len,
}
use nanos3reader.Http.Upload.{file}
use nanos3reader.Http.Upload.Body.{base_of, body_of}

-- A file of up to 2^63 bytes has at most 10,000 parts. Each is as large as was asked for, and as S3's
-- minimum, or larger.
pub part_size_for_lem :
    (size requested : ℕ)
    → size < 2 ^ 63
    → let ps = part_size_for size requested in
      (min_part_size ≤ ps) × (requested ≤ ps) × (size ≤ max_parts * ps)
unfolding part_size_for
part_size_for_lem size requested h =
    elim (Bool-cases
      (ltb (max requested min_part_size) (word64 (size + (max_parts - 1)) / max_parts))) [
        | inl e ↦ ground arith
        | inr e ↦ ground arith
      ]

-- The parts cover the file, and the last one starts within it.
pub part_count_lem :
    (size ps : ℕ)
    → 0 < ps
    → 0 < size
    → size + ps ≤ 2 ^ 64
    → (size ≤ part_count size ps * ps) × (part_count size ps * ps < size + ps)
unfolding part_count
part_count_lem size ps h k fits =
    let e : word64 (size + ps + uint64_max) ≡ size + ps - 1 = omega arith in
    rw e (grind arith, grind arith)

-- What is sent for the part of index `i`.
abbrev pub part_body : Text → ℕ → ℕ → Text
part_body bytes ps i = body_of (file bytes (part_offset ps i)) (part_len (length bytes) ps i)

-- The parts from `i` on, so many.
unfoldable pub parts_from : Text → ℕ → ℕ → ℕ → List Text
parts_from bytes ps i zero = []
parts_from bytes ps i (suc n) = part_body bytes ps i ∷ parts_from bytes ps (i + 1) n

take-min : (m : ℕ) (xs : Text) → take (min m (length xs)) xs ≡ take m xs
take-min m xs = elim (Bool-cases (leb m (length xs))) [
  | inl e ↦ let le = leb→le _ _ e in ap (λ (k : ℕ). take k xs) (omega arith)
  | inr e ↦
      let few : length xs ≤ m = ground arith in
      ap (λ (k : ℕ). take k xs) (omega arith)
      ∙ take-all (length xs) xs (omega arith)
      ∙ sym (take-all m xs few)
]

part_body-take :
    (bytes : Text) (ps i : ℕ)
    → i * ps < 2 ^ 64
    → part_body bytes ps i ≡ take ps (drop (i * ps) bytes)
unfolding base_of
part_body-take bytes ps i h =
    let e : word64 (i * ps) ≡ i * ps = omega arith in
    rw (e, sym (length-drop (i * ps) bytes)) (take-min ps (drop (i * ps) bytes))

parts_from-take :
    (bytes : Text) (ps i n : ℕ)
    → (i + n) * ps < 2 ^ 64
    → flatten (parts_from bytes ps i n) ≡ take (n * ps) (drop (i * ps) bytes)
unfolding parts_from flatten
parts_from-take bytes ps i zero h = let e : 0 * ps ≡ 0 = omega arith in rw e refl
parts_from-take bytes ps i (suc n) h =
    let here = part_body-take bytes ps i (grind arith) in
    let later = parts_from-take bytes ps (i + 1) n (grind arith) in
    let next : (i + 1) * ps ≡ i * ps + ps = grind arith in
    let all : suc n * ps ≡ ps + n * ps = grind arith in
    rw (here, later, next, all)
      (sym (
        take-add ps (n * ps) (drop (i * ps) bytes)
        ∙ ap (λ (x : Text). take ps (drop (i * ps) bytes) ++ take (n * ps) x)
            (drop-drop (i * ps) ps bytes)))

-- The bodies of all parts, one behind the other, are the file: no byte is left out or sent twice. The
-- sum of the file's length and the part size has to fit in 64 bits.
pub parts_from-file :
    (bytes : Text) (ps : ℕ)
    → 0 < ps
    → 0 < length bytes
    → length bytes + ps ≤ 2 ^ 64
    → flatten (parts_from bytes ps 0 (part_count (length bytes) ps)) ≡ bytes
parts_from-file bytes ps h k fits =
    let (cover, within) = part_count_lem (length bytes) ps h k fits in
    parts_from-take bytes ps 0 (part_count (length bytes) ps) (omega arith)
    ∙ (let e : 0 * ps ≡ 0 = omega arith in rw e (take-all _ bytes cover))

-- A requested part size of 2^64 - 1 bytes, which part_size_for passes on, makes the count wrap around:
-- the file has no parts.
part_count-overflow :
    (size : ℕ) → 1 < size → size < 2 ^ 63 → part_count size (part_size_for size uint64_max) ≡ 0
unfolding part_count part_size_for
part_count-overflow size h k = ground arith
