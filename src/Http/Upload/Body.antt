-- ===== src/Http/Upload/Body.antt =====
-- The bytes that go out are the body's, in order, and a file that is too short is never passed off
-- as a whole body.
use mathlib.Core.Path.{ap₂}
use nanos3reader.Prelude.{
  ℕ, ◌+◌, ◌-◌, ◌≤◌, ◌<◌, min, ◌≡◌, refl, sym, ap, ◌∙◌, ◌⊎◌, inl, inr, true, Option, none, some,
  List, [], ◌∷◌, ◌++◌, arith, ◌==◌, ==_iff, Bool-cases, length, take, drop, length-append,
  length-take, length-drop, drop-drop, take-add, take-take,
}
use nanos3reader.Text.{Text}
use nanos3reader.Http.Upload.{
  Upload, Source, memory, file, source_bytes, upload_read, upload_all, new_upload,
}

-- The bytes of the source from the start of the body.
unfoldable pub base_of : Source → Text
base_of (memory body) = body
base_of (file bytes offset) = drop offset bytes

source_bytes-base :
    (src : Source) (at want : ℕ) → source_bytes src at want ≡ take want (drop at (base_of src))
unfolding source_bytes base_of
source_bytes-base (memory body) at want = refl
source_bytes-base (file bytes offset) at want = ap (take want) (sym (drop-drop offset at bytes))

-- What one call does: it hands over the source's next bytes and moves past them, or it fails at a
-- source that has fewer.
abbrev pub Handed : Upload → ℕ → Type 0
Handed u room =
    (bytes : Text) × (at : ℕ) × (upload_read u room ≡ (record u { at = at }, some bytes))
    × (at ≡ u.at + length bytes)
    × (bytes ≡ take (length bytes) (drop u.at (base_of u.source)))
    × (at ≤ u.len)

abbrev pub Failed : Upload → ℕ → Type 0
Failed u room =
    (upload_read u room ≡ (record u { failed = true }, none)) × (length (base_of u.source) < u.len)

upload_read-step : (u : Upload) (room : ℕ) → u.at ≤ u.len → Handed u room ⊎ Failed u room
unfolding upload_read
upload_read-step u room h =
    let want = min room (u.len - u.at) in
    let bytes = source_bytes u.source u.at want in
    let rest = drop u.at (base_of u.source) in
    let e : bytes ≡ take want rest = source_bytes-base u.source u.at want in
    let n : length bytes ≡ min want (length (base_of u.source) - u.at) =
      ap length e ∙ length-take want rest ∙ ap (min want) (length-drop u.at _) in
    elim (Bool-cases (want == 0)) [
      | inl z ↦ inl ([], u.at, rw z, omega arith, refl, h)
      | inr z ↦ elim (Bool-cases (length bytes == want)) [
        | inl f ↦
            let k : length bytes ≡ want = (==_iff _ _).0 f in
            inl (
              bytes,
              u.at + want,
              rw (z, f),
              omega arith,
              e ∙ ap (λ (m : ℕ). take m rest) (sym k),
              omega arith,
            )
        | inr f ↦ inr (rw (z, f), ground arith)
      ]
    ]

-- What went out so far, when the position has moved from `at`.
abbrev pub Sent : Upload → ℕ → Upload → Text → Type 0
Sent u at u' sent =
    (sent ≡ take (length sent) (drop at (base_of u.source)))
    × (u'.at ≡ at + length sent)
    × (u'.at ≤ u.len)
    × (u'.failed ≡ true → (u.failed ≡ true) ⊎ (length (base_of u.source) < u.len))

-- Bytes that follow the bytes that went out.
take-append-take :
    (xs bytes rest : Text) (at next : ℕ)
    → next ≡ at + length bytes
    → bytes ≡ take (length bytes) (drop at xs)
    → rest ≡ take (length rest) (drop next xs)
    → bytes ++ rest ≡ take (length (bytes ++ rest)) (drop at xs)
take-append-take xs bytes rest at next moved e f =
    ap₂ ◌++◌ e (
      f
      ∙ ap (λ (k : ℕ). take (length rest) (drop k xs)) moved
      ∙ ap (take (length rest)) (sym (drop-drop at (length bytes) xs)))
    ∙ sym (take-add (length bytes) (length rest) (drop at xs))
    ∙ ap (λ (n : ℕ). take n (drop at xs)) (sym (length-append bytes rest))

-- What the calls behind one call make of its result.
abbrev after_read : List ℕ → Upload × Option Text → Upload × Text
after_read rooms (u, none) = (u, [])
after_read rooms (u, some bytes) = let (u', rest) = upload_all u rooms in (u', bytes ++ rest)

upload_all-cons :
    (u : Upload) (room : ℕ) (rooms : List ℕ)
    → upload_all u (room ∷ rooms) ≡ after_read rooms (upload_read u room)
unfolding upload_all
upload_all-cons u room rooms = ground arith

upload_all-nil : (u : Upload) → u.at ≤ u.len → Sent u u.at (upload_all u []).0 (upload_all u []).1
unfolding upload_all
upload_all-nil u h = (refl, omega arith, omega arith, λ f. inl f)

-- From any position: what goes out is the source's bytes from there on, as many as the position
-- moves, and never more than the body still has. A failure means that the source is too short.
upload_all-Sent :
    (u : Upload) (rooms : List ℕ)
    → u.at ≤ u.len
    → Sent u u.at (upload_all u rooms).0 (upload_all u rooms).1
upload_all-Sent u [] h = upload_all-nil u h
upload_all-Sent u (room ∷ rooms) h = elim (upload_read-step u room h) [
  | inr (q, short) ↦
      rw (upload_all-cons u room rooms, q) (refl, omega arith, omega arith, λ f. inr short)
  | inl (bytes, at, q, moved, e, fits) ↦
      let (ih, place, within, failure) = upload_all-Sent (record u { at = at }) rooms fits in
      rw (upload_all-cons u room rooms, q)
        (
          take-append-take (base_of u.source) bytes _ u.at at moved e ih,
          omega (arith, length-append bytes (upload_all (record u { at = at }) rooms).1),
          within,
          failure,
        )
]

-- The body of a request: the part of the source that the request announces.
abbrev pub body_of : Source → ℕ → Text
body_of source len = take len (base_of source)

-- What goes out in one attempt is a front part of the body; all of it, where the position reaches
-- the announced length; and the read fails only where the source is shorter than that.
pub upload_all-body :
    (source : Source) (len : ℕ) (rooms : List ℕ)
    → let (u, sent) = upload_all (new_upload source len) rooms in
      (sent ≡ take (length sent) (body_of source len))
      × (u.at ≡ len → sent ≡ body_of source len)
      × (u.failed ≡ true → length (base_of source) < len)
upload_all-body source len rooms =
    let (e, place, within, failure) = upload_all-Sent (new_upload source len) rooms (omega arith) in
    (
      e ∙ sym (take-take len _ (base_of source) (omega arith)),
      (λ full. e ∙ ap (λ (n : ℕ). take n (base_of source)) (omega arith)),
      (λ f. elim (failure f) [ inl q ↦ absurd (cc) | inr short ↦ short ]),
    )
