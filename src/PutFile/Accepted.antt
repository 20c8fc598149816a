-- ===== src/PutFile/Accepted.antt =====
-- The messages of a request that failed have text, and a reply without one is a success.
use nanos3reader.Prelude.{
  ℕ, ◌≡◌, refl, inl, inr, true, false, not, ◌||◌, [], ◌∷◌, ◌++◌, arith, ◌==◌, Bool-cases, zero,
}
use nanos3reader.Text.{Text, codes, is_empty}
use nanos3reader.Result.{◌>>=◌, Result, ok, err}
use nanos3reader.World.{World}
use nanos3reader.Http.Wire.{is_curl_ok}
use nanos3reader.Http.Request.{Reply}
use nanos3reader.Client.Calls.{http_failure, transfer_failure}
use nanos3reader.Multipart.{is_read_error, request_failure}
use nanos3reader.PutFile.Source.{accepted}

pub empty-append : (s t : Text) → is_empty t ≡ false → is_empty (s ++ t) ≡ false
empty-append [] t h = h
empty-append (c ∷ s) t h = refl

empty-http_failure : (shown : Text) (r : Reply) → is_empty (http_failure shown r) ≡ false
unfolding http_failure
empty-http_failure shown r = empty-append shown _ refl

empty-transfer_failure :
    (w : World) (shown : Text) (r : Reply) → is_empty (transfer_failure w shown r) ≡ false
unfolding transfer_failure
empty-transfer_failure w shown r = elim (Bool-cases r.overflow) [
  | inl o ↦ rw o (empty-append shown _ refl)
  | inr o ↦ rw o (empty-append shown _ refl)
]

request_failure-empty :
    (w : World) (shown path : Text) (r : Reply) (expect : ℕ)
    → is_empty (request_failure w shown path r expect) ≡ true
    → (r.code ≡ expect) × (is_curl_ok r.rc ≡ true)
unfolding request_failure
request_failure-empty w shown path r expect h = elim (Bool-cases (is_read_error r.rc)) [
  | inl a ↦
      let h' = rw (request_failure, a) at h in
      let full =
        empty-append path
          (codes ": the file could not be read while uploading (did it change or shrink?)") refl in
      absurd (cc)
  | inr a ↦ elim (Bool-cases (r.overflow || not (is_curl_ok r.rc))) [
    | inl b ↦
        let h' = rw (request_failure, a, b) at h in
        let full = empty-transfer_failure w shown r in absurd (cc)
    | inr b ↦ elim (Bool-cases (r.code == expect)) [
      | inl c ↦ (ground arith, ground arith)
      | inr c ↦
          let h' = rw (request_failure, a, b, c) at h in
          let full = empty-http_failure shown r in absurd (cc)
    ]
  ]
]

-- A reply that request_failure has nothing against: a transfer without errors, and status 200.
pub accepted-ok :
    (w : World) (uri path : Text) (r r' : Reply)
    → accepted w uri path r ≡ ok r'
    → (r' ≡ r) × (r.code ≡ 200) × (is_curl_ok r.rc ≡ true)
unfolding accepted
accepted-ok w uri path r r' h = elim (Bool-cases (is_empty (request_failure w uri path r 200))) [
  | inl e ↦
      let (code, clean) = request_failure-empty w uri path r 200 e in
      (let h' = rw (accepted, e) at h in cc, code, clean)
  | inr e ↦ let h' = rw (accepted, e) at h in absurd (cc)
]

-- An error has text.
abbrev pub Told {ℓ} : {X : Type ℓ} → Result X → Type 0
Told (err e) = is_empty e ≡ false
Told (ok x) = zero ≡ zero

pub Told->>= {ℓ κ} :
    {X : Type ℓ} {Y : Type κ} (r : Result X) (next : X → Result Y)
    → Told r
    → ((x : X) → Told (next x))
    → Told (r >>= next)
Told->>= (err e) next h k = h
Told->>= (ok x) next h k = k x

pub accepted-Told : (w : World) (uri path : Text) (r : Reply) → Told (accepted w uri path r)
unfolding accepted
accepted-Told w uri path r = elim (Bool-cases (is_empty (request_failure w uri path r 200))) [
  | inl q ↦ rw q refl
  | inr q ↦ rw q q
]
