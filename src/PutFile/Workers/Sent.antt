-- ===== src/PutFile/Workers/Sent.antt =====
-- What stands behind an ETag that a thread keeps: the request that sent the part.
use nanos3reader.FileHash.Range.{evp}
use nanos3reader.FileHash.{sha256_file_hex}
use nanos3reader.Http.Retry.{keys_missing, request_keys, Keys, run_request}
use nanos3reader.Prelude.{
  ℕ, ◌≡◌, sym, ap, ◌∙◌, inl, inr, true, some, Bool-cases, refl, subst, Option-cases,
}
use nanos3reader.Text.{Text, is_empty}
use nanos3reader.Result.{ok, ◌>>=◌, >>=-eq-ok, Result-cases}
use nanos3reader.Uri.{Config}
use nanos3reader.World.{World, Credentials}
use nanos3reader.Http.Wire.{is_curl_ok}
use nanos3reader.Http.Request.{Call, Reply, attempt}
use nanos3reader.Client.Calls.{Client, exchange}
use nanos3reader.Client.Replies.{exchange-ok}
use nanos3reader.Multipart.{part_call, part_offset, part_len}
use nanos3reader.PutFile.Source.{accepted, body_hash}
use nanos3reader.PutFile.Accepted.{empty-append, Told->>=, Told, accepted-ok}
use nanos3reader.PutFile.Workers.{of_parts, Result, err, Job, part_etag, part_request}

module _ (w : World) (job : Job) (cfg : Config) where
  open w use {State, read_file}
  open job use {uri, path, target, options, id_query, size, part_size, parts}

  -- A request that sent the part `i` out of the opened file and was answered with this ETag.
  pub record Sent (i : ℕ) (etag : Text) : Type 0 where
    pub bytes : Text
    pub hash : Text
    pub cred : Credentials
    pub opened_at : State
    pub at : State
    pub opened : read_file path opened_at ≡ some bytes
    pub hashed :
        body_hash w options path bytes (part_offset part_size i) (part_len size part_size i)
        ≡ ok hash
    pub status :
        (attempt w cfg cred (part_call target id_query bytes size part_size i hash) at).0.0.code
        ≡ 200
    pub clean :
        is_curl_ok
          (attempt w cfg cred (part_call target id_query bytes size part_size i hash) at).0.0.rc
        ≡ true
    pub tag :
        etag
        ≡ (attempt w cfg cred (part_call target id_query bytes size part_size i hash) at).0.0.etag

  part_etag-ok :
      (i : ℕ) (r : Reply) (etag : Text)
      → part_etag w job i r ≡ ok etag
      → (etag ≡ r.etag) × (r.code ≡ 200) × (is_curl_ok r.rc ≡ true)
  unfolding part_etag
  part_etag-ok i r etag h = elim (Result-cases (accepted w uri path r)) [
    | inl (e, q) ↦ let h' = rw (part_etag, q) at h in absurd (cc)
    | inr (r', q) ↦
        let (same, code, clean) = accepted-ok w uri path r r' q in
        elim (Bool-cases (is_empty r'.etag)) [
          | inl t ↦ let h' = rw (part_etag, q, t) at h in absurd (cc)
          | inr t ↦
              let h' = rw (part_etag, q, t) at h in
              (let e : etag ≡ r'.etag = cc in e ∙ ap (λ (x : Reply). x.etag) same, code, clean)
        ]
  ]

  pub exchange-Sent :
      (c : Client) (s opened_at : State) (bytes etag : Text) (i : ℕ)
      → c.cfg ≡ cfg
      → read_file path opened_at ≡ some bytes
      → ((exchange w c (part_request w job bytes i) s).result >>= part_etag w job i) ≡ ok etag
      → Sent i etag
  unfolding part_request
  exchange-Sent c s opened_at bytes etag i same opened h =
      let (r, reply, tagged) =
        >>=-eq-ok (exchange w c (part_request w job bytes i) s).result (part_etag w job i) h in
      let (made, called, cred, at, from) = exchange-ok w c (part_request w job bytes i) s r reply in
      let (hash, hashed, built) =
        >>=-eq-ok
          (body_hash w options path bytes (part_offset part_size i) (part_len size part_size i))
          (λ hash. ok (part_call target id_query bytes size part_size i hash)) called in
      let (same_tag, code, clean) = part_etag-ok i r etag tagged in
      let call : part_call target id_query bytes size part_size i hash ≡ made = cc in
      let whole : r
          ≡ (attempt w cfg cred (part_call target id_query bytes size part_size i hash) at).0.0 =
        from
        ∙ ap (λ (k : Config). (attempt w k cred made at).0.0) same
        ∙ ap (λ (k : Call). (attempt w cfg cred k at).0.0) (sym call) in
      record {
        bytes = bytes;
        hash = hash;
        cred = cred;
        opened_at = opened_at;
        at = at;
        opened = opened;
        hashed = hashed;
        status = ap (λ (x : Reply). x.code) (sym whole) ∙ code;
        clean = ap (λ (x : Reply). is_curl_ok x.rc) (sym whole) ∙ clean;
        tag = same_tag ∙ ap (λ (x : Reply). x.etag) whole;
      }

  -- The errors of run_request and of a part's request have text.
  pub run_request-Told : (k : Keys) (call : Call) (s : State) → Told (run_request w cfg k call s).0
  unfolding run_request
  run_request-Told k call s =
      let keys' = (request_keys w k s).1 in
      let s' = (request_keys w k s).2 in
      elim (Bool-cases (keys_missing w keys' (request_keys w k s).0)) [
        | inl q ↦ rw (run_request, q) refl
        | inr q ↦ elim (Bool-cases (w.handle_ok s')) [
          | inl r ↦ rw (run_request, q, r) refl
          | inr r ↦ rw (run_request, q, r) refl
        ]
      ]

  part_request-Told : (bytes : Text) (i : ℕ) → Told (part_request w job bytes i)
  unfolding part_request body_hash
  part_request-Told bytes i = elim (Bool-cases options.sign_payload) [
    | inl q ↦
        elim (Option-cases (
          sha256_file_hex (evp w.sha256_raw) bytes (part_offset part_size i)
            (part_len size part_size i))) [
              | inl e ↦ rw (q, e) (empty-append path _ refl)
              | inr (hash, e) ↦ rw (q, e) refl
            ]
    | inr q ↦ rw q refl
  ]

  part_etag-Told : (i : ℕ) (r : Reply) → Told (part_etag w job i r)
  unfolding part_etag
  part_etag-Told i r = elim (Result-cases (accepted w uri path r)) [
    | inl (e, q) ↦ rw (part_etag, q) (empty-append e (of_parts i parts) refl)
    | inr (r', q) ↦ elim (Bool-cases (is_empty r'.etag)) [
      | inl t ↦ rw (part_etag, q, t) (empty-append _ (of_parts i parts) refl)
      | inr t ↦ rw (part_etag, q, t) refl
    ]
  ]

  pub exchange-Told :
      (c : Client) (call : Result Call) (s : State)
      → c.cfg ≡ cfg
      → Told call
      → Told (exchange w c call s).result
  unfolding exchange
  exchange-Told c (err e) s same h = h
  exchange-Told c (ok call) s same h =
      subst (λ (x : Config). Told (run_request w x c.keys call s).0) (sym same)
        (run_request-Told c.keys call s)

  pub part-Told :
      (c : Client) (s : State) (bytes : Text) (i : ℕ)
      → c.cfg ≡ cfg
      → Told ((exchange w c (part_request w job bytes i) s).result >>= part_etag w job i)
  part-Told c s bytes i same =
      Told->>= (exchange w c (part_request w job bytes i) s).result (part_etag w job i)
        (exchange-Told c (part_request w job bytes i) s same (part_request-Told bytes i))
        (part_etag-Told i)
