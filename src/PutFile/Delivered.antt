-- ===== src/PutFile/Delivered.antt =====
-- What the servers have been sent when a request with a body is answered by 200.
use nanos3reader.Prelude.{
  ℕ, ◌≡◌, refl, sym, ap, ◌∙◌, true, some, [], arith, length, take, take-take,
}
use nanos3reader.Text.{Text}
use nanos3reader.Uri.{Config}
use nanos3reader.World.{World, Credentials}
use nanos3reader.Http.Wire.{Request, Transfer, is_curl_ok}
use nanos3reader.Http.Sink.{capture_etags}
use nanos3reader.Http.Upload.{Source, new_upload, upload_all}
use nanos3reader.Http.Upload.Body.{body_of, base_of, upload_all-body}
use nanos3reader.Http.Request.{Call, is_put, has_body, signed_request, send_body, receive, attempt}
use nanos3reader.Client.Put.Sent.{SendsWhole, fine_transfer}

module _ (w : World) (cfg : Config) where
  open w use {State, respond}

  -- The transfer of a request for the call that carried the body and was answered by 200.
  pub record Answered (call : Call) (body : Text) (t : Transfer) : Type 0 where
    pub cred : Credentials
    pub at : State
    pub transfer : t ≡ (respond (signed_request w cfg cred call at) body at).0
    pub status : t.code ≡ 200
    pub clean : is_curl_ok t.rc ≡ true

  sent_whole :
      (call : Call) (src : Source) (req : Request) (s : State)
      → call.source ≡ some src
      → has_body call ≡ true
      → length (send_body w req call s).1 ≡ call.body_len
      → (send_body w req call s).1 ≡ body_of src call.body_len
  unfolding send_body
  sent_whole call src req s from body whole =
      let (front, full, short) = upload_all-body src call.body_len (w.read_rooms req s) in
      let same : (send_body w req call s).1
          ≡ (upload_all (new_upload src call.body_len) (w.read_rooms req s)).1 =
        rw (send_body, body, from) refl in
      same
      ∙ front
      ∙ ap (λ (n : ℕ). take n (body_of src call.body_len)) (ap length (sym same) ∙ whole)
      ∙ take-take call.body_len call.body_len (base_of src) (omega arith)

  announces :
      (call : Call) (cred : Credentials) (at : State)
      → has_body call ≡ true
      → (signed_request w cfg cred call at).body_len ≡ some call.body_len
  unfolding signed_request
  announces call cred at body = rw body refl

  pub attempt-Answered :
      (call : Call) (src : Source) (cred : Credentials) (at : State)
      → SendsWhole w
      → call.source ≡ some src
      → has_body call ≡ true
      → (attempt w cfg cred call at).0.0.code ≡ 200
      → is_curl_ok (attempt w cfg cred call at).0.0.rc ≡ true
      → (t : Transfer) × Answered call (body_of src call.body_len) t
        × (is_put call ≡ true
            → (attempt w cfg cred call at).0.0.etag ≡ capture_etags [] t.reply_headers)
  unfolding attempt SendsWhole
  attempt-Answered call src cred at whole from body code clean =
      let req = signed_request w cfg cred call at in
      let (u, sent) = send_body w req call at in
      let done =
        fine_transfer w u.failed (receive w u.failed call (respond req sent at).0).1
          (respond req sent at).0.rc clean in
      let e : sent ≡ body_of src call.body_len =
        sent_whole call src req at from body
          (whole req sent at call.body_len (announces call cred at body) done) in
      let same = ap (λ (x : Text). (respond req x at).0) e in
      (
        (respond req (body_of src call.body_len) at).0,
        record {
          cred = cred;
          at = at;
          transfer = refl;
          status = ap (λ (x : Transfer). x.code) (sym same) ∙ code;
          clean = ap (λ (x : Transfer). is_curl_ok x.rc) (sym same) ∙ done;
        },
        (λ p. rw p (ap (λ (x : Transfer). capture_etags [] x.reply_headers) same)),
      )
