-- ===== src/PutFile/Whole/Completed.antt =====
-- What the servers have been sent when put_file succeeds.
use mathlib.Core.List.{flatten}
use nanos3reader.Prelude.{
  ℕ, ◌^◌, ◌<◌, ◌≡◌, refl, sym, ap, ◌∙◌, subst, inl, inr, true, none, some, List, [], arith,
  Option-cases, length, get_elem?, take-all,
}
use nanos3reader.Text.{Text, codes, find, text_eq}
use nanos3reader.Result.{ok, ◌>>=◌, Result-cases, >>=-eq-ok}
use nanos3reader.Uri.{Config}
use nanos3reader.Xml.Element.{xml_tag}
use nanos3reader.World.{World, Credentials}
use nanos3reader.Http.Wire.{Transfer, is_curl_ok}
use nanos3reader.Http.Sink.{capture_etags}
use nanos3reader.Http.Upload.{file, memory}
use nanos3reader.Http.Upload.Body.{body_of, base_of}
use nanos3reader.Http.Request.{Call, Reply, attempt}
use nanos3reader.Client.Calls.{Client, exchange}
use nanos3reader.Client.Put.Sent.{SendsWhole}
use nanos3reader.Client.Replies.{exchange-ok}
use nanos3reader.Multipart.{part_offset, part_len, part_call, complete_body}
use nanos3reader.Multipart.Parts.{part_body, part_size_for_lem, parts_from, parts_from-file}
use nanos3reader.PutFile.Source.{
  Disk, FileUploadOptions, accepted, body_hash, single_call, put_single,
}
use nanos3reader.PutFile.Accepted.{accepted-ok}
use nanos3reader.PutFile.Delivered.{Answered, attempt-Answered}
use nanos3reader.PutFile.Workers.{behind}
use nanos3reader.PutFile.Workers.Sent.{Sent}
use nanos3reader.PutFile.Workers.Invariant.{IsSound, Slot}
use nanos3reader.PutFile.Whole.{
  Job, Shared, complete_call, new_job, completed, abort_upload, complete_upload,
}
use nanos3reader.PutFile.Whole.Ends.{part_size_for-bound}

module _ (w : World) (cfg : Config) (target : Text × Text) (options : FileUploadOptions)
    (contents : Text) where
  open w use {State}

  -- One PUT carried the file.
  pub record InOne (etag : Text) : Type 0 where
    pub hash : Text
    pub transfer : Transfer
    pub answered :
        Answered w cfg
          (single_call w target options contents (length contents) hash)
          contents
          transfer
    pub tag : etag ≡ capture_etags [] transfer.reply_headers

  -- A PUT carried the part `k`, and its answer had this ETag.
  pub record PartSent (id_query : Text) (part_size k : ℕ) (tag : Text) : Type 0 where
    pub hash : Text
    pub transfer : Transfer
    pub answered :
        Answered w cfg
          (part_call target id_query contents (length contents) part_size k hash)
          (part_body contents part_size k)
          transfer
    pub same : tag ≡ capture_etags [] transfer.reply_headers

  -- The parts, which make up the file, were sent, and then the request that completes the upload
  -- carried the list of their ETags; its answer was 200 and no <Error>.
  pub record InParts (etag : Text) : Type 0 where
    pub id_query : Text
    pub part_size : ℕ
    pub parts : ℕ
    pub tags : List Text
    pub count : length tags ≡ parts
    pub whole : flatten (parts_from contents part_size 0 parts) ≡ contents
    pub sent :
        (k : ℕ)
        → k < parts
        → (tag : Text) × (get_elem? tags k ≡ some tag) × PartSent id_query part_size k tag
    pub transfer : Transfer
    pub answered : Answered w cfg (complete_call target id_query tags) (complete_body tags) transfer
    pub cred : Credentials
    pub at : State
    pub no_error :
        find (codes "<Error>") (attempt w cfg cred (complete_call target id_query tags) at).0.0.text
        ≡ none
    pub tag :
        etag
        ≡ xml_tag
            (attempt w cfg cred (complete_call target id_query tags) at).0.0.text
            (codes "ETag")

  module _ (uri path : Text) (whole : SendsWhole w)
      (fixed_file : (s : State) → w.read_file path s ≡ some contents) where
    abbrev job_of : Text → Job
    job_of upload_id = new_job uri path target options (length contents) upload_id

    -- A part's ETag stands for a part that was sent.
    Sent-PartSent :
        (upload_id : Text) (k : ℕ) (tag : Text)
        → Sent w (job_of upload_id) cfg k tag
        → PartSent (job_of upload_id).id_query (job_of upload_id).part_size k tag
    unfolding part_call text_eq
    Sent-PartSent upload_id k tag sent =
        let job = job_of upload_id in
        let same : sent.bytes ≡ contents =
          let e = sym sent.opened ∙ fixed_file sent.opened_at in cc in
        let call = part_call target job.id_query sent.bytes job.size job.part_size k sent.hash in
        let (t, answered, tagged) =
          attempt-Answered w cfg call (file sent.bytes (part_offset job.part_size k)) sent.cred
            sent.at whole refl refl sent.status sent.clean in
        record {
          hash = sent.hash;
          transfer = t;
          answered =
              subst
                (λ (x : Text).
                  Answered w cfg
                    (part_call target job.id_query x job.size job.part_size k sent.hash)
                    (body_of (file x (part_offset job.part_size k))
                      (part_len job.size job.part_size k))
                    t)
                same answered;
          same = sent.tag ∙ tagged refl;
        }

    completed-ok :
        (r : Reply) (etag : Text)
        → completed w uri path r ≡ ok etag
        → (r.code ≡ 200)
          × (is_curl_ok r.rc ≡ true)
          × (find (codes "<Error>") r.text ≡ none)
          × (etag ≡ xml_tag r.text (codes "ETag"))
    unfolding completed
    completed-ok r etag h =
        let (reply, q, rest) = >>=-eq-ok (accepted w uri path r) _ h in
        let (same, code, clean) = accepted-ok w uri path r reply q in
        elim (Option-cases (find (codes "<Error>") reply.text)) [
          | inl e ↦
              let tag = rw e at rest in
              let tagged : xml_tag reply.text (codes "ETag") ≡ etag = cc in
              (
                code,
                clean,
                ap (λ (x : Reply). find (codes "<Error>") x.text) (sym same) ∙ e,
                sym tagged ∙ ap (λ (x : Reply). xml_tag x.text (codes "ETag")) same,
              )
          | inr (at, e) ↦ let bad = rw e at rest in absurd (cc)
        ]

    single-Answered :
        (hash : Text) (cred : Credentials) (at : State) (etag : Text)
        → let r =
            (attempt w cfg cred
              (single_call w target options contents (length contents) hash)
              at).0.0 in
          r.code ≡ 200 → is_curl_ok r.rc ≡ true → etag ≡ r.etag → InOne etag
    unfolding single_call text_eq base_of
    single-Answered hash cred at etag code clean tag =
        let call = single_call w target options contents (length contents) hash in
        let (t, answered, tagged) =
          attempt-Answered w cfg call (file contents 0) cred at whole refl refl code clean in
        record {
          hash = hash;
          transfer = t;
          answered =
              subst (λ (x : Text). Answered w cfg call x t)
                (take-all (length contents) contents (omega arith)) answered;
          tag = tag ∙ tagged refl;
        }

    pub single-InOne :
        (disk : Disk State) (c : Client) (s : State) (etag : Text)
        → c.cfg ≡ cfg
        → (put_single w disk c uri path target options (length contents) s).result ≡ ok etag
        → InOne etag
    unfolding put_single
    single-InOne disk c s etag same h =
        let h' = rw (put_single, fixed_file s) at h in
        let build =
          λ (hash : Text). ok (single_call w target options contents (length contents) hash) in
        let call = body_hash w options path contents 0 (length contents) >>= build in
        let (r, reply, rest) =
          >>=-eq-ok (exchange w c call s).result
            (λ r. accepted w uri path r >>= λ done. ok done.etag) h' in
        let (r', q, tagged) = >>=-eq-ok (accepted w uri path r) (λ done. ok done.etag) rest in
        let (as_was, code, clean) = accepted-ok w uri path r r' q in
        let (made, called, cred, at, from) = exchange-ok w c call s r reply in
        let (hash, hashed, built) =
          >>=-eq-ok (body_hash w options path contents 0 (length contents)) build called in
        let is_call : single_call w target options contents (length contents) hash ≡ made = cc in
        let from' : r
            ≡ (attempt w cfg cred (single_call w target options contents (length contents) hash)
                at).0.0 =
          from
          ∙ ap (λ (k : Config). (attempt w k cred made at).0.0) same
          ∙ ap (λ (k : Call). (attempt w cfg cred k at).0.0) (sym is_call) in
        single-Answered hash cred at etag (ap (λ (x : Reply). x.code) (sym from') ∙ code)
          (ap (λ (x : Reply). is_curl_ok x.rc) (sym from') ∙ clean)
          (let e : r'.etag ≡ etag = cc in sym e ∙ ap (λ (x : Reply). x.etag) (as_was ∙ from'))

    complete_call-Answered :
        (upload_id : Text) (c : Client) (etags : List Text) (s : State) (etag : Text)
        → c.cfg ≡ cfg
        → (complete_upload w (job_of upload_id) c etags s).result ≡ ok etag
        → let call = complete_call target (job_of upload_id).id_query etags in
          (cred : Credentials) × (at : State) × (t : Transfer) × Answered w cfg call
            (complete_body etags)
            t
          × (find (codes "<Error>") (attempt w cfg cred call at).0.0.text ≡ none)
          × (etag ≡ xml_tag (attempt w cfg cred call at).0.0.text (codes "ETag"))
    unfolding complete_upload abort_upload complete_call text_eq base_of
    complete_call-Answered upload_id c etags s etag same h =
        let call = complete_call target (job_of upload_id).id_query etags in
        let d = exchange w c (ok call) s in
        elim (Result-cases (d.result >>= completed w uri path)) [
          | inl (e, q) ↦ let bad = rw (complete_upload, q) at h in absurd (cc)
          | inr (tag, q) ↦
              let h' = rw (complete_upload, q) at h in
              let (r, reply, done) = >>=-eq-ok d.result (completed w uri path) q in
              let (code, clean, fine, tagged) = completed-ok r tag done in
              let (made, called, cred, at, from) = exchange-ok w c (ok call) s r reply in
              let is_call : call ≡ made = cc in
              let from' : r ≡ (attempt w cfg cred call at).0.0 =
                from
                ∙ ap (λ (k : Config). (attempt w k cred made at).0.0) same
                ∙ ap (λ (k : Call). (attempt w cfg cred k at).0.0) (sym is_call) in
              let (t, answered, put_tag) =
                attempt-Answered w cfg call (memory (complete_body etags)) cred at whole refl refl
                  (ap (λ (x : Reply). x.code) (sym from') ∙ code)
                  (ap (λ (x : Reply). is_curl_ok x.rc) (sym from') ∙ clean) in
              (
                cred,
                at,
                t,
                subst (λ (x : Text). Answered w cfg call x t)
                    (take-all (length (complete_body etags)) (complete_body etags) (omega arith))
                    answered,
                ap (λ (x : Reply). find (codes "<Error>") x.text) (sym from') ∙ fine,
                (let e : tag ≡ etag = cc in
                    sym e ∙ tagged ∙ ap (λ (x : Reply). xml_tag x.text (codes "ETag")) from'),
              )
        ]

    -- Behind the threads of an upload that succeeded.
    pub joined-InParts :
        (upload_id : Text) (y : Shared State) (etag : Text)
        → 0 < length contents
        → length contents < 2 ^ 63
        → options.part_size < 2 ^ 63
        → IsSound w (job_of upload_id) cfg y
        → ((k : ℕ) → k < (job_of upload_id).parts → Slot w (job_of upload_id) cfg k y)
        → (complete_upload w (job_of upload_id) y.client y.part_etags y.state).result ≡ ok etag
        → InParts etag
    joined-InParts upload_id y etag some_byte small fits v slots h =
        let job = job_of upload_id in
        let (cred, at, t, answered, no_error, tag) =
          complete_call-Answered upload_id y.client y.part_etags y.state etag v.same h in
        record {
          id_query = job.id_query;
          part_size = job.part_size;
          parts = job.parts;
          tags = y.part_etags;
          count = v.places;
          whole =
              parts_from-file contents job.part_size
                (let (least, asked, few) =
                    part_size_for_lem (length contents) options.part_size small in
                  omega arith)
                some_byte (part_size_for-bound (length contents) options.part_size small fits);
          sent = λ k l.
              let (tag, place, behind) = slots k l in
              (tag, place, Sent-PartSent upload_id k tag behind);
          transfer = t;
          answered = answered;
          cred = cred;
          at = at;
          no_error = no_error;
          tag = tag;
        }
