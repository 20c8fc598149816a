-- ===== src/PutFile/Whole/Uploaded.antt =====
-- put_file's success: the servers have the file.
use nanos3reader.Prelude.{
  ℕ, ◌^◌, ◌<◌, ◌≡◌, refl, sym, ap, ◌∙◌, subst, ◌⊎◌, inl, inr, true, some, arith, ltb, ◌==◌,
  Bool-cases, Option-cases, length,
}
use nanos3reader.Text.{Text}
use nanos3reader.Result.{Result, ok, ◌>>=◌, Result-cases, >>=-eq-ok}
use nanos3reader.Uri.{Config, split_s3_uri}
use nanos3reader.World.{World}
use nanos3reader.Client.Calls.{Client, Done, check_target, exchange}
use nanos3reader.Client.Put.Sent.{SendsWhole}
use nanos3reader.Client.Replies.{check_target_unique, exchange-cfg}
use nanos3reader.PutFile.Source.{FileUploadOptions, Disk, threshold_of, check_file}
use nanos3reader.PutFile.Workers.{Pool, thread_count, join, start_pool}
use nanos3reader.PutFile.Workers.Ends.{join-Reach}
use nanos3reader.PutFile.Workers.Joined.{Reach-joined}
use nanos3reader.PutFile.Whole.{
  length_error, cut_off, Run, finished, create_call, join_fuel, new_job, started, abort_upload,
  finish_upload, send_parts, put_multipart, check_put_file, put_file,
}
use nanos3reader.PutFile.Whole.Ends.{check_put_file-size}
use nanos3reader.PutFile.Whole.Completed.{InOne, InParts, single-InOne, joined-InParts}

ok-injective : {A : Type 0} {x y : A} → ok x ≡ ok y → x ≡ y
ok-injective h = cc

-- The outcomes of a run; one that finished did so with one outcome.
pub Run-cases :
    {A : Type 0} (r : Run A) → ((x : A) × (r ≡ finished x)) ⊎ ((r ≡ length_error) ⊎ (r ≡ cut_off))
Run-cases (finished x) = inl (x, refl)
Run-cases length_error = inr (inl refl)
Run-cases cut_off = inr (inr refl)

pub finished-injective : {A : Type 0} {x y : A} → finished x ≡ finished y → x ≡ y
finished-injective h = cc

module _ (w : World) (choose : ℕ → ℕ) (disk : Disk w.State) (target : Text × Text)
    (options : FileUploadOptions) (contents uri path : Text) (whole : SendsWhole w)
    (fixed_file : (s : w.State) → w.read_file path s ≡ some contents)
    (small : length contents < 2 ^ 63) (fits : options.part_size < 2 ^ 63) where
  open w use {State}

  finish-InParts :
      (upload_id : Text) (c : Client) (s : State)
      (p : Pool w (new_job uri path target options (length contents) upload_id)) (etag : Text)
      → 0 < length contents
      → 0 < thread_count options (new_job uri path target options (length contents) upload_id).parts
      → let job = new_job uri path target options (length contents) upload_id in
        let threads = thread_count options job.parts in
        join w job (join_fuel job.parts threads) choose disk (start_pool w job threads c s) ≡ some p
        → (finish_upload w job p.shared).result ≡ ok etag
        → InParts w c.cfg target options contents etag
  unfolding finish_upload abort_upload
  finish-InParts upload_id c s p etag some_byte some_thread joined h =
      let job = new_job uri path target options (length contents) upload_id in
      let threads = thread_count options job.parts in
      let (reached, done) =
        join-Reach w job (join_fuel job.parts threads) choose disk (start_pool w job threads c s) p
          joined in
      let (sound, outcome) = Reach-joined w job disk threads c s p some_thread reached done in
      elim outcome [
        | inl (f, text) ↦ let bad = rw (finish_upload, f) at h in absurd (cc)
        | inr (f, slots) ↦
            joined-InParts w c.cfg target options contents uri path whole fixed_file upload_id
              p.shared etag some_byte small fits sound slots (rw (finish_upload, f) at h)
      ]

  send_parts-InParts :
      (upload_id : Text) (c : Client) (s : State) (d : Done (Result Text) State) (etag : Text)
      → 0 < length contents
      → send_parts w choose disk (new_job uri path target options (length contents) upload_id) c s
        ≡ finished d
      → d.result ≡ ok etag
      → InParts w c.cfg target options contents etag
  unfolding send_parts
  send_parts-InParts upload_id c s d etag some_byte h k =
      let job = new_job uri path target options (length contents) upload_id in
      let threads = thread_count options job.parts in
      elim (Bool-cases (threads == 0)) [
        | inl e ↦ let bad = rw (send_parts, e) at h in absurd (cc)
        | inr e ↦
            elim (Option-cases (
              join w job (join_fuel job.parts threads) choose disk
                (start_pool w job threads c s))) [
                  | inl q ↦ let bad = rw (send_parts, e, q) at h in absurd (cc)
                  | inr (p, q) ↦
                      let h' = rw (send_parts, e, q) at h in
                      let same = finished-injective h' in
                      finish-InParts upload_id c s p etag some_byte (ground arith) q
                        (ap (λ (x : Done (Result Text) State). x.result) same ∙ k)
                ]
      ]

  put_multipart-InParts :
      (c : Client) (s : State) (d : Done (Result Text) State) (etag : Text)
      → 0 < length contents
      → put_multipart w choose disk c uri path target options (length contents) s ≡ finished d
      → d.result ≡ ok etag
      → InParts w c.cfg target options contents etag
  unfolding put_multipart
  put_multipart-InParts c s d etag some_byte h k =
      let e = exchange w c (ok (create_call target options)) s in
      elim (Result-cases (e.result >>= started w uri path)) [
        | inl (message, q) ↦
            let h' = rw (put_multipart, q) at h in
            let same = finished-injective h' in
            let bad = ap (λ (x : Done (Result Text) State). x.result) same ∙ k in absurd (cc)
        | inr (upload_id, q) ↦
            subst (λ (x : Config). InParts w x target options contents etag)
              (exchange-cfg w c (ok (create_call target options)) s)
              (send_parts-InParts upload_id e.client e.state d etag some_byte
                (rw (put_multipart, q) at h) k)
      ]

  check_put_file-checked :
      (c : Client) (s : State) (checked : (Text × Text) × ℕ)
      → split_s3_uri uri true ≡ ok target
      → disk.file_size path s ≡ ok (length contents)
      → check_put_file w disk c uri path options s ≡ ok checked
      → checked ≡ (target, length contents)
  unfolding check_put_file
  check_put_file-checked c s checked split size h =
      let (t, q, rest) =
        >>=-eq-ok (check_target c uri true)
          (λ target. check_file disk uri path options s >>= λ size. ok (target, size)) h in
      let (n, q', last) =
        >>=-eq-ok (check_file disk uri path options s) (λ size. ok (t, size)) rest in
      let there : target ≡ t = check_target_unique c uri true target t split q in
      let sizes = sym size ∙ check_put_file-size w disk c uri path options s checked h in
      let last_size : length contents ≡ checked.1 = cc in
      let first = ap (λ (x : (Text × Text) × ℕ). x.0) (sym (ok-injective last)) ∙ sym there in
      let second = sym last_size in λ i. (first i, second i)

  -- A put_file that succeeds, in whatever order its threads run, has had the file's bytes delivered: by
  -- one PUT that carried all of them, or by PUTs that carried parts which make up the file, and a last
  -- request that listed the ETags of the parts' answers in order and was answered without an error.
  -- The result is the ETag of that PUT's answer, or of the last one's. The file must not change, must
  -- be smaller than 2^63 bytes, and so must be the requested part size; and libcurl must end without
  -- an error only when an announced body has gone out whole.
  pub put_file-uploaded :
      (c : Client) (s : State) (d : Done (Result Text) State) (etag : Text)
      → split_s3_uri uri true ≡ ok target
      → disk.file_size path s ≡ ok (length contents)
      → put_file w choose disk c uri path options s ≡ finished d
      → d.result ≡ ok etag
      → InOne w c.cfg target options contents etag ⊎ InParts w c.cfg target options contents etag
  unfolding put_file
  put_file-uploaded c s d etag split size h k =
      elim (Result-cases (check_put_file w disk c uri path options s)) [
        | inl (e, q) ↦
            let h' = rw (put_file, q) at h in
            let same = finished-injective h' in
            let bad = ap (λ (x : Done (Result Text) State). x.result) same ∙ k in absurd (cc)
        | inr (checked, q) ↦
            let q' = q ∙ ap ok (check_put_file-checked c s checked split size q) in
            elim (Bool-cases (ltb (length contents) (threshold_of options))) [
              | inl e ↦
                  let h' = rw (put_file, q', e) at h in
                  let same = finished-injective h' in
                  inl (
                    single-InOne w c.cfg target options contents uri path whole fixed_file disk c s
                      etag refl (ap (λ (x : Done (Result Text) State). x.result) same ∙ k))
              | inr e ↦
                  inr
                    (put_multipart-InParts c s d etag (ground arith) (rw (put_file, q', e) at h) k)
            ]
      ]
