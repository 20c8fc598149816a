-- ===== src/PutFile/Whole/Aborted.antt =====
-- What put_file does about a multipart upload that fails.
use nanos3reader.Prelude.{
  ℕ, ◌≡◌, refl, sym, ap, ◌∙◌, subst, inl, inr, Bool, true, false, not, none, some, List, [], ◌∷◌,
  ◌++◌, arith, ◌==◌, if◌then◌else◌, Bool-cases, Option-cases,
}
use nanos3reader.Text.{Text, codes, is_empty, find}
use nanos3reader.Result.{Result, ok, err, ◌>>=◌, Result-cases}
use nanos3reader.Uri.{Config}
use nanos3reader.Xml.Element.{xml_tag}
use nanos3reader.World.{World}
use nanos3reader.Http.Request.{Reply}
use nanos3reader.Client.Calls.{Client, Done, exchange}
use nanos3reader.PutFile.Source.{FileUploadOptions, Disk, accepted}
use nanos3reader.PutFile.Accepted.{empty-append, Told, Told->>=, accepted-Told}
use nanos3reader.PutFile.Workers.{thread_count, join, start_pool}
use nanos3reader.PutFile.Workers.Sent.{exchange-Told}
use nanos3reader.PutFile.Workers.Invariant.{IsSound}
use nanos3reader.PutFile.Workers.Ends.{join-Reach}
use nanos3reader.PutFile.Workers.Joined.{Reach-joined}
use nanos3reader.PutFile.Whole.{
  Shared, Job, finished, create_call, abort_call, complete_call, id_query_of, join_fuel, new_job,
  started, completed, abort_upload, complete_upload, finish_upload, send_parts, put_multipart,
}
use nanos3reader.PutFile.Whole.Uploaded.{finished-injective}

if_true : {A : Type 0} (b : Bool) → b ≡ true → (x y : A) → (if b then x else y) ≡ x
if_true b h x y = rw h refl

if_false : {A : Type 0} (b : Bool) → b ≡ false → (x y : A) → (if b then x else y) ≡ y
if_false b h x y = rw h refl

told : (e : Text) (b : Bool) → b ≡ true → b ≡ not (is_empty e) → is_empty e ≡ false
told [] b h k = absurd (cc)
told (c ∷ e) b h k = refl

module _ (w : World) where
  open w use {State}

  -- The last request of all was the DELETE of the upload.
  abbrev pub LastWasAbort : Text × Text → Text → Done (Result Text) State → Type 0
  LastWasAbort target id_query d =
      (c : Client) × (s : State) × (d.client
        ≡ (exchange w c (ok (abort_call target id_query)) s).client)
      × (d.state ≡ (exchange w c (ok (abort_call target id_query)) s).state)

  completed-Told : (uri path : Text) (r : Reply) → Told (completed w uri path r)
  unfolding completed
  completed-Told uri path r =
      Told->>= (accepted w uri path r) _ (accepted-Told w uri path r) (λ reply. says reply)
    where
      says :
          (reply : Reply)
          → Told {X = Text} (elim (find (codes "<Error>") reply.text) [
            | none ↦ ok (xml_tag reply.text (codes "ETag"))
            | some at ↦ err (
                uri
                ++ (codes ": completing the multipart upload failed: "
                    ++ (xml_tag reply.text (codes "Code")
                        ++ (codes " " ++ xml_tag reply.text (codes "Message")))))
          ])
      says reply = elim (Option-cases (find (codes "<Error>") reply.text)) [
        | inl e ↦ rw e refl
        | inr (at, e) ↦ rw e (empty-append uri _ refl)
      ]

  complete_upload-aborts :
      (job : Job) (c : Client) (etags : List Text) (s : State) (e : Text)
      → (complete_upload w job c etags s).result ≡ err e
      → LastWasAbort job.target job.id_query (complete_upload w job c etags s)
        × (is_empty e ≡ false)
  unfolding complete_upload abort_upload
  complete_upload-aborts job c etags s e h =
      let d = exchange w c (ok (complete_call job.target job.id_query etags)) s in
      elim (Result-cases (d.result >>= completed w job.uri job.path)) [
        | inl (message, q) ↦
            let h' = rw (complete_upload, q) at h in
            let same : message ≡ e = cc in
            let told =
              Told->>= d.result (completed w job.uri job.path)
                (exchange-Told w job c.cfg c (ok (complete_call job.target job.id_query etags)) s
                  refl refl)
                (completed-Told job.uri job.path) in
            let text : is_empty message ≡ false = subst Told q told in
            rw (complete_upload, q)
              ((d.client, d.state, refl, refl), subst (λ (x : Text). is_empty x ≡ false) same text)
        | inr (tag, q) ↦ let bad = rw (complete_upload, q) at h in absurd (cc)
      ]

  finish_failed :
      (job : Job) (y : Shared State)
      → y.failed ≡ true
      → LastWasAbort job.target job.id_query (finish_upload w job y)
  unfolding finish_upload abort_upload
  finish_failed job y f =
      let abort = exchange w y.client (ok (abort_call job.target job.id_query)) y.state in
      let e : finish_upload w job y
          ≡ record { result = err y.first_error; client = abort.client; state = abort.state } =
        if_true y.failed f _ _ in
      (
        y.client,
        y.state,
        ap (λ (x : Done (Result Text) State). x.client) e,
        ap (λ (x : Done (Result Text) State). x.state) e,
      )

  finish_fine :
      (job : Job) (y : Shared State)
      → y.failed ≡ false
      → finish_upload w job y ≡ complete_upload w job y.client y.part_etags y.state
  unfolding finish_upload
  finish_fine job y f = if_false y.failed f _ _

  first_error-text :
      (job : Job) (cfg : Config) (y : Shared State)
      → IsSound w job cfg y
      → y.failed ≡ true
      → is_empty y.first_error ≡ false
  first_error-text job cfg y v f = told y.first_error y.failed f v.told

  finish_upload-aborts :
      (job : Job) (y : Shared State) (e : Text)
      → (y.failed ≡ true → is_empty y.first_error ≡ false)
      → (finish_upload w job y).result ≡ err e
      → LastWasAbort job.target job.id_query (finish_upload w job y) × (is_empty e ≡ false)
  unfolding finish_upload abort_upload
  finish_upload-aborts job y e told h = elim (Bool-cases y.failed) [
    | inl f ↦
        let h' = rw (finish_upload, f) at h in
        let same : y.first_error ≡ e = cc in
        (finish_failed job y f, subst (λ (x : Text). is_empty x ≡ false) same (told f))
    | inr f ↦
        let (aborts, text) =
          complete_upload-aborts job y.client y.part_etags y.state e (rw (finish_upload, f) at h) in
        (subst (LastWasAbort job.target job.id_query) (sym (finish_fine job y f)) aborts, text)
  ]

  send_parts-aborts :
      (choose : ℕ → ℕ) (disk : Disk State) (job : Job) (c : Client) (s : State)
      (d : Done (Result Text) State) (e : Text)
      → send_parts w choose disk job c s ≡ finished d
      → d.result ≡ err e
      → LastWasAbort job.target job.id_query d × (is_empty e ≡ false)
  unfolding send_parts
  send_parts-aborts choose disk job c s d e h k =
      let threads = thread_count job.options job.parts in
      elim (Bool-cases (threads == 0)) [
        | inl z ↦ let bad = rw (send_parts, z) at h in absurd (cc)
        | inr z ↦
            elim (Option-cases (
              join w job (join_fuel job.parts threads) choose disk
                (start_pool w job threads c s))) [
                  | inl q ↦ let bad = rw (send_parts, z, q) at h in absurd (cc)
                  | inr (p, q) ↦
                      let h' = rw (send_parts, z, q) at h in
                      let same = finished-injective h' in
                      let (reached, done) =
                        join-Reach w job (join_fuel job.parts threads) choose disk
                          (start_pool w job threads c s) p q in
                      let (sound, outcome) =
                        Reach-joined w job disk threads c s p (ground arith) reached done in
                      let told = λ (f : p.shared.failed ≡ true).
                        first_error-text job c.cfg p.shared sound f in
                      let (aborts, text) =
                        finish_upload-aborts job p.shared e told
                          (ap (λ (x : Done (Result Text) State). x.result) same ∙ k) in
                      (subst (LastWasAbort job.target job.id_query) same aborts, text)
                ]
      ]

  -- A multipart upload that was started and then fails, in its parts or in its completion, ends with
  -- the request that aborts it, and with an error that has text. This holds for every order in which
  -- the threads run.
  pub put_multipart-aborts :
      (choose : ℕ → ℕ) (disk : Disk State) (c : Client) (uri path : Text) (target : Text × Text)
      (options : FileUploadOptions) (size : ℕ) (s : State) (upload_id : Text)
      (d : Done (Result Text) State) (e : Text)
      → ((exchange w c (ok (create_call target options)) s).result >>= started w uri path)
        ≡ ok upload_id
      → put_multipart w choose disk c uri path target options size s ≡ finished d
      → d.result ≡ err e
      → LastWasAbort target (id_query_of upload_id) d × (is_empty e ≡ false)
  unfolding put_multipart
  put_multipart-aborts choose disk c uri path target options size s upload_id d e id h k =
      let made = exchange w c (ok (create_call target options)) s in
      send_parts-aborts choose disk (new_job uri path target options size upload_id) made.client
        made.state d e (rw (put_multipart, id) at h) k
