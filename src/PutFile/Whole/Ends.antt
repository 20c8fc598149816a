-- ===== src/PutFile/Whole/Ends.antt =====
-- put_file returns, whatever the servers answer and in whatever order its threads run.
use nanos3reader.Prelude.{
  ℕ, ◌+◌, ◌-◌, ◌/◌, ◌^◌, ◌≤◌, ◌<◌, max, ◌≡◌, refl, ap, ◌∙◌, inl, inr, true, false, arith, ltb, ◌==◌,
  Bool-cases,
}
use nanos3reader.Text.{Text, no_line_break}
use nanos3reader.Result.{Result, ok, err, ◌>>=◌, Result-cases, >>=-eq-ok}
use nanos3reader.World.{World}
use nanos3reader.Client.Calls.{Client, Done, check_target, exchange}
use nanos3reader.Multipart.{min_part_size, max_parts, word64, part_size_for, part_count}
use nanos3reader.Multipart.Parts.{part_size_for_lem, part_count_lem}
use nanos3reader.PutFile.Source.{FileUploadOptions, Disk, threshold_of, check_file, put_single}
use nanos3reader.PutFile.Workers.{thread_count, start_pool}
use nanos3reader.PutFile.Workers.Ends.{join-ends, start_measure}
use nanos3reader.PutFile.Whole.{
  Job, finished, create_call, started, finish_upload, join_fuel, send_parts, new_job, put_multipart,
  check_put_file, put_file,
}

-- The part sizes that part_size_for gives for sizes and requests under 2^63 stay under 2^63 too.
pub part_size_for-bound :
    (size requested : ℕ)
    → size < 2 ^ 63
    → requested < 2 ^ 63
    → size + part_size_for size requested ≤ 2 ^ 64
unfolding part_size_for
part_size_for-bound size requested h k =
    elim (Bool-cases
      (ltb (max requested min_part_size) (word64 (size + (max_parts - 1)) / max_parts))) [
        | inl e ↦ ground arith
        | inr e ↦ ground arith
      ]

some_part :
    (size requested : ℕ)
    → 0 < size
    → size < 2 ^ 63
    → requested < 2 ^ 63
    → 0 < part_count size (part_size_for size requested)
some_part size requested some_size h k =
    let (least, asked, few) = part_size_for_lem size requested h in
    let (cover, within) =
      part_count_lem size (part_size_for size requested) (omega arith) some_size
        (part_size_for-bound size requested h k) in
    grind arith

check_file-size :
    {S : Type 0}
    → (disk : Disk S) (uri path : Text) (options : FileUploadOptions) (s : S) (size : ℕ)
    → check_file disk uri path options s ≡ ok size
    → disk.file_size path s ≡ ok size
unfolding check_file
check_file-size disk uri path options s size h =
    elim (Bool-cases (no_line_break options.content_type)) [
      | inl a ↦ elim (Bool-cases (disk.is_regular path s)) [
        | inl b ↦ elim (Result-cases (disk.file_size path s)) [
          | inl (e, q) ↦ let h' = rw (check_file, a, b, q) at h in absurd (cc)
          | inr (n, q) ↦ let h' = rw (check_file, a, b, q) at h in q ∙ h'
        ]
        | inr b ↦ let h' = rw (check_file, a, b) at h in absurd (cc)
      ]
      | inr a ↦ let h' = rw (check_file, a) at h in absurd (cc)
    ]

-- What put_file goes on with has the size that the file system gave.
pub check_put_file-size :
    (w : World) (disk : Disk w.State) (c : Client) (uri path : Text) (options : FileUploadOptions)
    (s : w.State) (checked : (Text × Text) × ℕ)
    → check_put_file w disk c uri path options s ≡ ok checked
    → disk.file_size path s ≡ ok checked.1
unfolding check_put_file
check_put_file-size w disk c uri path options s checked h =
    let (target, q, rest) =
      >>=-eq-ok (check_target c uri true)
        (λ target. check_file disk uri path options s >>= λ size. ok (target, size)) h in
    let (size, q', last) =
      >>=-eq-ok (check_file disk uri path options s) (λ size. ok (target, size)) rest in
    let same : size ≡ checked.1 = cc in
    check_file-size disk uri path options s checked.1 (q' ∙ ap ok same)

module _ (w : World) (choose : ℕ → ℕ) (disk : Disk w.State) where
  open w use {State}

  send_parts-ends :
      (job : Job) (c : Client) (s : State)
      → 0 < job.parts
      → (d : Done (Result Text) State) × (send_parts w choose disk job c s ≡ finished d)
  unfolding send_parts
  send_parts-ends job c s h =
      let threads = thread_count job.options job.parts in
      let some_thread : (threads == 0) ≡ false = ground arith in
      let (p, e) =
        join-ends w job (join_fuel job.parts threads) choose disk (start_pool w job threads c s)
          (start_measure w job threads c s) in
      (finish_upload w job p.shared, rw (send_parts, some_thread, e) refl)

  put_multipart-ends :
      (c : Client) (uri path : Text) (target : Text × Text) (options : FileUploadOptions) (size : ℕ)
      (s : State)
      → 0 < size
      → size < 2 ^ 63
      → options.part_size < 2 ^ 63
      → (d : Done (Result Text) State) × (put_multipart w choose disk c uri path target options size
            s
          ≡ finished d)
  unfolding put_multipart
  put_multipart-ends c uri path target options size s some_size small fits =
      let d = exchange w c (ok (create_call target options)) s in
      elim (Result-cases (d.result >>= started w uri path)) [
        | inl (e, q) ↦ (
          record { result = err e; client = d.client; state = d.state },
          rw (put_multipart, q) refl,
        )
        | inr (upload_id, q) ↦
            let (r, ends) =
              send_parts-ends (new_job uri path target options size upload_id) d.client d.state
                (some_part size options.part_size some_size small fits) in
            (r, rw (put_multipart, q) ends)
      ]

  -- put_file returns, with an ETag or an error, whatever the servers answer and in whatever order its
  -- threads take their steps, where the file and the requested part size are smaller than 2^63 bytes.
  pub put_file-ends :
      (c : Client) (uri path : Text) (options : FileUploadOptions) (s : State)
      → ((size : ℕ) → disk.file_size path s ≡ ok size → size < 2 ^ 63)
      → options.part_size < 2 ^ 63
      → (d : Done (Result Text) State) × (put_file w choose disk c uri path options s ≡ finished d)
  unfolding put_file
  put_file-ends c uri path options s small fits =
      elim (Result-cases (check_put_file w disk c uri path options s)) [
        | inl (e, q) ↦ (record { result = err e; client = c; state = s }, rw (put_file, q) refl)
        | inr (checked, q) ↦
            let size_small =
              small checked.1 (check_put_file-size w disk c uri path options s checked q) in
            elim (Bool-cases (ltb checked.1 (threshold_of options))) [
              | inl e ↦ (
                put_single w disk c uri path checked.0 options checked.1 s,
                rw (put_file, q, e) refl,
              )
              | inr e ↦
                  let (d, ends) =
                    put_multipart-ends c uri path checked.0 options checked.1 s (ground arith)
                      size_small fits in
                  (d, rw (put_file, q, e) ends)
            ]
      ]
