-- ===== src/PutDirectory/Reported.antt =====
-- What put_directory reports, and when it succeeds.
use nanos3reader.Prelude.{
  ℕ, ◌<◌, ◌≡◌, refl, sym, ◌∙◌, subst, ◌↔◌, inl, inr, true, List, [], ◌∷◌, arith, ◌==◌,
  if◌then◌else◌, ==_iff, Bool-cases, length, All, length-replicate,
}
use nanos3reader.Text.{Text}
use nanos3reader.Result.{ok}
use nanos3reader.World.{World}
use nanos3reader.Client.Calls.{Client}
use nanos3reader.PutFile.Source.{Disk}
use nanos3reader.PutFile.Whole.{finished}
use nanos3reader.PutFile.Whole.Uploaded.{finished-injective, Run-cases}
use nanos3reader.PutDirectory.Items.{Item, Directories}
use nanos3reader.PutDirectory.Threads.{
  FileUploadResult, DirectoryUploadStats, fetching, Shared, start_pool, join, sender_count,
}
use nanos3reader.PutDirectory.Tally.{
  Tallied, item_of, item_sum, report_sum, earliest_error, FromPutFile,
}
use nanos3reader.PutDirectory.Joined.{Reported, start-Inv, join-Reported}
use nanos3reader.PutDirectory.Whole.{
  DirectoryUploadOptions, DirectoryDone, directory_items, directory_result, directory_done,
  senders_fuel, send_items, put_directory,
}

abbrev pub AllOk : List FileUploadResult → Type 0
AllOk = All (λ (r : FileUploadResult). r.ok ≡ true)

-- No failure is counted exactly where each report is a success.
no_failure :
    (rs : List FileUploadResult) → (report_sum (λ r. if r.ok then 0 else 1) rs ≡ 0) ↔ AllOk rs
unfolding report_sum
no_failure [] = ((λ h. tt), λ h. refl)
no_failure (r ∷ rs) = elim (Bool-cases r.ok) [
  | inl e ↦ (
    (λ h. (e, (no_failure rs).0 (let h' = rw e at h in omega arith))),
    (λ h. rw e (omega (arith, (no_failure rs).1 h.1))),
  )
  | inr e ↦ ((λ h. let h' = rw e at h in absurd (omega arith)), (λ h. absurd (ground arith)))
]

directory_result_iff :
    (items : List Item) (stats : DirectoryUploadStats) (first_error : Text)
    → (directory_result items stats first_error ≡ ok tt) ↔ (stats.failed ≡ 0)
unfolding directory_result
directory_result_iff items stats first_error = elim (Bool-cases (stats.failed == 0)) [
  | inl e ↦ ((λ h. (==_iff stats.failed 0).0 e), (λ h. rw e refl))
  | inr e ↦ ((λ h. let h' = rw e at h in absurd (cc)), (λ h. absurd (ground arith)))
]

module _ (w : World) (order : ℕ → ℕ) (choose : Item → ℕ → ℕ) (disk : Disk w.State) where
  open w use {State}

  send_items-Reported :
      (options : DirectoryUploadOptions) (items : List Item) (c : Client) (s : State)
      (d : DirectoryDone State)
      → send_items w order choose disk options items c s ≡ finished d
      → (y : Shared State) × Reported w choose disk options.file items y
        × (directory_done items y ≡ d)
  unfolding send_items
  send_items-Reported options items c s d h =
      let threads = sender_count options.concurrency items in
      let start = start_pool w choose disk options.file items threads c s in
      let some_thread : 0 < length start.senders =
        omega (arith, length-replicate {0} threads fetching) in
      elim (Run-cases
        (join w choose disk options.file items (senders_fuel (length items) threads) order start)) [
          | inl (p, q) ↦
              let h' = rw (send_items, q) at h in
              (
                p.shared,
                join-Reported w choose disk options.file items (senders_fuel (length items) threads)
                    order start p (start-Inv w choose disk options.file items threads c s)
                    some_thread q,
                finished-injective h',
              )
          | inr (inl q) ↦ let bad = rw (send_items, q) at h in absurd (cc)
          | inr (inr q) ↦ let bad = rw (send_items, q) at h in absurd (cc)
        ]

  -- What put_directory returns for a list of files.
  pub record Complete (options : DirectoryUploadOptions) (items : List Item)
      (d : DirectoryDone State) : Type 0 where
    pub once : (f : Item → ℕ) → report_sum (λ r. f (item_of r)) d.reports ≡ item_sum f items
    pub from : All (FromPutFile w choose disk options.file items) d.reports
    pub counted : Tallied d.reports d.stats (earliest_error d.reports)
    pub succeeds : (d.result ≡ ok tt) ↔ AllOk d.reports

  directory_done-Complete :
      (options : DirectoryUploadOptions) (items : List Item) (y : Shared State)
      → Reported w choose disk options.file items y
      → Complete options items (directory_done items y)
  unfolding directory_done
  directory_done-Complete options items y v =
      let iff = directory_result_iff items y.stats y.first_error in
      let none_failed = no_failure y.reports in
      record {
        once = v.once;
        from = v.from;
        counted = record {
          files = v.tallied.files;
          failed = v.tallied.failed;
          bytes = v.tallied.bytes;
          error = refl;
        };
        succeeds = (
          (λ h. none_failed.0 (sym v.tallied.failed ∙ iff.0 h)),
          (λ h. iff.1 (v.tallied.failed ∙ none_failed.1 h)),
        );
      }

  -- Where put_directory returns for a directory that can be listed, and in whatever order its threads
  -- ran, each file was attempted and reported exactly once, by what a call of put_file for it came to;
  -- the counts and the bytes (modulo 2^64) are those of the reports; and the result is a success
  -- exactly where each report is one.
  pub put_directory-Complete :
      (dirs : Directories State) (c : Client) (dir prefix_uri : Text)
      (options : DirectoryUploadOptions) (s : State) (items : List Item) (d : DirectoryDone State)
      → directory_items dirs dir prefix_uri s ≡ ok items
      → put_directory w order choose disk dirs c dir prefix_uri options s ≡ finished d
      → Complete options items d
  unfolding put_directory
  put_directory-Complete dirs c dir prefix_uri options s items d listed h =
      let (y, v, same) =
        send_items-Reported options items c s d (rw (put_directory, listed) at h) in
      subst (Complete options items) same (directory_done-Complete options items y v)
