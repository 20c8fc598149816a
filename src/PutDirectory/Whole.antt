-- ===== src/PutDirectory/Whole.antt =====
-- put_directory as a whole.
use nanos3reader.Prelude.{ℕ, ◌+◌, ◌*◌, false, List, [], ◌++◌, ◌==◌, if◌then◌else◌, length}
use nanos3reader.Text.{Text, codes, is_empty, to_string}
use nanos3reader.Result.{Result, ok, err, ◌>>=◌, map_err}
use nanos3reader.World.{World}
use nanos3reader.Uri.{split_s3_uri}
use nanos3reader.Client.Calls.{Client}
use nanos3reader.PutFile.Source.{FileUploadOptions, Disk}
use nanos3reader.PutFile.Whole.{Run, finished, length_error, cut_off}
use nanos3reader.PutDirectory.Items.{Item, Directories, base_uri, walked, largest_first}
use nanos3reader.PutDirectory.Threads.{
  Shared, FileUploadResult, DirectoryUploadStats, start_pool, join, sender_count,
}

pub record DirectoryUploadOptions : Type 0 where
  pub file : FileUploadOptions
  pub concurrency : ℕ

-- The result with `stats`, and the calls of on_file, the last one first.
pub record DirectoryDone (State : Type 0) : Type 0 where
  pub result : Result (Unit {0})
  pub stats : DirectoryUploadStats
  pub reports : List FileUploadResult
  pub client : Client
  pub state : State

abbrev pub no_stats : DirectoryUploadStats
no_stats = record { files = 0; failed = 0; bytes = 0 }

-- The files to send, largest first, or the error of a directory that cannot be listed.
unfoldable pub directory_items : {S : Type 0} → Directories S → Text → Text → S → Result (List Item)
directory_items dirs dir prefix_uri s = split_s3_uri prefix_uri false >>= λ target.
    if dirs.is_directory dir s
    then (map_err (λ message. dir ++ (codes ": " ++ message)) (dirs.walk dir s) >>= λ walk.
        walked dir (base_uri target) walk >>= λ items. ok (largest_first items))
    else (let message = dirs.directory_error dir s in
        err (
          dir
          ++ (codes ": not a directory"
              ++ (if is_empty message then [] else codes " (" ++ (message ++ codes ")")))))

-- `if (stats.failed != 0)`
unfoldable pub directory_result : List Item → DirectoryUploadStats → Text → Result (Unit {0})
directory_result items stats first_error =
    if stats.failed == 0
    then ok tt
    else err (
        to_string stats.failed
        ++ (codes " of "
            ++ (to_string (length items) ++ (codes " file(s) failed; first: " ++ first_error))))

-- What is returned behind the threads.
unfoldable pub directory_done : {S : Type 0} → List Item → Shared S → DirectoryDone S
directory_done items y = record {
  result = directory_result items y.stats y.first_error;
  stats = y.stats;
  reports = y.reports;
  client = y.client;
  state = y.state;
}

-- Enough for the steps that each file takes, and for the last one of each thread.
abbrev pub senders_fuel : ℕ → ℕ → ℕ
senders_fuel items threads = 3 * items + threads + 1

module _ (w : World) where
  open w use {State}

  unfoldable pub send_items :
      (ℕ → ℕ)
      → (Item → ℕ → ℕ)
      → Disk State
      → DirectoryUploadOptions
      → List Item
      → Client
      → State
      → Run (DirectoryDone State)
  send_items order choose disk options items c s =
      let threads = sender_count options.concurrency items in
      elim (join w choose disk options.file items (senders_fuel (length items) threads) order
        (start_pool w choose disk options.file items threads c s)) [
          | finished p ↦ finished (directory_done items p.shared)
          | length_error ↦ length_error
          | cut_off ↦ cut_off
        ]

  -- `order` is the order in which the threads of put_directory take their steps, and `choose` has for
  -- each file that of the threads in its put_file.
  unfoldable pub put_directory :
      (ℕ → ℕ)
      → (Item → ℕ → ℕ)
      → Disk State
      → Directories State
      → Client
      → Text
      → Text
      → DirectoryUploadOptions
      → State
      → Run (DirectoryDone State)
  put_directory order choose disk dirs c dir prefix_uri options s =
      elim (directory_items dirs dir prefix_uri s) [
        | err e ↦
            finished
              (record { result = err e; stats = no_stats; reports = []; client = c; state = s })
        | ok items ↦ send_items order choose disk options items c s
      ]
