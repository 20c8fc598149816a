-- ===== src/PutDirectory/Refused.antt =====
-- put_directory by a client that refuses every call.
use nanos3reader.Prelude.{ℕ, zero, ◌≡◌, false, List, All}
use nanos3reader.Text.{Text, is_empty}
use nanos3reader.Result.{ok}
use nanos3reader.World.{World}
use nanos3reader.Client.Calls.{Client}
use nanos3reader.PutFile.Source.{Disk, FileUploadOptions}
use nanos3reader.PutFile.Whole.{Run, finished, length_error, cut_off}
use nanos3reader.PutDirectory.Items.{Item}
use nanos3reader.PutDirectory.Threads.{Sender, reporting, Shared, Pool, FileUploadResult}
use nanos3reader.PutDirectory.Whole.{DirectoryDone}

abbrev Failed : FileUploadResult → Type 0
Failed r = r.ok ≡ false

module _ (w : World) (choose : Item → ℕ → ℕ) (disk : Disk w.State) (options : FileUploadOptions)
    (items : List Item) (c : Client) (s : w.State) (refusing : is_empty c.refusal ≡ false) where
  open w use {State}

  abbrev Failing : Sender → Type 0
  Failing (reporting r) = Failed r
  Failing x = zero ≡ zero

  -- Nothing has been sent, and every report is of a failure.
  record Unsent (y : Shared State) : Type 0 where
    client : y.client ≡ c
    state : y.state ≡ s
    reports : All Failed y.reports

  abbrev Kept : Run (Sender × Shared State) → Type 0
  Kept (finished (x, y)) = Failing x × Unsent y
  Kept length_error = zero ≡ zero
  Kept cut_off = zero ≡ zero

  record Idle (p : Pool w choose disk options items) : Type 0 where
    unsent : Unsent p.shared
    failing : All Failing p.senders

-- What put_directory leaves when nothing has been sent.
pub record SentNothing {S : Type 0} (c : Client) (s : S) (d : DirectoryDone S) : Type 0 where
  pub client : d.client ≡ c
  pub state : d.state ≡ s
  pub reports : All Failed d.reports
