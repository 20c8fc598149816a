-- ===== src/PutDirectory/Threads.antt =====
-- The threads of put_directory: each takes the next file, sends it, and reports what came of it.
use nanos3reader.Prelude.{
  ℕ, ◌+◌, ◌≡◌, Bool, true, false, none, some, List, [], ◌∷◌, if◌then◌else◌, get_elem?, replicate,
  set, zero, suc, min, max, length,
}
use nanos3reader.Text.{Text, is_empty}
use nanos3reader.Result.{Result, ok, err}
use nanos3reader.World.{World}
use nanos3reader.Client.Calls.{Client, Done}
use nanos3reader.Multipart.{word64}
use nanos3reader.Scheduler.{busy_from, choice}
use nanos3reader.PutFile.Source.{FileUploadOptions, Disk}
use nanos3reader.PutFile.Whole.{Run, finished, length_error, cut_off, put_file}
use nanos3reader.PutDirectory.Items.{Item}

-- FileUploadResult without the time that it took; `error` is empty where `ok` is set.
pub record FileUploadResult : Type 0 where
  pub path : Text
  pub uri : Text
  pub bytes : ℕ
  pub ok : Bool
  pub error : Text

-- DirectoryUploadStats without the time. The counts of files stay below the length of a vector.
pub record DirectoryUploadStats : Type 0 where
  pub files : ℕ
  pub failed : ℕ
  pub bytes : ℕ

-- Where a thread stands: at the head of its loop, with a file to send, with a result to report under
-- the mutex, or returned.
pub data Sender : Type 0 where
  fetching : Sender
  sending : (item : Item) → Sender
  reporting : (result : FileUploadResult) → Sender
  returned : Sender

-- What the threads share; `reports` are the calls of on_file so far, the last one first.
pub record Shared (State : Type 0) : Type 0 where
  pub client : Client
  pub state : State
  pub next : ℕ
  pub stats : DirectoryUploadStats
  pub first_error : Text
  pub reports : List FileUploadResult

unfoldable pub file_result : Item → Result Text → FileUploadResult
file_result item (ok etag) = record {
  path = item.path;
  uri = item.uri;
  bytes = item.size;
  ok = true;
  error = [];
}
file_result item (err e) = record {
  path = item.path;
  uri = item.uri;
  bytes = item.size;
  ok = false;
  error = e;
}

-- The counters behind a file.
unfoldable pub count_result : FileUploadResult → DirectoryUploadStats → DirectoryUploadStats
count_result r stats =
    if r.ok
    then record stats { files = stats.files + 1; bytes = word64 (stats.bytes + r.bytes) }
    else record stats { failed = stats.failed + 1 }

-- `if (first_error.empty()) first_error = result.error` for a file that failed
unfoldable pub keep_error : FileUploadResult → Text → Text
keep_error r first_error =
    if r.ok then first_error else if is_empty first_error then r.error else first_error

unfoldable pub report : {S : Type 0} → FileUploadResult → Shared S → Shared S
unfolding count_result keep_error
report r y = record y {
  stats = count_result r y.stats;
  first_error = keep_error r y.first_error;
  reports = r ∷ y.reports;
}

abbrev pub is_returned : Sender → Bool
is_returned returned = true
is_returned _ = false

module _ (w : World) (choose : Item → ℕ → ℕ) (disk : Disk w.State) (options : FileUploadOptions)
    (items : List Item) where
  open w use {State}

  -- A thread that put_file throws in ends the program, and a run that is cut off stays so.
  abbrev pub sent :
      Item → Shared State → Run (Done (Result Text) State) → Run (Sender × Shared State)
  sent item y (finished d) =
      finished
        (reporting (file_result item d.result), record y { client = d.client; state = d.state })
  sent item y length_error = length_error
  sent item y cut_off = cut_off

  -- One step of one thread. A file with all its requests is one step.
  unfoldable pub move : Sender → Shared State → Run (Sender × Shared State)
  move fetching y = finished (
    (elim (get_elem? items y.next) [ none ↦ returned | some item ↦ sending item ]),
    record y { next = y.next + 1 },
  )
  move (sending item) y =
      sent item y (put_file w (choose item) disk y.client item.uri item.path options y.state)
  move (reporting result) y = finished (fetching, report result y)
  move returned y = finished (returned, y)

  pub record Pool : Type 0 where
    pub senders : List Sender
    pub shared : Shared State

  abbrev pub placed : ℕ → Pool → Run (Sender × Shared State) → Run Pool
  placed i p (finished (x', y)) = finished (record { senders = set p.senders i x'; shared = y })
  placed i p length_error = length_error
  placed i p cut_off = cut_off

  unfoldable pub turn : ℕ → Pool → Run Pool
  turn i p = elim (get_elem? p.senders i) [
    | none ↦ finished p
    | some x ↦ placed i p (move x p.shared)
  ]

  -- The states that any interleaving of the threads leads to.
  pub data Reach (p : Pool) : Pool → Type 0 where
    here : Reach p p
    later : {q r : Pool} → (i : ℕ) → Reach p q → turn i q ≡ finished r → Reach p r

  abbrev pub start_pool : ℕ → Client → State → Pool
  start_pool threads c s = record {
    senders = replicate threads fetching;
    shared = record {
      client = c;
      state = s;
      next = 0;
      stats = record { files = 0; failed = 0; bytes = 0 };
      first_error = [];
      reports = [];
    };
  }

  -- The threads run until all have been joined.
  unfoldable pub join : ℕ → (ℕ → ℕ) → Pool → Run Pool
  unfolding choice
  join zero order p = cut_off
  join (suc fuel) order p = elim (choice (busy_from is_returned 0 p.senders) (order fuel)) [
    | none ↦ finished p
    | some i ↦ elim (turn i p) [
      | finished q ↦ join fuel order q
      | length_error ↦ length_error
      | cut_off ↦ cut_off
    ]
  ]

-- std::min(std::max(concurrency, 1), std::max(items, 1)), the calling thread among them
abbrev pub sender_count : ℕ → List Item → ℕ
sender_count concurrency items = min (max concurrency 1) (max (length items) 1)
