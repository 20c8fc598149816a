-- ===== src/PutFile/Workers.antt =====
-- The threads of a multipart upload: each takes the next part, sends it, and keeps its ETag, until the
-- parts are used up or one has failed.
pub mod Sent
pub mod Invariant
pub mod Reached
pub mod Exclusive
pub mod Ends
pub mod Joined
use nanos3reader.Prelude.{
  ℕ, zero, suc, ◌+◌, ◌-◌, ◌*◌, ◌/◌, ◌%◌, ◌^◌, ◌≤◌, ◌<◌, min, max, ◌≡◌, refl, sym, ap, ◌∙◌, subst,
  ◌≢◌, ◌↔◌, ◌⊎◌, inl, inr, Bool, true, false, not, ◌&&◌, ◌||◌, Option, none, some, List, [], ◌∷◌,
  map, ◌++◌, arith, ltb, leb, ◌==◌, if◌then◌else◌, ltb→lt, lt→ltb, leb→le, ==_iff, tests,
  Bool-cases, Option-cases, all_below, all_below_sound, length, get_elem?, take, drop, replicate,
  set, All, length-append, take-append-drop, length-take, length-drop, length-replicate, length-map,
  length-set, take-append, drop-append, take-all, drop-all, get_elem?-take, get_elem?-drop,
  get_elem?-none, All-append, ℤ, pos, negsuc, drop-drop, take-add, take-take, get_elem?-set,
  get_elem?-lt, get_elem?-some,
}
use nanos3reader.Text.{
  Text, codes, is_empty, to_string, text_eq, text_lt, starts_with, shift, find_char, find,
  find_from, find_char_from, substr, substr_from, find_first_not_of, find_last_not_of,
  no_line_break, ends_with_char, is_blank, is_space, trim_by, trim, trim_ws, to_string_fuel,
  uint64_max, parse_digits, parse_u64,
}
use nanos3reader.Result.{Result, ok, err, ◌>>=◌}
use nanos3reader.World.{World}
use nanos3reader.Http.Request.{Call, Reply}
use nanos3reader.Client.Calls.{Client, Done, exchange}
use nanos3reader.Multipart.{part_call, part_offset, part_len}
use nanos3reader.Scheduler.{busy_from, choice}
use nanos3reader.PutFile.Source.{FileUploadOptions, Disk, accepted, body_hash}

-- What the lambda `worker` captures and does not change.
pub record Job : Type 0 where
  pub uri : Text
  pub path : Text
  pub target : Text × Text
  pub options : FileUploadOptions
  pub id_query : Text
  pub size : ℕ
  pub part_size : ℕ
  pub parts : ℕ

-- Where a thread stands, with the local variables that are live there: before fopen; at the head of
-- its loop; with a part's index in hand; with the part to send; with an ETag to keep; about to call
-- fail_with; returned. `bytes` is the file that it has open.
pub data Worker : Type 0 where
  opening : Worker
  fetching : (bytes : Text) → Worker
  testing : (bytes : Text) (i : ℕ) → Worker
  sending : (bytes : Text) (i : ℕ) → Worker
  storing : (bytes : Text) (i : ℕ) (etag : Text) → Worker
  failing : (message : Text) → Worker
  returned : Worker

-- The variables that the threads share. `next` counts no further than the parts and the threads, far
-- below 2^64.
pub record Shared (State : Type 0) : Type 0 where
  pub client : Client
  pub state : State
  pub next : ℕ
  pub failed : Bool
  pub first_error : Text
  pub part_etags : List Text

unfoldable pub fail_with : {S : Type 0} → Text → Shared S → Shared S
fail_with message y = record y {
  failed = true;
  first_error = if is_empty y.first_error then message else y.first_error;
}

abbrev pub of_parts : ℕ → ℕ → Text
of_parts i parts =
    codes " (part " ++ (to_string (i + 1) ++ (codes " of " ++ (to_string parts ++ codes ")")))

module _ (w : World) (job : Job) where
  open w use {State, read_file}
  open job use {uri, path, target, options, id_query, size, part_size, parts}

  -- The ETag of a part that was accepted; the error of run_request itself is passed on as it is.
  unfoldable pub part_etag : ℕ → Reply → Result Text
  part_etag i r =
      let found = accepted w uri path r >>= λ done.
      if is_empty done.etag
      then err
          (uri ++ (codes ": part " ++ (to_string (i + 1) ++ codes " was accepted without an ETag")))
      else ok done.etag in
      elim found [ ok etag ↦ ok etag | err e ↦ err (e ++ of_parts i parts) ]

  unfoldable pub part_request : Text → ℕ → Result Call
  part_request bytes i =
      body_hash w options path bytes (part_offset part_size i) (part_len size part_size i)
      >>= λ hash. ok (part_call target id_query bytes size part_size i hash)

  -- Where the thread goes on behind its request.
  abbrev pub behind : Text → ℕ → Result Text → Worker
  behind bytes i (ok etag) = storing bytes i etag
  behind bytes i (err message) = failing message

  -- One step of one thread. The request with its retries is one step.
  unfoldable pub move : Disk State → Worker → Shared State → Worker × Shared State
  move disk opening y = elim (read_file path y.state) [
    | none ↦ (failing (path ++ (codes ": " ++ disk.open_error path y.state)), y)
    | some bytes ↦ (fetching bytes, y)
  ]
  move disk (fetching bytes) y = (testing bytes y.next, record y { next = y.next + 1 })
  move disk (testing bytes i) y = (if leb parts i || y.failed then returned else sending bytes i, y)
  move disk (sending bytes i) y =
      let d = exchange w y.client (part_request bytes i) y.state in
      (behind bytes i (d.result >>= part_etag i), record y { client = d.client; state = d.state })
  move disk (storing bytes i etag) y =
      (fetching bytes, record y { part_etags = set y.part_etags i etag })
  move disk (failing message) y = (returned, fail_with message y)
  move disk returned y = (returned, y)

  -- The pool of threads, and what they share.
  pub record Pool : Type 0 where
    pub workers : List Worker
    pub shared : Shared State

  -- Thread `i` takes a step.
  unfoldable pub turn : Disk State → ℕ → Pool → Pool
  turn disk i p = elim (get_elem? p.workers i) [
    | none ↦ p
    | some x ↦
        let (x', y) = move disk x p.shared in record { workers = set p.workers i x'; shared = y }
  ]

  -- The states that any interleaving of the threads leads to.
  pub data Reach (disk : Disk State) (p : Pool) : Pool → Type 0 where
    here : Reach disk p p
    later : {q : Pool} → (i : ℕ) → Reach disk p q → Reach disk p (turn disk i q)

-- std::min(std::max(part_concurrency, 1), parts), the calling thread among them
abbrev pub thread_count : FileUploadOptions → ℕ → ℕ
thread_count options parts = min (max options.part_concurrency 1) parts

abbrev pub is_returned : Worker → Bool
is_returned returned = true
is_returned _ = false

module _ (w : World) (job : Job) where
  open w use {State}

  -- The threads run until all have been joined, in the order that `choose` decides. `none` is a run
  -- that the fuel cuts off.
  unfoldable pub join : ℕ → (ℕ → ℕ) → Disk State → Pool w job → Option (Pool w job)
  unfolding choice
  join zero choose disk p = none
  join (suc fuel) choose disk p = elim (choice (busy_from is_returned 0 p.workers) (choose fuel)) [
    | none ↦ some p
    | some i ↦ join fuel choose disk (turn w job disk i p)
  ]

  -- The threads before their first step.
  abbrev pub start_pool : ℕ → Client → State → Pool w job
  start_pool threads c s = record {
    workers = replicate threads opening;
    shared = record {
      client = c;
      state = s;
      next = 0;
      failed = false;
      first_error = [];
      part_etags = replicate job.parts [];
    };
  }
