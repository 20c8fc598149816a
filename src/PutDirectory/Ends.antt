-- ===== src/PutDirectory/Ends.antt =====
-- put_directory returns, in whatever order its threads run.
use nanos3reader.Prelude.{
  ℕ, zero, suc, ◌+◌, ◌-◌, ◌*◌, ◌^◌, ◌<◌, ◌≡◌, refl, inl, inr, false, List, [], arith, Option-cases,
  length, get_elem?, replicate, set, get_elem?-lt,
}
use nanos3reader.Text.{Text}
use nanos3reader.Result.{ok, err, Result-cases}
use nanos3reader.World.{World}
use nanos3reader.Scheduler.{busy_from, choice, choice-busy, weights, weights-set, weights-replicate}
use nanos3reader.Client.Calls.{Client}
use nanos3reader.PutFile.Source.{FileUploadOptions, Disk}
use nanos3reader.PutFile.Whole.{finished}
use nanos3reader.PutFile.Whole.Ends.{put_file-ends}
use nanos3reader.PutDirectory.Items.{Item, Directories}
use nanos3reader.PutDirectory.Threads.{
  Sender, fetching, sending, reporting, returned, Shared, Pool, file_result, report, is_returned,
  move, turn, start_pool, join, sender_count,
}
use nanos3reader.PutDirectory.Whole.{
  directory_done, DirectoryUploadOptions, DirectoryDone, no_stats, directory_items, senders_fuel,
  send_items, put_directory,
}

-- The steps of a thread that are not those for files still to be handed out.
weight : Sender → ℕ
weight fetching = 1
weight (sending item) = 3
weight (reporting r) = 2
weight returned = 0

module _ (w : World) (choose : Item → ℕ → ℕ) (disk : Disk w.State) (options : FileUploadOptions)
    (items : List Item)
    (small : (path : Text) (s : w.State) (size : ℕ)
      → disk.file_size path s ≡ ok size
      → size < 2 ^ 63)
    (fits : options.part_size < 2 ^ 63) where
  open w use {State}

  measure : Pool w choose disk options items → ℕ
  measure p = 3 * (length items - p.shared.next) + weights weight p.senders

  -- A step that is taken, and that leaves less to do.
  Step : Sender → Shared State → Type 0
  Step x y =
      (x' : Sender) × (y' : Shared State) × (move w choose disk options items x y
        ≡ finished (x', y'))
      × (3 * (length items - y'.next) + weight x' < 3 * (length items - y.next) + weight x)

  move-Step : (x : Sender) (y : Shared State) → is_returned x ≡ false → Step x y
  unfolding move weight Step report
  move-Step fetching y h = elim (Option-cases (get_elem? items y.next)) [
    | inl e ↦ (returned, record y { next = y.next + 1 }, rw (e, move) refl, omega arith)
    | inr (item, e) ↦
        let more = get_elem?-lt items y.next item e in
        (sending item, record y { next = y.next + 1 }, rw (e, move) refl, omega arith)
  ]
  move-Step (sending item) y h =
      let (d, e) =
        put_file-ends w (choose item) disk y.client item.uri item.path options y.state
          (λ size. small item.path y.state size) fits in
      (
        reporting (file_result item d.result),
        record y { client = d.client; state = d.state },
        rw (e, move) refl,
        omega arith,
      )
  move-Step (reporting r) y h = (fetching, report r y, refl, omega arith)
  move-Step returned y h = absurd (cc)

  join-ends :
      (fuel : ℕ) (order : ℕ → ℕ) (p : Pool w choose disk options items)
      → measure p < fuel
      → (q : Pool w choose disk options items) × (join w choose disk options items fuel order p
          ≡ finished q)
  unfolding join measure turn Step
  join-ends zero order p h = absurd (omega arith)
  join-ends (suc fuel) order p h =
      elim (Option-cases (choice (busy_from is_returned 0 p.senders) (order fuel))) [
        | inl e ↦ (p, rw (join, e) refl)
        | inr (i, e) ↦
            let (x, at, busy) = choice-busy is_returned p.senders (order fuel) i e in
            let (x', y', moved, less) = move-Step x p.shared busy in
            let stepped : turn w choose disk options items i p
                ≡ finished (record { senders = set p.senders i x'; shared = y' }) =
              rw (turn, at, moved) refl in
            let (last, ends) =
              join-ends fuel order (record { senders = set p.senders i x'; shared = y' })
                (omega (arith, weights-set weight p.senders i x x' at)) in
            (last, rw (join, e, stepped) ends)
      ]

  send_items-ends :
      (order : ℕ → ℕ) (concurrency : ℕ) (c : Client) (s : State)
      → (d : DirectoryDone State) × (send_items w order choose disk
            (record { file = options; concurrency = concurrency })
            items
            c
            s
          ≡ finished d)
  unfolding send_items measure weight
  send_items-ends order concurrency c s =
      let threads = sender_count concurrency items in
      let enough : 3 * (length items - 0) + weights weight (replicate threads fetching)
          < senders_fuel (length items) threads =
        omega (arith, weights-replicate weight threads fetching) in
      let (p, e) =
        join-ends (senders_fuel (length items) threads) order
          (start_pool w choose disk options items threads c s) enough in
      (directory_done items p.shared, rw (send_items, e) refl)

-- put_directory returns, whatever the servers answer and in whatever order its threads take their
-- steps, each put_file being one step, and the threads of each put_file, which have an order of their
-- own, theirs; where all files and the requested part size are smaller than 2^63 bytes.
pub put_directory-ends :
    (w : World) (order : ℕ → ℕ) (choose : Item → ℕ → ℕ) (disk : Disk w.State)
    (dirs : Directories w.State) (c : Client) (dir prefix_uri : Text)
    (options : DirectoryUploadOptions) (s : w.State)
    → ((path : Text) (s : w.State) (size : ℕ) → disk.file_size path s ≡ ok size → size < 2 ^ 63)
    → options.file.part_size < 2 ^ 63
    → (d : DirectoryDone w.State) × (put_directory w order choose disk dirs c dir prefix_uri options
          s
        ≡ finished d)
unfolding put_directory send_items
put_directory-ends w order choose disk dirs c dir prefix_uri options s small fits =
    elim (Result-cases (directory_items dirs dir prefix_uri s)) [
      | inl (e, q) ↦ (
        record { result = err e; stats = no_stats; reports = []; client = c; state = s },
        rw (put_directory, q) refl,
      )
      | inr (items, q) ↦
          let (d, ends) =
            send_items-ends w choose disk options.file items small fits order options.concurrency c
              s in
          (d, rw (put_directory, q) ends)
    ]
