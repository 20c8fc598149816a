-- ===== src/PutFile/Workers/Ends.antt =====
-- The threads come to an end, in whatever order they take their steps, and what they leave then.
use nanos3reader.Prelude.{
  ℕ, zero, suc, ◌+◌, ◌-◌, ◌*◌, ◌<◌, ◌≡◌, refl, subst, inl, inr, false, some, [], arith, ltb,
  if◌then◌else◌, Option-cases, get_elem?,
}
use nanos3reader.Text.{Text}
use nanos3reader.Result.{Result, ok, err, ◌>>=◌}
use nanos3reader.World.{World}
use nanos3reader.Client.Calls.{Client, exchange}
use nanos3reader.PutFile.Source.{Disk}
use nanos3reader.Scheduler.{
  busy_from, choice, choice-none, choice-busy, weights, weights-set, weights-replicate,
}
use nanos3reader.PutFile.Workers.{
  start_pool, Shared, Pool, Job, opening, fetching, testing, sending, storing, failing, returned,
  here, later, Worker, fail_with, part_etag, part_request, behind, move, turn, Reach, is_returned,
  join,
}

-- The steps that a thread has ahead of it, beside those for parts that are still to be handed out.
weight : ℕ → Worker → ℕ
weight parts opening = 3
weight parts (fetching bytes) = 2
weight parts (testing bytes i) = if ltb i parts then 5 else 1
weight parts (sending bytes i) = 4
weight parts (storing bytes i etag) = 3
weight parts (failing message) = 1
weight parts returned = 0

module _ (w : World) (job : Job) where
  open w use {State}
  open job use {parts, path}

  pub measure : Pool w job → ℕ
  measure p = 5 * (parts - p.shared.next) + weights (weight parts) p.workers

  weight-behind :
      (bytes : Text) (i : ℕ) (r : Result Text) → weight parts (behind w job bytes i r) < 4
  unfolding weight
  weight-behind bytes i (ok etag) = omega arith
  weight-behind bytes i (err message) = omega arith

  move-weight :
      (disk : Disk State) (x : Worker) (y : Shared State)
      → is_returned x ≡ false
      → 5 * (parts - (move w job disk x y).1.next) + weight parts (move w job disk x y).0
        < 5 * (parts - y.next) + weight parts x
  unfolding move weight fail_with
  move-weight disk opening y h = elim (Option-cases (w.read_file path y.state)) [
    | inl e ↦ rw (e, move) (omega arith)
    | inr (bytes, e) ↦ rw (e, move) (omega arith)
  ]
  move-weight disk (fetching bytes) y h = ground arith
  move-weight disk (testing bytes i) y h = ground arith
  move-weight disk (sending bytes i) y h = omega (
    arith,
    weight-behind bytes i
        ((exchange w y.client (part_request w job bytes i) y.state).result >>= part_etag w job i),
  )
  move-weight disk (storing bytes i etag) y h = omega arith
  move-weight disk (failing message) y h = omega arith
  move-weight disk returned y h = absurd (cc)

  turn-measure :
      (disk : Disk State) (i : ℕ) (x : Worker) (p : Pool w job)
      → get_elem? p.workers i ≡ some x
      → is_returned x ≡ false
      → measure (turn w job disk i p) < measure p
  unfolding turn measure
  turn-measure disk i x p at busy =
      let x' = (move w job disk x p.shared).0 in
      rw (turn, at)
        (omega
          (arith, move-weight disk x p.shared busy, weights-set (weight parts) p.workers i x x' at))

  pub join-ends :
      (fuel : ℕ) (choose : ℕ → ℕ) (disk : Disk State) (p : Pool w job)
      → measure p < fuel
      → (q : Pool w job) × (join w job fuel choose disk p ≡ some q)
  unfolding join
  join-ends zero choose disk p h = absurd (omega arith)
  join-ends (suc fuel) choose disk p h =
      elim (Option-cases (choice (busy_from is_returned 0 p.workers) (choose fuel))) [
        | inl e ↦ (p, rw (join, e) refl)
        | inr (i, e) ↦
            let (x, at', busy) = choice-busy is_returned p.workers (choose fuel) i e in
            let less = turn-measure disk i x p at' busy in
            let (q, done) = join-ends fuel choose disk (turn w job disk i p) (omega arith) in
            (q, rw (join, e) done)
      ]

  Reach-trans :
      (disk : Disk State) (p q : Pool w job) {r : Pool w job}
      → Reach w job disk p q
      → Reach w job disk q r
      → Reach w job disk p r
  Reach-trans disk p q a here = a
  Reach-trans disk p q a (later i b) = later i (Reach-trans disk p q a b)

  -- A join ends in a state that an interleaving leads to, where every thread has returned.
  pub join-Reach :
      (fuel : ℕ) (choose : ℕ → ℕ) (disk : Disk State) (p q : Pool w job)
      → join w job fuel choose disk p ≡ some q
      → Reach w job disk p q × (busy_from is_returned 0 q.workers ≡ [])
  unfolding join
  join-Reach zero choose disk p q h = absurd (cc)
  join-Reach (suc fuel) choose disk p q h =
      elim (Option-cases (choice (busy_from is_returned 0 p.workers) (choose fuel))) [
        | inl e ↦
            let h' = rw (join, e) at h in
            let same : p ≡ q = cc in
            subst
              (λ (x : Pool w job). Reach w job disk p x × (busy_from is_returned 0 x.workers ≡ []))
              same (here, choice-none (busy_from is_returned 0 p.workers) (choose fuel) e)
        | inr (i, e) ↦
            let (r, ended) =
              join-Reach fuel choose disk (turn w job disk i p) q (rw (join, e) at h) in
            (Reach-trans disk p (turn w job disk i p) (later i here) r, ended)
      ]

  -- The fuel of send_parts is enough.
  pub start_measure :
      (threads : ℕ) (c : Client) (s : State)
      → measure (start_pool w job threads c s) < 5 * parts + 3 * threads + 1
  unfolding measure weight
  start_measure threads c s = omega (arith, weights-replicate (weight parts) threads opening)
