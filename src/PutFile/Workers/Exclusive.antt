-- ===== src/PutFile/Workers/Exclusive.antt =====
-- No part is in the hands of two threads.
use nanos3reader.Prelude.{
  ℕ, zero, suc, ◌+◌, ◌≤◌, ◌<◌, ◌≡◌, refl, sym, ap, ◌∙◌, ◌⊎◌, inl, inr, Option, none, some, arith,
  ◌==◌, if◌then◌else◌, ==_iff, Bool-cases, Option-cases, get_elem?, replicate, set, get_elem?-set,
  get_elem?-lt,
}
use nanos3reader.Text.{Text}
use nanos3reader.Result.{Result, ok, err, ◌>>=◌}
use nanos3reader.World.{World}
use nanos3reader.Client.Calls.{Client, exchange}
use nanos3reader.PutFile.Source.{Disk}
use nanos3reader.PutFile.Workers.{
  Shared, Pool, Job, opening, fetching, testing, sending, storing, failing, returned, here, later,
  Worker, fail_with, part_etag, part_request, behind, move, turn, Reach, start_pool,
}

-- The part that a thread has.
abbrev pub in_hand : Worker → Option ℕ
in_hand (testing bytes i) = some i
in_hand (sending bytes i) = some i
in_hand (storing bytes i etag) = some i
in_hand x = none

opening-only : {x : Worker} → some opening ≡ some x → opening ≡ x
opening-only h = cc

module _ (w : World) (job : Job) where
  open w use {State}

  record Exclusive (p : Pool w job) : Type 0 where
    below :
        (j : ℕ) (x : Worker) (i : ℕ)
        → get_elem? p.workers j ≡ some x
        → in_hand x ≡ some i
        → i < p.shared.next
    one :
        (j k : ℕ) (x z : Worker) (i : ℕ)
        → get_elem? p.workers j ≡ some x
        → get_elem? p.workers k ≡ some z
        → in_hand x ≡ some i
        → in_hand z ≡ some i
        → j ≡ k

  -- What a thread has behind its step it had before, or it is a part that no thread has had.
  behind-hand :
      (bytes : Text) (i k : ℕ) (r : Result Text) → in_hand (behind w job bytes i r) ≡ some k → k ≡ i
  behind-hand bytes i k (ok etag) h = cc
  behind-hand bytes i k (err message) h = absurd (cc)

  move-hand :
      (disk : Disk State) (x : Worker) (y : Shared State) (k : ℕ)
      → in_hand (move w job disk x y).0 ≡ some k
      → ((in_hand x ≡ some k) × (y.next ≤ (move w job disk x y).1.next))
        ⊎ ((k ≡ y.next) × ((move w job disk x y).1.next ≡ y.next + 1))
  unfolding move
  move-hand disk opening y k h = elim (Option-cases (w.read_file job.path y.state)) [
    | inl e ↦ let bad = rw (e, move) at h in absurd (cc)
    | inr (bytes, e) ↦ let bad = rw (e, move) at h in absurd (cc)
  ]
  move-hand disk (fetching bytes) y k h = inr (let e : y.next ≡ k = cc in (sym e, refl))
  move-hand disk (testing bytes i) y k h = inl (ground arith, omega arith)
  move-hand disk (sending bytes i) y k h =
      let e =
        behind-hand bytes i k
          ((exchange w y.client (part_request w job bytes i) y.state).result >>= part_etag w job i)
          h in
      inl (ap some (sym e), omega arith)
  move-hand disk (storing bytes i etag) y k h = absurd (cc)
  move-hand disk (failing message) y k h = absurd (cc)
  move-hand disk returned y k h = absurd (cc)

  move-counts :
      (disk : Disk State) (x : Worker) (y : Shared State) → y.next ≤ (move w job disk x y).1.next
  unfolding move fail_with
  move-counts disk opening y = elim (Option-cases (w.read_file job.path y.state)) [
    | inl e ↦ rw (e, move) (omega arith)
    | inr (bytes, e) ↦ rw (e, move) (omega arith)
  ]
  move-counts disk (fetching bytes) y = omega arith
  move-counts disk (testing bytes i) y = omega arith
  move-counts disk (sending bytes i) y = omega arith
  move-counts disk (storing bytes i etag) y = omega arith
  move-counts disk (failing message) y = omega arith
  move-counts disk returned y = omega arith

  module _ (disk : Disk State) (p : Pool w job) (v : Exclusive p) (i : ℕ) (x : Worker)
      (at : get_elem? p.workers i ≡ some x) where
    abbrev x' : Worker
    x' = (move w job disk x p.shared).0

    abbrev y' : Shared State
    y' = (move w job disk x p.shared).1

    at-set :
        (j : ℕ)
        → get_elem? (set p.workers i x') j ≡ (if i == j then some x' else get_elem? p.workers j)
    at-set j = get_elem?-set p.workers i j x' (get_elem?-lt p.workers i x at)

    -- The thread at a place behind the step: the one that moved, or one that did not.
    who :
        (j : ℕ) (z : Worker)
        → get_elem? (set p.workers i x') j ≡ some z
        → ((i ≡ j) × (x' ≡ z)) ⊎ (get_elem? p.workers j ≡ some z)
    who j z h = elim (Bool-cases (i == j)) [
      | inl e ↦ let h' = rw (at-set j, e) at h in inl ((==_iff i j).0 e, cc)
      | inr e ↦ inr (rw (at-set j, e) at h)
    ]

    below-set :
        (j : ℕ) (z : Worker) (k : ℕ)
        → get_elem? (set p.workers i x') j ≡ some z
        → in_hand z ≡ some k
        → k < y'.next
    below-set j z k h q = elim (who j z h) [
      | inl (e, same) ↦ elim (move-hand disk x p.shared k (ap in_hand same ∙ q)) [
        | inl (had, up) ↦ omega (arith, v.below i x k at had)
        | inr (fresh, up) ↦ omega arith
      ]
      | inr old ↦ omega (arith, v.below j z k old q, move-counts disk x p.shared)
    ]

    -- The thread that moved and another.
    apart :
        (k : ℕ) (z : Worker) (n : ℕ)
        → get_elem? p.workers k ≡ some z
        → in_hand x' ≡ some n
        → in_hand z ≡ some n
        → i ≡ k
    apart k z n old a b = elim (move-hand disk x p.shared n a) [
      | inl (had, up) ↦ v.one i k x z n at old had b
      | inr (fresh, up) ↦ absurd (omega (arith, v.below k z n old b))
    ]

    one-set :
        (j k : ℕ) (z z' : Worker) (n : ℕ)
        → get_elem? (set p.workers i x') j ≡ some z
        → get_elem? (set p.workers i x') k ≡ some z'
        → in_hand z ≡ some n
        → in_hand z' ≡ some n
        → j ≡ k
    one-set j k z z' n a b q r = elim (who j z a) [
      | inl (e, same) ↦ elim (who k z' b) [
        | inl (e', same') ↦ sym e ∙ e'
        | inr old' ↦ sym e ∙ apart k z' n old' (ap in_hand same ∙ q) r
      ]
      | inr old ↦ elim (who k z' b) [
        | inl (e', same') ↦ sym (sym e' ∙ apart j z n old (ap in_hand same' ∙ r) q)
        | inr old' ↦ v.one j k z z' n old old' q r
      ]
    ]

  turn-Exclusive :
      (disk : Disk State) (i : ℕ) (p : Pool w job) → Exclusive p → Exclusive (turn w job disk i p)
  unfolding turn
  turn-Exclusive disk i p v = elim (Option-cases (get_elem? p.workers i)) [
    | inl e ↦ rw (turn, e) v
    | inr (x, e) ↦
        rw (turn, e) (record { below = below-set disk p v i x e; one = one-set disk p v i x e })
  ]

  start-Exclusive :
      (threads : ℕ) (c : Client) (s : State) → Exclusive (start_pool w job threads c s)
  start-Exclusive threads c s = record {
    below = λ j x i h q. absurd (idle threads j x i h q);
    one = λ j k x z i h h' q r. absurd (idle threads j x i h q);
  }
    where
      idle :
          (n j : ℕ) (x : Worker) (i : ℕ)
          → get_elem? (replicate n opening) j ≡ some x
          → in_hand x ≡ some i
          → ⊥
      idle zero j x i h q = cc
      idle (suc n) zero x i h q = let e = ap in_hand (opening-only h) ∙ q in cc
      idle (suc n) (suc j) x i h q = idle n j x i h q

  Reach-Exclusive :
      (disk : Disk State) (p : Pool w job) {q : Pool w job}
      → Exclusive p
      → Reach w job disk p q
      → Exclusive q
  Reach-Exclusive disk p v here = v
  Reach-Exclusive disk p v (later {q} i r) = turn-Exclusive disk i q (Reach-Exclusive disk p v r)

  -- In every state that the threads of an upload can get to, no two of them have the same part in
  -- hand: a part is sent by one thread only, and no two write the same element of part_etags.
  pub one_thread-per-part :
      (disk : Disk State) (threads : ℕ) (c : Client) (s : State) (p : Pool w job) (j k : ℕ)
      (x z : Worker) (i : ℕ)
      → Reach w job disk (start_pool w job threads c s) p
      → get_elem? p.workers j ≡ some x
      → get_elem? p.workers k ≡ some z
      → in_hand x ≡ some i
      → in_hand z ≡ some i
      → j ≡ k
  one_thread-per-part disk threads c s p j k x z i r =
      (Reach-Exclusive disk (start_pool w job threads c s) (start-Exclusive threads c s) r).one j k
        x z i
