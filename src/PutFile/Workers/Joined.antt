-- ===== src/PutFile/Workers/Joined.antt =====
-- What the threads leave when all have returned.
use nanos3reader.Prelude.{
  ℕ, ◌<◌, ◌≡◌, refl, ◌∙◌, subst, ◌⊎◌, inl, inr, Bool, true, false, not, some, [], arith, Bool-cases,
  Option-cases, length, get_elem?, length-replicate, length-set, get_elem?-some,
}
use nanos3reader.Text.{Text, is_empty}
use nanos3reader.Uri.{Config}
use nanos3reader.World.{World}
use nanos3reader.Client.Calls.{Client}
use nanos3reader.PutFile.Source.{Disk}
use nanos3reader.Scheduler.{busy_from, busy_from-none, get_elem?-replicate}
use nanos3reader.PutFile.Workers.{
  Pool, Job, opening, fetching, testing, sending, storing, failing, returned, here, later, Worker,
  move, turn, Reach, is_returned, start_pool,
}
use nanos3reader.PutFile.Workers.Invariant.{IsSound, Good, Holds, Slot}
use nanos3reader.PutFile.Workers.Reached.{Inv, Reach-Inv}

module _ (w : World) (job : Job) where
  open w use {State}
  open job use {parts}

  start-Inv :
      (threads : ℕ) (c : Client) (s : State) → Inv w job c.cfg (start_pool w job threads c s)
  start-Inv threads c s = record {
    sound = record { same = refl; places = length-replicate parts []; told = refl };
    good = λ j x h.
        subst (Good w job c.cfg (start_pool w job threads c s).shared)
          (get_elem?-replicate threads j opening x h) refl;
    handled = λ k l h. absurd (omega arith);
  }

  turn-length :
      (disk : Disk State) (i : ℕ) (p : Pool w job)
      → length (turn w job disk i p).workers ≡ length p.workers
  unfolding turn
  turn-length disk i p = elim (Option-cases (get_elem? p.workers i)) [
    | inl e ↦ rw (turn, e) refl
    | inr (x, e) ↦ rw (turn, e) (length-set p.workers i (move w job disk x p.shared).0)
  ]

  Reach-length :
      (disk : Disk State) (p : Pool w job) {q : Pool w job}
      → Reach w job disk p q
      → length q.workers ≡ length p.workers
  Reach-length disk p here = refl
  Reach-length disk p (later {q} i r) = turn-length disk i q ∙ Reach-length disk p r

  is_returned-only : (x : Worker) → is_returned x ≡ true → x ≡ returned
  is_returned-only opening h = absurd (cc)
  is_returned-only (fetching bytes) h = absurd (cc)
  is_returned-only (testing bytes i) h = absurd (cc)
  is_returned-only (sending bytes i) h = absurd (cc)
  is_returned-only (storing bytes i etag) h = absurd (cc)
  is_returned-only (failing message) h = absurd (cc)
  is_returned-only returned h = refl

  told : (e : Text) (b : Bool) → b ≡ true → b ≡ not (is_empty e) → is_empty e ≡ false
  told e b h k = elim (Bool-cases (is_empty e)) [
    | inl q ↦ let k' = rw q at k in absurd (cc)
    | inr q ↦ q
  ]

  module _ (cfg : Config) (q : Pool w job) (v : Inv w job cfg q) (fine : q.shared.failed ≡ false)
      (done : busy_from is_returned 0 q.workers ≡ []) where
    idle : (j : ℕ) (x : Worker) → get_elem? q.workers j ≡ some x → x ≡ returned
    idle j x at = is_returned-only x (busy_from-none is_returned 0 q.workers j x done at)

    -- Some thread saw that all parts had been handed out.
    all_handed : 0 < length q.workers → parts < q.shared.next
    all_handed some_worker =
        let (x, at) = get_elem?-some q.workers 0 some_worker in
        elim (subst (Good w job cfg q.shared) (idle 0 x at) (v.good 0 x at)) [
          | inl f ↦ absurd (ground arith)
          | inr past ↦ past
        ]

    slots : 0 < length q.workers → (k : ℕ) → k < parts → Slot w job cfg k q.shared
    slots some_worker k l =
        let past = all_handed some_worker in
        elim (v.handled k l (omega arith)) [
          | inl slot ↦ slot
          | inr (inl (j, x, at, holds)) ↦ absurd (subst (Holds w job cfg k) (idle j x at) holds)
          | inr (inr f) ↦ absurd (ground arith)
        ]

  -- Whatever the interleaving of one thread or more: when all have returned, either an error with its
  -- text is kept, or each part has the ETag of a request that sent it and was answered by 200.
  pub Reach-joined :
      (disk : Disk State) (threads : ℕ) (c : Client) (s : State) (q : Pool w job)
      → 0 < threads
      → Reach w job disk (start_pool w job threads c s) q
      → busy_from is_returned 0 q.workers ≡ []
      → IsSound w job c.cfg q.shared
        × (((q.shared.failed ≡ true) × (is_empty q.shared.first_error ≡ false))
            ⊎ ((q.shared.failed ≡ false) × ((k : ℕ) → k < parts → Slot w job c.cfg k q.shared)))
  Reach-joined disk threads c s q some_thread r done =
      let v = Reach-Inv w job c.cfg disk (start_pool w job threads c s) (start-Inv threads c s) r in
      (
        v.sound,
        elim (Bool-cases q.shared.failed) [
          | inl f ↦ inl (f, told q.shared.first_error q.shared.failed f v.sound.told)
          | inr f ↦ inr (f, slots c.cfg q v f done some_worker)
        ],
      )
    where
      some_worker : 0 < length q.workers
      some_worker = omega (
        arith,
        Reach-length disk (start_pool w job threads c s) r,
        length-replicate {0} threads opening,
      )
