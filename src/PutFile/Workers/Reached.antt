-- ===== src/PutFile/Workers/Reached.antt =====
-- The invariant of the pool of threads in every state that an interleaving leads to.
use nanos3reader.Prelude.{
  ℕ, ◌≤◌, ◌<◌, ◌≡◌, refl, subst, ◌⊎◌, inl, inr, true, some, List, arith, ltb, ◌==◌, if◌then◌else◌,
  ltb→lt, ==_iff, Bool-cases, Option-cases, get_elem?, set, get_elem?-set, get_elem?-lt,
}
use nanos3reader.Uri.{Config}
use nanos3reader.World.{World}
use nanos3reader.PutFile.Source.{Disk}
use nanos3reader.PutFile.Workers.{
  Shared, Pool, Job, opening, fetching, testing, sending, storing, failing, returned, here, later,
  Worker, move, turn, Reach,
}
use nanos3reader.PutFile.Workers.Invariant.{IsSound, Moved, Good, Holds, Slot, move-Moved}

module _ (w : World) (job : Job) (cfg : Config) where
  open w use {State}
  open job use {parts}

  -- A thread that has the part in hand.
  abbrev pub Holder : ℕ → List Worker → Type 0
  Holder k workers = (j : ℕ) × (x : Worker) × (get_elem? workers j ≡ some x) × Holds w job cfg k x

  -- No part is lost: those that were handed out have their ETag or a thread that works on them, unless
  -- the upload has failed.
  pub record Inv (p : Pool w job) : Type 0 where
    pub sound : IsSound w job cfg p.shared
    pub good : (j : ℕ) (x : Worker) → get_elem? p.workers j ≡ some x → Good w job cfg p.shared x
    pub handled :
        (k : ℕ)
        → k < parts
        → k < p.shared.next
        → Slot w job cfg k p.shared ⊎ (Holder k p.workers ⊎ (p.shared.failed ≡ true))

  Good-later :
      (y y' : Shared State) (x : Worker)
      → y.next ≤ y'.next
      → (y.failed ≡ true → y'.failed ≡ true)
      → Good w job cfg y x
      → Good w job cfg y' x
  Good-later y y' opening h f g = g
  Good-later y y' (fetching bytes) h f g = g
  Good-later y y' (testing bytes i) h f g = (g.0, omega arith)
  Good-later y y' (sending bytes i) h f g = g
  Good-later y y' (storing bytes i etag) h f g = g
  Good-later y y' (failing message) h f g = g
  Good-later y y' returned h f (inl g) = inl (f g)
  Good-later y y' returned h f (inr g) = inr (omega arith)

  module _ (p : Pool w job) (v : Inv p) (i : ℕ) (x x' : Worker) (y' : Shared State)
      (at : get_elem? p.workers i ≡ some x) (m : Moved w job cfg x p.shared x' y') where
    abbrev moved : List Worker
    moved = set p.workers i x'

    at-moved : (j : ℕ) → get_elem? moved j ≡ (if i == j then some x' else get_elem? p.workers j)
    at-moved j = get_elem?-set p.workers i j x' (get_elem?-lt p.workers i x at)

    mover-moved : get_elem? moved i ≡ some x'
    mover-moved = rw (at-moved i, (==_iff i i).1 refl) refl

    Good-moved : (j : ℕ) (z : Worker) → get_elem? moved j ≡ some z → Good w job cfg y' z
    Good-moved j z h = elim (Bool-cases (i == j)) [
      | inl e ↦
          let h' = rw (at-moved j, e) at h in
          let same : x' ≡ z = cc in subst (Good w job cfg y') same m.good
      | inr e ↦
          let h' = rw (at-moved j, e) at h in
          Good-later p.shared y' z m.counts m.fails (v.good j z h')
    ]

    Holder-moved :
        (k : ℕ)
        → k < parts
        → Holder k p.workers
        → Slot w job cfg k y' ⊎ (Holder k moved ⊎ (y'.failed ≡ true))
    Holder-moved k l (j, z, there, holds) = elim (Bool-cases (i == j)) [
      | inl e ↦
          let e' : i ≡ j = (==_iff i j).0 e in
          let same : z ≡ x = cc in
          elim (m.carries k l (subst (Holds w job cfg k) same holds)) [
            | inl slot ↦ inl slot
            | inr (inl mine) ↦ inr (inl (i, x', mover-moved, mine))
            | inr (inr failed) ↦ inr (inr failed)
          ]
      | inr e ↦ inr (inl (j, z, rw (at-moved j, e) there, holds))
    ]

    moved-Inv : Inv (record { workers = moved; shared = y' })
    moved-Inv = record {
      sound = m.sound;
      good = Good-moved;
      handled = λ k l h. elim (Bool-cases (ltb k p.shared.next)) [
        | inl e ↦ elim (v.handled k l (ltb→lt k p.shared.next e)) [
          | inl slot ↦ inl (m.keeps k slot)
          | inr (inl holder) ↦ Holder-moved k l holder
          | inr (inr failed) ↦ inr (inr (m.fails failed))
        ]
        | inr e ↦ inr (inl (i, x', mover-moved, m.takes k (ground arith) h))
      ];
    }

  turn-Inv : (disk : Disk State) (i : ℕ) (p : Pool w job) → Inv p → Inv (turn w job disk i p)
  unfolding turn
  turn-Inv disk i p v = elim (Option-cases (get_elem? p.workers i)) [
    | inl e ↦ rw (turn, e) v
    | inr (x, e) ↦
        rw (turn, e)
          (moved-Inv p v i x (move w job disk x p.shared).0 (move w job disk x p.shared).1 e
            (move-Moved w job cfg disk x p.shared v.sound (v.good i x e)))
  ]

  -- The invariant holds in every state that an interleaving leads to.
  pub Reach-Inv :
      (disk : Disk State) (p : Pool w job) {q : Pool w job} → Inv p → Reach w job disk p q → Inv q
  Reach-Inv disk p v here = v
  Reach-Inv disk p v (later {q} i r) = turn-Inv disk i q (Reach-Inv disk p v r)
