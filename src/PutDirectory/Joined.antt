-- ===== src/PutDirectory/Joined.antt =====
-- What the threads of put_directory leave when all have returned.
use nanos3reader.Prelude.{
  ℕ, zero, suc, ◌+◌, ◌<◌, ◌≡◌, refl, sym, ap, ◌∙◌, subst, ◌⊎◌, inl, inr, true, some, List, [], ◌∷◌,
  arith, ◌==◌, if◌then◌else◌, Bool-cases, Option-cases, length, get_elem?, take, set, All,
  length-set, take-all, get_elem?-set, get_elem?-lt, get_elem?-some,
}
use nanos3reader.World.{World}
use nanos3reader.Scheduler.{
  busy_from, busy_from-none, choice, choice-none, weights, weights-set, weights-replicate,
  get_elem?-replicate,
}
use nanos3reader.Client.Calls.{Client}
use nanos3reader.PutFile.Source.{FileUploadOptions, Disk}
use nanos3reader.PutFile.Whole.{Run, finished, length_error, cut_off}
use nanos3reader.PutFile.Whole.Uploaded.{Run-cases, finished-injective}
use nanos3reader.PutDirectory.Items.{Item}
use nanos3reader.PutDirectory.Threads.{
  Sender, fetching, sending, reporting, returned, Shared, Pool, Reach, here, later, is_returned,
  move, placed, turn, start_pool, join,
}
use nanos3reader.PutDirectory.Tally.{
  Tallied, Moved, item_of, item_sum, report_sum, earliest_error, in_hands, FromPutFile, Good, Fine,
  move-Fine,
}

module _ (w : World) (choose : Item → ℕ → ℕ) (disk : Disk w.State) (options : FileUploadOptions)
    (items : List Item) where
  open w use {State}

  abbrev Places : Type 0
  Places = Pool w choose disk options items

  -- Every file that was handed out has been reported, or a thread has it.
  pub record Inv (p : Pool w choose disk options items) : Type 0 where
    pub tallied : Tallied p.shared.reports p.shared.stats p.shared.first_error
    pub from : All (FromPutFile w choose disk options items) p.shared.reports
    pub good :
        (j : ℕ) (x : Sender) → get_elem? p.senders j ≡ some x → Good w choose disk options items x
    pub kept :
        (f : Item → ℕ)
        → report_sum (λ r. f (item_of r)) p.shared.reports + weights (in_hands f) p.senders
          ≡ item_sum f (take p.shared.next items)
    pub past : (j : ℕ) → get_elem? p.senders j ≡ some returned → length items < p.shared.next

  module _ (p : Places) (v : Inv p) (i : ℕ) (x x' : Sender) (y' : Shared State)
      (at : get_elem? p.senders i ≡ some x)
      (m : Moved w choose disk options items x p.shared x' y') where
    at-set :
        (j : ℕ)
        → get_elem? (set p.senders i x') j ≡ (if i == j then some x' else get_elem? p.senders j)
    at-set j = get_elem?-set p.senders i j x' (get_elem?-lt p.senders i x at)

    who :
        (j : ℕ) (z : Sender)
        → get_elem? (set p.senders i x') j ≡ some z
        → (x' ≡ z) ⊎ (get_elem? p.senders j ≡ some z)
    who j z h = elim (Bool-cases (i == j)) [
      | inl e ↦ let h' = rw (at-set j, e) at h in inl (cc)
      | inr e ↦ inr (rw (at-set j, e) at h)
    ]

    moved-Inv : Inv (record { senders = set p.senders i x'; shared = y' })
    moved-Inv = record {
      tallied = m.tallied;
      from = m.from;
      good = λ j z h. elim (who j z h) [
        | inl same ↦ subst (Good w choose disk options items) same m.good
        | inr old ↦ v.good j z old
      ];
      kept = λ f. omega (arith, m.kept f, v.kept f, weights-set (in_hands f) p.senders i x x' at);
      past = λ j h. elim (who j returned h) [
        | inl same ↦ m.past same
        | inr old ↦ omega (arith, v.past j old, m.counts)
      ];
    }

  placed-Inv :
      (i : ℕ) (p q : Places) (x : Sender) (r : Run (Sender × Shared State))
      → Inv p
      → get_elem? p.senders i ≡ some x
      → Fine w choose disk options items x p.shared r
      → placed w choose disk options items i p r ≡ finished q
      → Inv q
  placed-Inv i p q x (finished (x', y')) v at m h =
      let same = finished-injective h in subst Inv same (moved-Inv p v i x x' y' at m)
  placed-Inv i p q x length_error v at m h = absurd (cc)
  placed-Inv i p q x cut_off v at m h = absurd (cc)

  turn-Inv :
      (i : ℕ) (p q : Places) → Inv p → turn w choose disk options items i p ≡ finished q → Inv q
  unfolding turn
  turn-Inv i p q v h = elim (Option-cases (get_elem? p.senders i)) [
    | inl e ↦ let h' = rw (turn, e) at h in subst Inv (finished-injective h') v
    | inr (x, e) ↦
        placed-Inv i p q x (move w choose disk options items x p.shared) v e
          (move-Fine w choose disk options items x p.shared v.tallied v.from (v.good i x e)
            (λ same. v.past i (e ∙ ap some same)))
          (rw (turn, e) at h)
  ]

  Reach-Inv : (p : Places) {q : Places} → Inv p → Reach w choose disk options items p q → Inv q
  Reach-Inv p v here = v
  Reach-Inv p v (later {q} {r} i reached h) = turn-Inv i q r (Reach-Inv p v reached) h

  pub start-Inv :
      (threads : ℕ) (c : Client) (s : State)
      → Inv (start_pool w choose disk options items threads c s)
  unfolding report_sum earliest_error item_sum
  start-Inv threads c s = record {
    tallied = record { files = refl; failed = refl; bytes = refl; error = refl };
    from = tt;
    good = λ j x h.
        subst (Good w choose disk options items) (get_elem?-replicate threads j fetching x h) refl;
    kept = λ f. omega (arith, weights-replicate (in_hands f) threads fetching);
    past = λ j h. let bad = get_elem?-replicate threads j fetching returned h in absurd (cc);
  }

  -- Each file is reported once, by what a call of put_file for it came to, and the counters and the
  -- first error are those of the reports.
  pub record Reported (y : Shared State) : Type 0 where
    pub tallied : Tallied y.reports y.stats y.first_error
    pub from : All (FromPutFile w choose disk options items) y.reports
    pub once : (f : Item → ℕ) → report_sum (λ r. f (item_of r)) y.reports ≡ item_sum f items

  nothing_held :
      (f : Item → ℕ) (xs : List Sender)
      → ((j : ℕ) (x : Sender) → get_elem? xs j ≡ some x → x ≡ returned)
      → weights (in_hands f) xs ≡ 0
  unfolding weights
  nothing_held f [] h = refl
  nothing_held f (x ∷ xs) h =
      let e = h 0 x refl in rw e (omega (arith, nothing_held f xs (λ j z at. h (suc j) z at)))

  is_returned-only : (x : Sender) → is_returned x ≡ true → x ≡ returned
  is_returned-only fetching h = absurd (cc)
  is_returned-only (sending item) h = absurd (cc)
  is_returned-only (reporting r) h = absurd (cc)
  is_returned-only returned h = refl

  Inv-Reported :
      (p : Places)
      → Inv p
      → 0 < length p.senders
      → busy_from is_returned 0 p.senders ≡ []
      → Reported p.shared
  Inv-Reported p v some_thread done =
      let idle = λ (j : ℕ) (x : Sender) (at : get_elem? p.senders j ≡ some x).
        is_returned-only x (busy_from-none is_returned 0 p.senders j x done at) in
      let (x, at) = get_elem?-some p.senders 0 some_thread in
      let past = v.past 0 (at ∙ ap some (idle 0 x at)) in
      let all : take p.shared.next items ≡ items = take-all p.shared.next items (omega arith) in
      record {
        tallied = v.tallied;
        from = v.from;
        once = λ f. omega (arith, v.kept f, nothing_held f p.senders idle, ap (item_sum f) all);
      }

  turn-length :
      (i : ℕ) (p q : Places)
      → turn w choose disk options items i p ≡ finished q
      → length q.senders ≡ length p.senders
  unfolding turn
  turn-length i p q h = elim (Option-cases (get_elem? p.senders i)) [
    | inl e ↦
        let h' = rw (turn, e) at h in
        ap (λ (x : Places). length x.senders) (sym (finished-injective h'))
    | inr (x, e) ↦
        placed-length i p q (move w choose disk options items x p.shared) (rw (turn, e) at h)
  ]
    where
      placed-length :
          (i : ℕ) (p q : Places) (r : Run (Sender × Shared State))
          → placed w choose disk options items i p r ≡ finished q
          → length q.senders ≡ length p.senders
      placed-length i p q (finished (x', y')) h =
          ap (λ (x : Places). length x.senders) (sym (finished-injective h))
          ∙ length-set p.senders i x'
      placed-length i p q length_error h = absurd (cc)
      placed-length i p q cut_off h = absurd (cc)

  -- A join that finishes leaves all files reported.
  pub join-Reported :
      (fuel : ℕ) (order : ℕ → ℕ) (p q : Places)
      → Inv p
      → 0 < length p.senders
      → join w choose disk options items fuel order p ≡ finished q
      → Reported q.shared
  unfolding join
  join-Reported zero order p q v some_thread h = absurd (cc)
  join-Reported (suc fuel) order p q v some_thread h =
      elim (Option-cases (choice (busy_from is_returned 0 p.senders) (order fuel))) [
        | inl e ↦
            let h' = rw (join, e) at h in
            subst (λ (x : Places). Reported x.shared) (finished-injective h')
              (Inv-Reported p v some_thread
                (choice-none (busy_from is_returned 0 p.senders) (order fuel) e))
        | inr (i, e) ↦ elim (Run-cases (turn w choose disk options items i p)) [
          | inl (r, t) ↦
              join-Reported fuel order r q (turn-Inv i p r v t) (omega (arith, turn-length i p r t))
                (rw (join, e, t) at h)
          | inr (inl t) ↦ let bad = rw (join, e, t) at h in absurd (cc)
          | inr (inr t) ↦ let bad = rw (join, e, t) at h in absurd (cc)
        ]
      ]
