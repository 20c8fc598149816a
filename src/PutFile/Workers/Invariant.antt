-- ===== src/PutFile/Workers/Invariant.antt =====
-- What holds of the threads and of the variables that they share, in every interleaving.
use nanos3reader.Prelude.{
  ℕ, zero, ◌≤◌, ◌<◌, ◌≡◌, refl, sym, ap, ◌∙◌, subst, ◌⊎◌, inl, inr, Bool, true, false, not, some,
  [], ◌∷◌, ◌++◌, arith, leb, ◌==◌, if◌then◌else◌, leb→le, ==_iff, Bool-cases, Option-cases, length,
  get_elem?, set, length-set, get_elem?-set,
}
use nanos3reader.Text.{Text, is_empty, codes}
use nanos3reader.Result.{Result, ok, err, ◌>>=◌}
use nanos3reader.Uri.{Config}
use nanos3reader.World.{World}
use nanos3reader.Client.Calls.{Client, exchange}
use nanos3reader.Client.Replies.{exchange-cfg}
use nanos3reader.PutFile.Source.{Disk}
use nanos3reader.PutFile.Accepted.{empty-append, Told}
use nanos3reader.PutFile.Workers.{
  Shared, Job, opening, fetching, testing, sending, storing, failing, returned, Worker, fail_with,
  part_etag, part_request, behind, move,
}
use nanos3reader.PutFile.Workers.Sent.{Sent, exchange-Sent, part-Told}

module _ (w : World) (job : Job) (cfg : Config) where
  open w use {State, read_file}
  open job use {uri, path, target, options, id_query, size, part_size, parts}

  -- The bytes are those of the file when it was opened.
  abbrev pub Opened : Text → Type 0
  Opened bytes = (s : State) × (read_file path s ≡ some bytes)

  -- What the locals of a thread say.
  abbrev pub Good : Shared State → Worker → Type 0
  Good y opening = zero ≡ zero
  Good y (fetching bytes) = Opened bytes
  Good y (testing bytes i) = Opened bytes × (i < y.next)
  Good y (sending bytes i) = Opened bytes × (i < parts)
  Good y (storing bytes i etag) = Opened bytes × (i < parts) × Sent w job cfg i etag
  Good y (failing message) = is_empty message ≡ false
  Good y returned = (y.failed ≡ true) ⊎ (parts < y.next)

  -- The thread has the part in hand, or is about to report a failure.
  abbrev pub Holds : ℕ → Worker → Type 0
  Holds k (testing bytes i) = k ≡ i
  Holds k (sending bytes i) = k ≡ i
  Holds k (storing bytes i etag) = k ≡ i
  Holds k (failing message) = zero ≡ zero
  Holds k x = ⊥

  -- The place of a part has the ETag of a request that sent it.
  abbrev pub Slot : ℕ → Shared State → Type 0
  Slot k y = (etag : Text) × (get_elem? y.part_etags k ≡ some etag) × Sent w job cfg k etag

  pub record IsSound (y : Shared State) : Type 0 where
    pub same : y.client.cfg ≡ cfg
    pub places : length y.part_etags ≡ parts
    pub told : y.failed ≡ not (is_empty y.first_error)

  -- What one step of a thread does to all of this.
  pub record Moved (x : Worker) (y : Shared State) (x' : Worker) (y' : Shared State) : Type 0 where
    pub sound : IsSound y'
    pub counts : y.next ≤ y'.next
    pub fails : y.failed ≡ true → y'.failed ≡ true
    pub good : Good y' x'
    pub keeps : (k : ℕ) → Slot k y → Slot k y'
    pub carries : (k : ℕ) → k < parts → Holds k x → Slot k y' ⊎ (Holds k x' ⊎ (y'.failed ≡ true))
    pub takes : (k : ℕ) → y.next ≤ k → k < y'.next → Holds k x'

  -- A step that leaves what is shared as it was.
  still :
      (x x' : Worker) (y : Shared State)
      → IsSound y
      → Good y x'
      → ((k : ℕ) → k < parts → Holds k x → Slot k y ⊎ (Holds k x' ⊎ (y.failed ≡ true)))
      → Moved x y x' y
  still x x' y v good carries = record {
    sound = v;
    counts = omega arith;
    fails = λ h. h;
    good = good;
    keeps = λ k h. h;
    carries = carries;
    takes = λ k h l. absurd (omega arith);
  }

  abbrev After : Disk State → Worker → Shared State → Type 0
  After disk x y = Moved x y (move w job disk x y).0 (move w job disk x y).1

  move-opening : (disk : Disk State) (y : Shared State) → IsSound y → After disk opening y
  unfolding move
  move-opening disk y v = elim (Option-cases (read_file path y.state)) [
    | inl e ↦
        rw (e, move)
          (still opening (failing (path ++ (codes ": " ++ disk.open_error path y.state))) y v
            (empty-append path _ refl) (λ k l h. absurd h))
    | inr (bytes, e) ↦
        rw (e, move) (still opening (fetching bytes) y v (y.state, e) (λ k l h. absurd h))
  ]

  move-fetching :
      (disk : Disk State) (bytes : Text) (y : Shared State)
      → IsSound y
      → Opened bytes
      → After disk (fetching bytes) y
  unfolding move
  move-fetching disk bytes y v o = record {
    sound = record { same = v.same; places = v.places; told = v.told };
    counts = omega arith;
    fails = λ h. h;
    good = (o, omega arith);
    keeps = λ k h. h;
    carries = λ k l h. absurd h;
    takes = λ k h l. omega arith;
  }

  tested :
      (bytes : Text) (i : ℕ) (y : Shared State)
      → IsSound y
      → Opened bytes
      → i < parts
      → (b : Bool) → y.failed ≡ b
      → Moved (testing bytes i) y (if b then returned else sending bytes i) y
  tested bytes i y v o l true f =
      still (testing bytes i) returned y v (inl f) (λ k m q. inr (inr f))
  tested bytes i y v o l false f =
      still (testing bytes i) (sending bytes i) y v (o, l) (λ k m q. inr (inl q))

  move-testing :
      (disk : Disk State) (bytes : Text) (i : ℕ) (y : Shared State)
      → IsSound y
      → Opened bytes
      → i < y.next
      → After disk (testing bytes i) y
  unfolding move
  move-testing disk bytes i y v o h = elim (Bool-cases (leb parts i)) [
    | inl e ↦
        let past = leb→le parts i e in
        rw (move, e)
          (still (testing bytes i) returned y v (inr (omega arith)) (λ k l q. absurd (omega arith)))
    | inr e ↦ rw (move, e) (tested bytes i y v o (ground arith) y.failed refl)
  ]

  behind-Good :
      (c : Client) (s : State) (y : Shared State) (bytes : Text) (i : ℕ) (r : Result Text)
      → c.cfg ≡ cfg
      → Opened bytes
      → i < parts
      → r ≡ ((exchange w c (part_request w job bytes i) s).result >>= part_etag w job i)
      → Good y (behind w job bytes i r)
  behind-Good c s y bytes i (ok etag) same o l e =
      (o, l, exchange-Sent w job cfg c s o.0 bytes etag i same o.1 (sym e))
  behind-Good c s y bytes i (err message) same o l e =
      subst Told (sym e) (part-Told w job cfg c s bytes i same)

  behind-Holds :
      (bytes : Text) (i : ℕ) (r : Result Text) (k : ℕ) → k ≡ i → Holds k (behind w job bytes i r)
  behind-Holds bytes i (ok etag) k h = h
  behind-Holds bytes i (err message) k h = refl

  move-sending :
      (disk : Disk State) (bytes : Text) (i : ℕ) (y : Shared State)
      → IsSound y
      → Opened bytes
      → i < parts
      → After disk (sending bytes i) y
  unfolding move
  move-sending disk bytes i y v o l =
      let r =
        (exchange w y.client (part_request w job bytes i) y.state).result >>= part_etag w job i in
      let y' = (move w job disk (sending bytes i) y).1 in
      record {
        sound = record {
          same = exchange-cfg w y.client (part_request w job bytes i) y.state ∙ v.same;
          places = v.places;
          told = v.told;
        };
        counts = omega arith;
        fails = λ h. h;
        good = behind-Good y.client y.state y' bytes i r v.same o l refl;
        keeps = λ k h. h;
        carries = λ k m h. inr (inl (behind-Holds bytes i r k h));
        takes = λ k h m. absurd (omega arith);
      }

  -- A place that is written has this ETag, and the others keep theirs.
  Slot-set :
      (y : Shared State) (i k : ℕ) (etag : Text)
      → i < length y.part_etags
      → Sent w job cfg i etag
      → Slot k y
      → Slot k (record y { part_etags = set y.part_etags i etag })
  Slot-set y i k etag l sent (old, at, was) = elim (Bool-cases (i == k)) [
    | inl e ↦
        let same : i ≡ k = (==_iff i k).0 e in
        (
          etag,
          rw (get_elem?-set y.part_etags i k etag l, e) refl,
          subst (λ (j : ℕ). Sent w job cfg j etag) same sent,
        )
    | inr e ↦ (old, rw (get_elem?-set y.part_etags i k etag l, e) at, was)
  ]

  move-storing :
      (disk : Disk State) (bytes : Text) (i : ℕ) (etag : Text) (y : Shared State)
      → IsSound y
      → Opened bytes
      → i < parts
      → Sent w job cfg i etag
      → After disk (storing bytes i etag) y
  unfolding move
  move-storing disk bytes i etag y v o l sent =
      let place : i < length y.part_etags = omega (arith, v.places) in
      record {
        sound = record {
          same = v.same;
          places = length-set y.part_etags i etag ∙ v.places;
          told = v.told;
        };
        counts = omega arith;
        fails = λ h. h;
        good = o;
        keeps = λ k h. Slot-set y i k etag place sent h;
        carries = λ k m h. inl (
          etag,
          rw (get_elem?-set y.part_etags i k etag place, (==_iff i k).1 (sym h)) refl,
          subst (λ (j : ℕ). Sent w job cfg j etag) (sym h) sent,
        );
        takes = λ k h m. absurd (omega arith);
      }

  told_by :
      (message old : Text)
      → is_empty message ≡ false
      → true ≡ not (is_empty (if is_empty old then message else old))
  told_by message [] full = sym (ap not full)
  told_by message (c ∷ old) full = refl

  move-failing :
      (disk : Disk State) (message : Text) (y : Shared State)
      → IsSound y
      → is_empty message ≡ false
      → After disk (failing message) y
  unfolding move fail_with
  move-failing disk message y v full = record {
    sound = record { same = v.same; places = v.places; told = told_by message y.first_error full };
    counts = omega arith;
    fails = λ h. refl;
    good = inl refl;
    keeps = λ k h. h;
    carries = λ k l h. inr (inr refl);
    takes = λ k h l. absurd (omega arith);
  }

  pub move-Moved :
      (disk : Disk State) (x : Worker) (y : Shared State) → IsSound y → Good y x → After disk x y
  unfolding move
  move-Moved disk opening y v g = move-opening disk y v
  move-Moved disk (fetching bytes) y v g = move-fetching disk bytes y v g
  move-Moved disk (testing bytes i) y v g = move-testing disk bytes i y v g.0 g.1
  move-Moved disk (sending bytes i) y v g = move-sending disk bytes i y v g.0 g.1
  move-Moved disk (storing bytes i etag) y v g = move-storing disk bytes i etag y v g.0 g.1 g.2
  move-Moved disk (failing message) y v g = move-failing disk message y v g
  move-Moved disk returned y v g = still returned returned y v g (λ k l h. absurd h)
