-- ===== src/PutDirectory/Tally.antt =====
-- What the threads of put_directory have reported, in every interleaving.
use nanos3reader.Prelude.{
  ℕ, zero, suc, ◌+◌, ◌≤◌, ◌<◌, ◌≡◌, refl, sym, ap, ◌∙◌, inl, inr, none, some, List, [], ◌∷◌, arith,
  if◌then◌else◌, Option-cases, length, get_elem?, take, All, take-all,
}
use nanos3reader.Text.{Text, is_empty}
use nanos3reader.Result.{Result, ok, err}
use nanos3reader.World.{World}
use nanos3reader.Client.Calls.{Client, Done}
use nanos3reader.Multipart.{word64}
use nanos3reader.PutFile.Source.{FileUploadOptions, Disk}
use nanos3reader.PutFile.Whole.{Run, finished, length_error, cut_off, put_file}
use nanos3reader.PutDirectory.Items.{Item}
use nanos3reader.PutDirectory.Threads.{
  FileUploadResult, DirectoryUploadStats, Sender, fetching, sending, reporting, returned, Shared,
  file_result, count_result, keep_error, report, sent, move,
}

-- The file of a report.
abbrev pub item_of : FileUploadResult → Item
item_of r = record { path = r.path; uri = r.uri; size = r.bytes }

-- The sum of a measure over the files, and over those reported. Two lists of files with the same sums
-- for every measure hold the same files, each as often.
unfoldable pub item_sum : (Item → ℕ) → List Item → ℕ
item_sum f [] = 0
item_sum f (x ∷ xs) = f x + item_sum f xs

unfoldable pub report_sum : (FileUploadResult → ℕ) → List FileUploadResult → ℕ
report_sum f [] = 0
report_sum f (r ∷ rs) = f r + report_sum f rs

-- The error of the failure that was reported first, or no text.
unfoldable pub earliest_error : List FileUploadResult → Text
earliest_error [] = []
earliest_error (r ∷ rs) =
    let earlier = earliest_error rs in
    if is_empty earlier then (if r.ok then [] else r.error) else earlier

-- The counters say what the reports say.
pub record Tallied (reports : List FileUploadResult) (stats : DirectoryUploadStats)
    (first_error : Text) : Type 0 where
  pub files : stats.files ≡ report_sum (λ r. if r.ok then 1 else 0) reports
  pub failed : stats.failed ≡ report_sum (λ r. if r.ok then 0 else 1) reports
  pub bytes : stats.bytes ≡ word64 (report_sum (λ r. if r.ok then r.bytes else 0) reports)
  pub error : first_error ≡ earliest_error reports

-- The part of a measure that the file in a thread's hands has.
abbrev pub in_hands : (Item → ℕ) → Sender → ℕ
in_hands f fetching = 0
in_hands f (sending item) = f item
in_hands f (reporting result) = f (item_of result)
in_hands f returned = 0

item_sum-take :
    (f : Item → ℕ) (xs : List Item) (n : ℕ) (x : Item)
    → get_elem? xs n ≡ some x
    → item_sum f (take (suc n) xs) ≡ item_sum f (take n xs) + f x
unfolding item_sum
item_sum-take f [] n x h = absurd (cc)
item_sum-take f (z ∷ xs) zero x h = let same : z ≡ x = cc in rw same (omega arith)
item_sum-take f (z ∷ xs) (suc n) x h = omega (arith, item_sum-take f xs n x h)

take-none : (xs : List Item) (n : ℕ) → get_elem? xs n ≡ none → take n xs ≡ xs
take-none [] zero h = refl
take-none [] (suc n) h = refl
take-none (x ∷ xs) zero h = absurd (cc)
take-none (x ∷ xs) (suc n) h = ap (◌∷◌ x) (take-none xs n h)

get_elem?-none_le : (xs : List Item) (n : ℕ) → get_elem? xs n ≡ none → length xs ≤ n
get_elem?-none_le [] n h = omega arith
get_elem?-none_le (x ∷ xs) zero h = absurd (cc)
get_elem?-none_le (x ∷ xs) (suc n) h = omega (arith, get_elem?-none_le xs n h)

count_result-Tallied :
    (reports : List FileUploadResult) (stats : DirectoryUploadStats) (first_error : Text)
    (r : FileUploadResult)
    → Tallied reports stats first_error
    → Tallied (r ∷ reports) (count_result r stats) (keep_error r first_error)
unfolding count_result keep_error report_sum earliest_error
count_result-Tallied reports stats first_error r t = record {
  files = ground arith;
  failed = ground arith;
  bytes = ground arith;
  error = ground arith;
}

item_of-file_result : (item : Item) (r : Result Text) → item_of (file_result item r) ≡ item
unfolding file_result
item_of-file_result item (ok etag) = refl
item_of-file_result item (err e) = refl

module _ (w : World) (choose : Item → ℕ → ℕ) (disk : Disk w.State) (options : FileUploadOptions)
    (items : List Item) where
  open w use {State}

  -- A report of what one call of put_file for a file came to.
  abbrev pub FromPutFile : FileUploadResult → Type 0
  FromPutFile r =
      (item : Item) × (c : Client) × (s : State) × (d : Done (Result Text) State) × (put_file w
          (choose item) disk c item.uri item.path options s
        ≡ finished d)
      × (r ≡ file_result item d.result)

  abbrev pub Good : Sender → Type 0
  Good (reporting r) = FromPutFile r
  Good x = zero ≡ zero

  -- What one step does to all of this.
  pub record Moved (x : Sender) (y : Shared State) (x' : Sender) (y' : Shared State) : Type 0 where
    pub tallied : Tallied y'.reports y'.stats y'.first_error
    pub from : All FromPutFile y'.reports
    pub good : Good x'
    pub kept :
        (f : Item → ℕ)
        → report_sum (λ r. f (item_of r)) y'.reports
            + in_hands f x'
            + item_sum f (take y.next items)
          ≡ report_sum (λ r. f (item_of r)) y.reports
            + in_hands f x
            + item_sum f (take y'.next items)
    pub past : x' ≡ returned → length items < y'.next
    pub counts : y.next ≤ y'.next

  -- Of a step that does not end the program.
  abbrev pub Fine : Sender → Shared State → Run (Sender × Shared State) → Type 0
  Fine x y (finished (x', y')) = Moved x y x' y'
  Fine x y length_error = zero ≡ zero
  Fine x y cut_off = zero ≡ zero

  reported :
      (f : Item → ℕ) (r : FileUploadResult) (y : Shared State)
      → report_sum (λ r. f (item_of r)) (r ∷ y.reports) + 0 + item_sum f (take y.next items)
        ≡ report_sum (λ r. f (item_of r)) y.reports + f (item_of r) + item_sum f (take y.next items)
  unfolding report_sum
  reported f r y = omega arith

  sent-Fine :
      (item : Item) (y : Shared State) (r : Run (Done (Result Text) State))
      → Tallied y.reports y.stats y.first_error
      → All FromPutFile y.reports
      → put_file w (choose item) disk y.client item.uri item.path options y.state ≡ r
      → Fine (sending item) y (sent w choose disk options items item y r)
  sent-Fine item y (finished d) t a e = record {
    tallied = t;
    from = a;
    good = (item, y.client, y.state, d, e, refl);
    kept = λ f. rw (item_of-file_result item d.result) refl;
    past = λ q. absurd (cc);
    counts = omega arith;
  }
  sent-Fine item y length_error t a e = refl
  sent-Fine item y cut_off t a e = refl

  pub move-Fine :
      (x : Sender) (y : Shared State)
      → Tallied y.reports y.stats y.first_error
      → All FromPutFile y.reports
      → Good x
      → (x ≡ returned → length items < y.next)
      → Fine x y (move w choose disk options items x y)
  unfolding move report
  move-Fine fetching y t a g past = elim (Option-cases (get_elem? items y.next)) [
    | inl e ↦
        let few = get_elem?-none_le items y.next e in
        let all : take (y.next + 1) items ≡ take y.next items =
          take-all (y.next + 1) items (omega arith) ∙ sym (take-none items y.next e) in
        rw (e, move)
          (record {
            tallied = t;
            from = a;
            good = refl;
            kept = λ f. rw all refl;
            past = λ q. omega arith;
            counts = omega arith;
          })
    | inr (item, e) ↦
        let more : y.next + 1 ≡ suc y.next = omega arith in
        rw (e, move)
          (record {
            tallied = t;
            from = a;
            good = refl;
            kept = λ f. rw more (omega (arith, item_sum-take f items y.next item e));
            past = λ q. absurd (cc);
            counts = omega arith;
          })
  ]
  move-Fine (sending item) y t a g past =
      sent-Fine item y (put_file w (choose item) disk y.client item.uri item.path options y.state) t
        a refl
  move-Fine (reporting r) y t a g past = record {
    tallied = count_result-Tallied y.reports y.stats y.first_error r t;
    from = (g, a);
    good = refl;
    kept = λ f. reported f r y;
    past = λ q. absurd (cc);
    counts = omega arith;
  }
  move-Fine returned y t a g past = record {
    tallied = t;
    from = a;
    good = refl;
    kept = λ f. refl;
    past = λ q. past refl;
    counts = omega arith;
  }
