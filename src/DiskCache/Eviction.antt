-- ===== src/DiskCache/Eviction.antt =====
-- The eviction of the disk cache: it ends, keeps to the capacity, and spares the newest block.
use nanos3reader.Prelude.{
  ℕ, zero, suc, ◌+◌, ◌≤◌, ◌<◌, ◌≡◌, refl, sym, ap, ◌∙◌, subst, ◌⊎◌, inl, inr, Bool, true, false,
  Option, none, some, [], ◌∷◌, arith, ltb, leb, if◌then◌else◌, lt→ltb, leb→le, Bool-cases,
  Option-cases, All,
}
use nanos3reader.Text.{Text, text_eq}
use nanos3reader.Text.Find.{text_eq_iff}
use nanos3reader.DiskCache.{
  File, Files, find_file, remove_file, try_remove, is_block, scan, to_evict, evict_if_needed,
}

unfoldable pub count_blocks : Files → ℕ
count_blocks [] = 0
count_blocks (f ∷ fs) = if is_block f.name then count_blocks fs + 1 else count_blocks fs

pub text_eq_refl : (s : Text) → text_eq s s ≡ true
text_eq_refl s = (text_eq_iff s s).1 refl

scan-count : (fs : Files) (k : ℕ) (o : Option File) → (scan fs k o).0 ≡ k + count_blocks fs
unfolding scan count_blocks
scan-count [] k o = omega arith
scan-count (f ∷ fs) k o = elim (Bool-cases (is_block f.name)) [
  | inr e ↦ rw e (scan-count fs k o)
  | inl e ↦ rw e (scan-count fs (k + 1) _ ∙ omega arith)
]

-- The candidate after a block.
abbrev older_of : Option File → File → Option File
older_of none f = some f
older_of (some o) f = if ltb f.mtime o.mtime then some f else some o

scan-block :
    (f : File) (fs : Files) (k : ℕ) (o : Option File)
    → is_block f.name ≡ true
    → (scan (f ∷ fs) k o).1 ≡ (scan fs (k + 1) (older_of o f)).1
unfolding scan
scan-block f fs k none e = rw e refl
scan-block f fs k (some x) e = rw e refl

scan-other :
    (f : File) (fs : Files) (k : ℕ) (o : Option File)
    → is_block f.name ≡ false
    → (scan (f ∷ fs) k o).1 ≡ (scan fs k o).1
unfolding scan
scan-other f fs k o e = rw e refl

-- A candidate is there once a block has been seen.
scan-some : (fs : Files) (k : ℕ) (x : File) → (y : File) × ((scan fs k (some x)).1 ≡ some y)
unfolding scan
scan-some [] k x = (x, refl)
scan-some (f ∷ fs) k x = elim (Bool-cases (is_block f.name)) [
  | inr e ↦ rw e (scan-some fs k x)
  | inl e ↦ elim (Bool-cases (ltb f.mtime x.mtime)) [
    | inl q ↦ rw (e, q) (scan-some fs (k + 1) f)
    | inr q ↦ rw (e, q) (scan-some fs (k + 1) x)
  ]
]

module _ (Good : File → Type 0) where
  -- What holds of a candidate and of all files holds of the oldest.
  scan-Good :
      (fs : Files) (k : ℕ) (x y : File)
      → Good x
      → All Good fs
      → (scan fs k (some x)).1 ≡ some y
      → Good y
  unfolding scan
  scan-Good [] k x y g all e = subst Good (cc) g
  scan-Good (f ∷ fs) k x y g all e = elim (Bool-cases (is_block f.name)) [
    | inr b ↦ scan-Good fs k x y g all.1 (rw b at e)
    | inl b ↦ elim (Bool-cases (ltb f.mtime x.mtime)) [
      | inl q ↦ scan-Good fs (k + 1) f y all.0 all.1 (rw (b, q) at e)
      | inr q ↦ scan-Good fs (k + 1) x y g all.1 (rw (b, q) at e)
    ]
  ]

  -- The newest file is passed over for any other block.
  scan-newest :
      (fs : Files) (k : ℕ) (x y : File)
      → All Good fs
      → All (λ f. f.mtime < x.mtime) fs
      → 0 < count_blocks fs
      → (scan fs k (some x)).1 ≡ some y
      → Good y
  unfolding scan count_blocks
  scan-newest [] k x y all older some_block e = absurd (omega arith)
  scan-newest (f ∷ fs) k x y all older some_block e = elim (Bool-cases (is_block f.name)) [
    | inr b ↦ scan-newest fs k x y all.1 older.1 (rw b at some_block) (rw b at e)
    | inl b ↦
        let q : ltb f.mtime x.mtime ≡ true = lt→ltb _ _ older.0 in
        scan-Good fs (k + 1) f y all.0 all.1 (rw (b, q) at e)
  ]

-- Another block of that name, or the file found under it.
find_file-some :
    (name : Text) (fs : Files) (f : File) → find_file name fs ≡ some f → text_eq name f.name ≡ true
unfolding find_file
find_file-some name [] f e = absurd (cc)
find_file-some name (g ∷ fs) f e = elim (Bool-cases (text_eq name g.name)) [
  | inl q ↦ let same : g ≡ f = cc in subst (λ (h : File). text_eq name h.name ≡ true) same q
  | inr q ↦ find_file-some name fs f (rw q at e)
]

older_of-cases : (o : Option File) (f y : File) → older_of o f ≡ some y → (o ≡ some y) ⊎ (f ≡ y)
older_of-cases none f y e = inr (cc)
older_of-cases (some x) f y e = elim (Bool-cases (ltb f.mtime x.mtime)) [
  | inl q ↦ let e' = rw q at e in inr (cc)
  | inr q ↦ inl (rw q at e)
]

-- A block that the directory has under that name.
abbrev Present : File → Files → Type 0
Present y fs = (is_block y.name ≡ true) × (g : File) × (find_file y.name fs ≡ some g)

Present-cons : (y f : File) (fs : Files) → Present y fs → Present y (f ∷ fs)
unfolding find_file
Present-cons y f fs (b, g, q) = elim (Bool-cases (text_eq y.name f.name)) [
  | inl r ↦ (b, f, rw r refl)
  | inr r ↦ (b, g, rw r q)
]

Present-first : (y f : File) (fs : Files) → is_block f.name ≡ true → f ≡ y → Present y (f ∷ fs)
unfolding find_file
Present-first y f fs b e =
    subst (λ (z : File). Present z (f ∷ fs)) e (b, f, rw (text_eq_refl f.name) refl)

-- The oldest block is one of the files, or the candidate of the start.
scan-Present :
    (fs : Files) (k : ℕ) (o : Option File) (y : File)
    → (scan fs k o).1 ≡ some y
    → (o ≡ some y) ⊎ Present y fs
unfolding scan
scan-Present [] k o y e = inl e
scan-Present (f ∷ fs) k o y e = elim (Bool-cases (is_block f.name)) [
  | inr b ↦ elim (scan-Present fs k o y (sym (scan-other f fs k o b) ∙ e)) [
    | inl q ↦ inl q
    | inr q ↦ inr (Present-cons y f fs q)
  ]
  | inl b ↦ elim (scan-Present fs (k + 1) (older_of o f) y (sym (scan-block f fs k o b) ∙ e)) [
    | inr q ↦ inr (Present-cons y f fs q)
    | inl q ↦ elim (older_of-cases o f y q) [
      | inl r ↦ inl r
      | inr r ↦ inr (Present-first y f fs b r)
    ]
  ]
]

pub remove_file-fewer :
    (name : Text) (fs : Files) → count_blocks (remove_file name fs) ≤ count_blocks fs
unfolding remove_file count_blocks
remove_file-fewer name [] = omega arith
remove_file-fewer name (f ∷ fs) =
    let ih = remove_file-fewer name fs in
    elim (Bool-cases (text_eq name f.name)) [
      | inl q ↦ ground arith
      | inr q ↦ elim (Bool-cases (is_block f.name)) [ inl b ↦ ground arith | inr b ↦ ground arith ]
    ]

-- Removing a block that is there leaves fewer.
remove_file-less :
    (name : Text) (fs : Files) (g : File)
    → is_block name ≡ true
    → find_file name fs ≡ some g
    → count_blocks (remove_file name fs) < count_blocks fs
unfolding find_file remove_file count_blocks
remove_file-less name [] g b e = absurd (cc)
remove_file-less name (f ∷ fs) g b e = elim (Bool-cases (text_eq name f.name)) [
  | inl q ↦
      let same : is_block f.name ≡ true =
        subst (λ (n : Text). is_block n ≡ true) ((text_eq_iff name f.name).0 q) b in
      let few = remove_file-fewer name fs in rw (q, same) (omega arith)
  | inr q ↦
      let ih = remove_file-less name fs g b (rw q at e) in
      elim (Bool-cases (is_block f.name)) [ inl r ↦ rw (q, r) (omega arith) | inr r ↦ rw (q, r) ih ]
]

pub All-remove_file :
    (P : File → Type 0) (name : Text) (fs : Files) → All P fs → All P (remove_file name fs)
unfolding remove_file
All-remove_file P name [] all = all
All-remove_file P name (f ∷ fs) all =
    let ih = All-remove_file P name fs all.1 in
    elim (Bool-cases (text_eq name f.name)) [ inl q ↦ rw q ih | inr q ↦ rw q (all.0, ih) ]

-- No file is left under the name.
pub remove_file-absent :
    (name : Text) (fs : Files) → All (λ f. text_eq name f.name ≡ false) (remove_file name fs)
unfolding remove_file
remove_file-absent name [] = tt
remove_file-absent name (f ∷ fs) =
    let ih = remove_file-absent name fs in
    elim (Bool-cases (text_eq name f.name)) [ inl q ↦ rw q ih | inr q ↦ rw q (q, ih) ]

scan-none : (fs : Files) (k : ℕ) → (scan fs k none).1 ≡ none → count_blocks fs ≡ 0
unfolding scan count_blocks
scan-none [] k e = refl
scan-none (f ∷ fs) k e = elim (Bool-cases (is_block f.name)) [
  | inr b ↦ rw b (scan-none fs k (rw b at e))
  | inl b ↦ let (y, q) = scan-some fs (k + 1) f in let e' = rw b at e in absurd (cc)
]

to_evict-none :
    (max_blocks : ℕ) (fs : Files) → to_evict max_blocks fs ≡ none → count_blocks fs ≤ max_blocks
unfolding to_evict
to_evict-none max_blocks fs e = elim (Bool-cases (leb (scan fs 0 none).0 max_blocks)) [
  | inl q ↦ let few = leb→le _ _ q in omega (arith, scan-count fs 0 none)
  | inr q ↦ omega (arith, scan-none fs 0 (rw q at e))
]

to_evict-some :
    (max_blocks : ℕ) (fs : Files) (y : File)
    → to_evict max_blocks fs ≡ some y
    → (max_blocks < count_blocks fs) × ((scan fs 0 none).1 ≡ some y)
unfolding to_evict
to_evict-some max_blocks fs y e = elim (Bool-cases (leb (scan fs 0 none).0 max_blocks)) [
  | inl q ↦ let bad = rw q at e in absurd (cc)
  | inr q ↦ (ground (arith, scan-count fs 0 none), rw q at e)
]

text_eq_comm_false : (s t : Text) → text_eq s t ≡ false → text_eq t s ≡ false
text_eq_comm_false s t h = elim (Bool-cases (text_eq t s)) [
  | inr q ↦ q
  | inl q ↦ let same = (text_eq_iff s t).1 (sym ((text_eq_iff t s).0 q)) in absurd (cc)
]

-- A directory with a newest block: it is a block, no other file has its name, and all are older.
pub record HasNewest (b : File) (rest : Files) : Type 0 where
  pub block : is_block b.name ≡ true
  pub alone : All (λ f. text_eq b.name f.name ≡ false) rest
  pub newest : All (λ f. f.mtime < b.mtime) rest

HasNewest-remove_file :
    (name : Text) (b : File) (rest : Files) → HasNewest b rest → HasNewest b (remove_file name rest)
HasNewest-remove_file name b rest v = record {
  block = v.block;
  alone = All-remove_file _ name rest v.alone;
  newest = All-remove_file _ name rest v.newest;
}

-- The file to remove is another block than the newest, and is there.
to_evict-older :
    (max_blocks : ℕ) (b : File) (rest : Files) (y : File)
    → 0 < max_blocks
    → HasNewest b rest
    → to_evict max_blocks (b ∷ rest) ≡ some y
    → (text_eq y.name b.name ≡ false) × Present y rest
unfolding count_blocks find_file
to_evict-older max_blocks b rest y h v e =
    let (many, found) = to_evict-some max_blocks (b ∷ rest) y e in
    let found' = sym (scan-block b rest 0 none v.block) ∙ found in
    let block : is_block b.name ≡ true = v.block in
    let more = rw block at many in
    let others : 0 < count_blocks rest = omega arith in
    let apart =
      scan-newest (λ f. text_eq b.name f.name ≡ false) rest (0 + 1) b y v.alone v.newest others
        found' in
    let apart' = text_eq_comm_false b.name y.name apart in
    elim (scan-Present (b ∷ rest) 0 none y found) [
      | inl q ↦ absurd (cc)
      | inr (is_b, g, q) ↦ (apart', (is_b, g, rw apart' at q))
    ]

try_remove-other :
    (removes : Text → Bool) (name : Text) (b : File) (rest : Files)
    → removes name ≡ true
    → text_eq name b.name ≡ false
    → try_remove removes name (b ∷ rest) ≡ b ∷ remove_file name rest
unfolding remove_file
try_remove-other removes name b rest works apart = rw (works, apart) refl

-- With a newest block, room for one, and removals that work, the eviction ends with fuel for a round
-- per other block and one more. It leaves no more blocks than the capacity, and the newest is kept.
pub evict_if_needed-HasNewest :
    (fuel : ℕ) (removes : Text → Bool) (max_blocks : ℕ) (b : File) (rest : Files)
    → ((name : Text) → removes name ≡ true)
    → 0 < max_blocks
    → HasNewest b rest
    → count_blocks rest < fuel
    → (rest' : Files) × (evict_if_needed fuel removes max_blocks (b ∷ rest) ≡ some (b ∷ rest'))
      × (count_blocks (b ∷ rest') ≤ max_blocks)
unfolding evict_if_needed
evict_if_needed-HasNewest zero removes max_blocks b rest works h v enough = absurd (omega arith)
evict_if_needed-HasNewest (suc fuel) removes max_blocks b rest works h v enough =
    elim (Option-cases (to_evict max_blocks (b ∷ rest))) [
      | inl q ↦ (rest, rw (evict_if_needed, q) refl, to_evict-none max_blocks (b ∷ rest) q)
      | inr (y, q) ↦
          let (apart, (is_b, g, found)) = to_evict-older max_blocks b rest y h v q in
          let fewer = remove_file-less y.name rest g is_b found in
          let (rest', ih, small) =
            evict_if_needed-HasNewest fuel removes max_blocks b (remove_file y.name rest) works h
              (HasNewest-remove_file y.name b rest v) (omega arith) in
          (
            rest',
            rw (evict_if_needed, q)
                (ap (evict_if_needed fuel removes max_blocks)
                    (try_remove-other removes y.name b rest (works y.name) apart)
                  ∙ ih),
            small,
          )
    ]
