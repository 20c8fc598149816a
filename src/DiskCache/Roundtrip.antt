-- ===== src/DiskCache/Roundtrip.antt =====
-- Storing a block and loading it again, and an eviction whose removals fail.
use mathlib.Core.List.{append_assoc}
use nanos3reader.Prelude.{
  ℕ, zero, suc, ◌-◌, ◌≤◌, ◌<◌, ◌≡◌, refl, ap, ◌∙◌, subst, Bool, true, false, none, some, ◌∷◌, ◌++◌,
  arith, ltb, lt→ltb, length, All, length-append, drop-append,
}
use nanos3reader.Text.{Text, codes}
use nanos3reader.DiskCache.{
  File, Io, DiskCache, Files, find_file, remove_file, djb2, hex16, block_name, is_block, to_evict,
  evict_if_needed, try_load, tmp_file, write_block, store,
}
use nanos3reader.DiskCache.Eviction.{
  HasNewest, count_blocks, text_eq_refl, remove_file-fewer, All-remove_file, remove_file-absent,
  evict_if_needed-HasNewest,
}

abbrev pub working_io : Io
working_io = record {
  opens = true;
  writes = true;
  renames = true;
  touches = true;
  removes = λ name. true;
}

is_block-suffix : (s : Text) → 0 < length s → is_block (s ++ codes ".blk") ≡ true
unfolding is_block
is_block-suffix s h =
    let len = length-append s (codes ".blk") in
    let e : length (s ++ codes ".blk") - 4 ≡ length s = omega (arith, len) in
    let dropped = drop-append s (codes ".blk") in
    let long : ltb 4 (length (s ++ codes ".blk")) ≡ true = lt→ltb _ _ (omega (arith, len)) in
    rw (long, e, dropped) (text_eq_refl (codes ".blk"))

block_name-is_block : (uri : Text) (start : ℕ) → is_block (block_name uri start) ≡ true
unfolding block_name
block_name-is_block uri start =
    let front = hex16 (djb2 5381 uri) ++ (codes "_" ++ hex16 start) in
    let len = length-append (hex16 (djb2 5381 uri)) (codes "_" ++ hex16 start) in
    subst (λ (n : Text). is_block n ≡ true)
      (append_assoc (hex16 (djb2 5381 uri)) (codes "_" ++ hex16 start) (codes ".blk"))
      (is_block-suffix front (omega (arith, len)))

remove_file-first : (f : File) (fs : Files) → remove_file f.name (f ∷ fs) ≡ remove_file f.name fs
unfolding remove_file
remove_file-first f fs = rw (text_eq_refl f.name) refl

-- What is left of the directory beside the stored block.
abbrev others : Text → Text → ℕ → Text → Files → Files
others name tmp now bytes fs = remove_file name (remove_file tmp (remove_file tmp fs))

write_block-working :
    (now : ℕ) (fs : Files) (name bytes : Text)
    → write_block working_io now fs name bytes ≡ (
      (record { name = name; mtime = now; bytes = bytes })
          ∷ others name (name ++ codes ".tmp") now bytes fs,
      true,
    )
unfolding write_block
write_block-working now fs name bytes =
    ap
      (λ (rest : Files).
        ((record { name = name; mtime = now; bytes = bytes }) ∷ remove_file name rest, true))
      (remove_file-first (tmp_file name now bytes) (remove_file (name ++ codes ".tmp") fs))

others-HasNewest :
    (name tmp : Text) (now : ℕ) (bytes : Text) (fs : Files)
    → is_block name ≡ true
    → All (λ f. f.mtime < now) fs
    → HasNewest (record { name = name; mtime = now; bytes = bytes }) (others name tmp now bytes fs)
others-HasNewest name tmp now bytes fs b older = record {
  block = b;
  alone = remove_file-absent name _;
  newest = All-remove_file _ name _ (All-remove_file _ tmp _ (All-remove_file _ tmp fs older));
}

others-fewer :
    (name tmp : Text) (now : ℕ) (bytes : Text) (fs : Files)
    → count_blocks (others name tmp now bytes fs) ≤ count_blocks fs
others-fewer name tmp now bytes fs =
    let a = remove_file-fewer tmp fs in
    let b = remove_file-fewer tmp (remove_file tmp fs) in
    let c = remove_file-fewer name (remove_file tmp (remove_file tmp fs)) in omega arith

find_file-first : (f : File) (fs : Files) → find_file f.name (f ∷ fs) ≡ some f
unfolding find_file
find_file-first f fs = rw (text_eq_refl f.name) refl

try_load-first :
    (now : ℕ) (c : DiskCache) (f : File) (fs : Files) (uri : Text) (start : ℕ)
    → block_name uri start ≡ f.name
    → (try_load working_io now c (f ∷ fs) uri start).0 ≡ some f.bytes
unfolding try_load
try_load-first now c f fs uri start e =
    let found : find_file (block_name uri start) (f ∷ fs) ≡ some f =
      ap (λ (n : Text). find_file n (f ∷ fs)) e ∙ find_file-first f fs in
    rw (try_load, found) refl

-- Where the file system works and the clock has moved on since the last write, storing a block ends,
-- keeps the directory to the capacity, and the block can be loaded with the bytes that were stored,
-- however full the cache was.
pub store-try_load :
    (fuel now later : ℕ) (c c' : DiskCache) (fs : Files) (uri : Text) (start : ℕ) (bytes : Text)
    → 0 < c.max_blocks
    → All (λ f. f.mtime < now) fs
    → count_blocks fs < fuel
    → (fs' : Files) × (store fuel working_io now c fs uri start bytes ≡ some fs')
      × (count_blocks fs' ≤ c.max_blocks)
      × ((try_load working_io later c' fs' uri start).0 ≡ some bytes)
unfolding store
store-try_load fuel now later c c' fs uri start bytes room older enough =
    let name = block_name uri start in
    let tmp = name ++ codes ".tmp" in
    let fewer = others-fewer name tmp now bytes fs in
    let b : File = record { name = name; mtime = now; bytes = bytes } in
    let (rest, ended, small) =
      evict_if_needed-HasNewest fuel (λ n. true) c.max_blocks b (others name tmp now bytes fs)
        (λ n. refl) room
        (others-HasNewest name tmp now bytes fs (block_name-is_block uri start) older)
        (omega arith) in
    (
      b ∷ rest,
      rw (store, write_block-working now fs name bytes) ended,
      small,
      try_load-first later c' b rest uri start refl,
    )

-- Where the oldest block past the capacity cannot be removed, the eviction does not end: no fuel is
-- enough.
pub evict_if_needed-stuck :
    (fuel : ℕ) (removes : Text → Bool) (max_blocks : ℕ) (fs : Files) (f : File)
    → to_evict max_blocks fs ≡ some f
    → removes f.name ≡ false
    → evict_if_needed fuel removes max_blocks fs ≡ none
unfolding evict_if_needed
evict_if_needed-stuck zero removes max_blocks fs f e h = refl
evict_if_needed-stuck (suc fuel) removes max_blocks fs f e h =
    let ih = evict_if_needed-stuck fuel removes max_blocks fs f e h in rw (evict_if_needed, e, h) ih
