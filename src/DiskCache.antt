-- ===== src/DiskCache.antt =====
-- The disk cache of src/s3_reader.cpp (class DiskCache) over the files of its directory.
pub mod Eviction
pub mod Roundtrip
use nanos3reader.Prelude.{
  ℕ, zero, suc, ◌+◌, ◌-◌, ◌*◌, ◌/◌, ◌%◌, ◌^◌, ◌≤◌, ◌<◌, min, max, ◌≡◌, refl, sym, ap, ◌∙◌, subst,
  ◌≢◌, ◌↔◌, ◌⊎◌, inl, inr, Bool, true, false, not, ◌&&◌, ◌||◌, Option, none, some, List, [], ◌∷◌,
  map, ◌++◌, arith, ltb, leb, ◌==◌, if◌then◌else◌, ltb→lt, lt→ltb, leb→le, ==_iff, tests,
  Bool-cases, Option-cases, all_below, all_below_sound, length, get_elem?, take, drop, replicate,
  set, All, length-append, take-append-drop, length-take, length-drop, length-replicate, length-map,
  length-set, take-append, drop-append, take-all, drop-all, get_elem?-take, get_elem?-drop,
  get_elem?-none, All-append, ℤ, pos, negsuc, drop-drop, take-add, take-take,
}
use nanos3reader.Text.{
  Text, codes, text_eq, is_empty, text_lt, starts_with, shift, find_char, find, find_from,
  find_char_from, substr, substr_from, find_first_not_of, find_last_not_of, no_line_break,
  ends_with_char, is_blank, is_space, trim_by, trim, trim_ws, to_string_fuel, to_string, uint64_max,
  parse_digits, parse_u64,
}

-- A file of the directory: what its name, its time and its bytes are.
pub record File : Type 0 where
  pub name : Text
  pub mtime : ℕ
  pub bytes : Text

abbrev pub Files : Type 0
Files = List File

pub record DiskCache : Type 0 where
  pub enabled : Bool
  pub dir : Text
  pub max_blocks : ℕ
  pub hits : ℕ
  pub misses : ℕ

-- What the file system lets the calls of one operation do.
pub record Io : Type 0 where
  pub opens : Bool
  pub writes : Bool
  pub renames : Bool
  pub touches : Bool
  pub removes : Text → Bool

unfoldable pub find_file : Text → Files → Option File
find_file name [] = none
find_file name (f ∷ fs) = if text_eq name f.name then some f else find_file name fs

unfoldable pub remove_file : Text → Files → Files
remove_file name [] = []
remove_file name (f ∷ fs) =
    let rest = remove_file name fs in if text_eq name f.name then rest else f ∷ rest

-- std::filesystem::remove, whose errors are ignored
abbrev pub try_remove : (Text → Bool) → Text → Files → Files
try_remove removes name fs = if removes name then remove_file name fs else fs

-- A file of that name, in place of any other.
abbrev pub place : File → Files → Files
place f fs = f ∷ remove_file f.name fs

abbrev pub count_one : ℕ → ℕ
count_one n = (n + 1) % 2 ^ 64

-- std::clamp(max_blocks, 2, 500)
abbrev pub clamp_blocks : ℕ → ℕ
clamp_blocks n = min (max n 2) 500

-- The result and the cache; `created` says whether create_directories works.
unfoldable pub configure : DiskCache → Text → ℤ → Bool → Bool × DiskCache
configure c dir (negsuc n) created = (true, record c { enabled = false })
configure c dir (pos n) created =
    if n == 0
    then (true, record c { enabled = false })
    else if created
    then (true, record c { enabled = true; dir = dir; max_blocks = clamp_blocks n })
    else (false, record c { enabled = false })

-- h = ((h << 5) + h) + c on std::uint64_t
unfoldable pub djb2 : ℕ → Text → ℕ
djb2 h [] = h
djb2 h (c ∷ s) = djb2 (((h * 32) % 2 ^ 64 + h + c) % 2 ^ 64) s

abbrev pub hex_low : ℕ → ℕ
hex_low d = if ltb d 10 then b'0' + d else b'a' + (d - 10)

-- The low hex digits of a number, the last one last.
unfoldable pub hex_digits : ℕ → ℕ → Text
hex_digits zero v = []
hex_digits (suc n) v = hex_digits n (v / 16) ++ hex_low (v % 16) ∷ []

abbrev pub hex16 : ℕ → Text
hex16 v = hex_digits 16 v

-- The name in the directory of the block of a URI and a start.
unfoldable pub block_name : Text → ℕ → Text
block_name uri chunk_start =
    hex16 (djb2 5381 uri) ++ (codes "_" ++ (hex16 chunk_start ++ codes ".blk"))

-- path.extension() == ".blk"
unfoldable pub is_block : Text → Bool
is_block name = ltb 4 (length name) && text_eq (drop (length name - 4) name) (codes ".blk")

-- The blocks of the directory, counted, and the oldest so far, the first of its age.
unfoldable pub scan : Files → ℕ → Option File → ℕ × Option File
scan [] count oldest = (count, oldest)
scan (f ∷ fs) count oldest =
    let with_f =
      scan fs (count + 1)
        (elim oldest [ none ↦ some f | some o ↦ if ltb f.mtime o.mtime then some f else some o ]) in
    let without_f = scan fs count oldest in if is_block f.name then with_f else without_f

-- A round of evict_if_needed: `none` where it is done, and the file to remove.
unfoldable pub to_evict : ℕ → Files → Option File
to_evict max_blocks fs =
    let (count, oldest) = scan fs 0 none in if leb count max_blocks then none else oldest

-- The loop of evict_if_needed. The fuel bounds its rounds; `none` means that it ran out.
unfoldable pub evict_if_needed : ℕ → (Text → Bool) → ℕ → Files → Option Files
evict_if_needed zero removes max_blocks fs = none
evict_if_needed (suc fuel) removes max_blocks fs = elim (to_evict max_blocks fs) [
  | none ↦ some fs
  | some f ↦ evict_if_needed fuel removes max_blocks (try_remove removes f.name fs)
]

-- The time and the name of a file set anew.
abbrev pub touch : ℕ → File → File
touch now f = record f { mtime = now }

-- The block's bytes where it is there, with the cache and the files behind the call.
unfoldable pub try_load : Io → ℕ → DiskCache → Files → Text → ℕ → Option Text × DiskCache × Files
try_load io now c fs uri chunk_start = elim (find_file (block_name uri chunk_start) fs) [
  | none ↦ (none, record c { misses = count_one c.misses }, fs)
  | some f ↦
      if io.opens
      then (
        some f.bytes,
        record c { hits = count_one c.hits },
        if io.touches then place (touch now f) fs else fs,
      )
      else (none, record c { misses = count_one c.misses }, fs)
]

-- The temporary file that a block is written to.
abbrev pub tmp_file : Text → ℕ → Text → File
tmp_file name now bytes = record { name = name ++ codes ".tmp"; mtime = now; bytes = bytes }

-- What is in the directory before the eviction, and whether the block has been stored.
unfoldable pub write_block : Io → ℕ → Files → Text → Text → Files × Bool
write_block io now fs name bytes =
    let tmp = tmp_file name now bytes in
    let written = place tmp fs in
    if not io.opens
    then (fs, false)
    else if not io.writes || not io.renames
    then (try_remove io.removes tmp.name written, false)
    else (place (record tmp { name = name }) (remove_file tmp.name written), true)

-- The files behind the call; `none` where the fuel of the eviction ran out.
unfoldable pub store : ℕ → Io → ℕ → DiskCache → Files → Text → ℕ → Text → Option Files
store fuel io now c fs uri chunk_start bytes =
    let (fs', stored) = write_block io now fs (block_name uri chunk_start) bytes in
    if stored then evict_if_needed fuel io.removes c.max_blocks fs' else some fs'
