-- ===== src/Tests/Storage.antt =====
-- Witnesses: the disk cache, the parts of an upload, and the ETag line.
use mathlib.Core.List.{flatten}
use nanos3reader.Prelude.{◌*◌, ◌≤◌, ◌≡◌, refl, true, false, none, some, [], ◌∷◌, arith}
use nanos3reader.Text.{codes, text_eq}
use nanos3reader.DiskCache.{
  File, DiskCache, Files, is_block, scan, to_evict, evict_if_needed, try_load, store,
}
use nanos3reader.DiskCache.Eviction.{count_blocks}
use nanos3reader.DiskCache.Roundtrip.{working_io, store-try_load, evict_if_needed-stuck}
use nanos3reader.Multipart.{min_part_size, max_parts, part_size_for, part_count}
use nanos3reader.Multipart.Parts.{part_size_for_lem, parts_from, parts_from-file}

abbrev old_block : File
old_block = record { name = codes "a.blk"; mtime = 1; bytes = codes "1" }

abbrev newer_block : File
newer_block = record { name = codes "b.blk"; mtime = 2; bytes = codes "2" }

abbrev full_directory : Files
full_directory = old_block ∷ newer_block ∷ []

abbrev small_cache : DiskCache
small_cache = record { enabled = true; dir = codes "d"; max_blocks = 2; hits = 0; misses = 0 }

store-try_load_example :
    (fs' : Files) × (store 9 working_io 3 small_cache full_directory
        (codes "s3://b/k")
        0
        (codes "xyz")
      ≡ some fs')
    × (count_blocks fs' ≤ 2)
    × ((try_load working_io 4 small_cache fs' (codes "s3://b/k") 0).0 ≡ some (codes "xyz"))
unfolding count_blocks is_block text_eq
store-try_load_example =
    store-try_load 9 3 4 small_cache small_cache full_directory (codes "s3://b/k") 0 (codes "xyz")
      (omega arith) (omega arith, (omega arith, tt)) (omega arith)

evict_if_needed-stuck_example : evict_if_needed 100 (λ name. false) 1 full_directory ≡ none
unfolding to_evict scan is_block text_eq
evict_if_needed-stuck_example =
    evict_if_needed-stuck 100 (λ name. false) 1 full_directory old_block refl refl

part_size_for_lem_example :
    let ps = part_size_for 100000000000 0 in
    (min_part_size ≤ ps) × (0 ≤ ps) × (100000000000 ≤ max_parts * ps)
part_size_for_lem_example = part_size_for_lem 100000000000 0 (omega arith)

parts_from-file_example :
    flatten (parts_from (codes "abcdefghij") 4 0 (part_count 10 4)) ≡ codes "abcdefghij"
parts_from-file_example =
    parts_from-file (codes "abcdefghij") 4 (omega arith) (omega arith) (omega arith)
