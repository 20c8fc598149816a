-- ===== src/Tests/Transport.antt =====
-- Witnesses: the callbacks of a request, its retries and their waits.
use nanos3reader.Prelude.{ℕ, ◌≤◌, ◌<◌, ◌≡◌, ◌⊎◌, true, false, some, [], ◌∷◌, ltb, if◌then◌else◌}
use nanos3reader.Text.{Text, codes}
use nanos3reader.World.{World}
use nanos3reader.Http.Wire.{Request, Transfer}
use nanos3reader.Http.Sink.{sink_all, new_sink}
use nanos3reader.Http.Sink.Limits.{IsWithin, sink_all-IsWithin, new_sink-IsWithin}
use nanos3reader.Http.Upload.{Source, file}
use nanos3reader.Http.Request.{Call, attempt}
use nanos3reader.Http.Retry.{attempt_loop}
use nanos3reader.Http.Retry.Bounds.{goes_on, attempt_state, attempt_loop_lem}
use nanos3reader.Client.Read.{range_call}
use nanos3reader.Tests.Fixtures.{world_with, answer, test_config, test_keys}

sink_all-IsWithin_example :
    IsWithin (sink_all 206 (new_sink (some 3)) (codes "ab" ∷ codes "cd" ∷ [])).0
sink_all-IsWithin_example =
    sink_all-IsWithin 206 (new_sink (some 3)) (codes "ab" ∷ codes "cd" ∷ [])
      (new_sink-IsWithin (some 3))

abbrev part_of_file : Source
part_of_file = file (codes "abcdefgh") 2

-- A server that is busy until some time has passed.
abbrev busy : Request → Text → ℕ → Transfer
busy req sent s = if ltb s 150 then answer 503 [] [] else answer 206 [] (codes "abc" ∷ [])

abbrev busy_world : World
busy_world = world_with busy

abbrev busy_call : Call
busy_call = range_call 0 3 (codes "b", codes "k") 2

abbrev busy_at : ℕ → ℕ
busy_at k = attempt_state busy_world test_config test_keys busy_call 3 k 0

attempt_loop_lem_example :
    (k : ℕ) × (k ≤ 3)
    × (attempt_loop busy_world test_config test_keys busy_call 3 0 ≡ (
      (attempt busy_world test_config test_keys busy_call (busy_at k)).0.0,
      (attempt busy_world test_config test_keys busy_call (busy_at k)).1,
    ))
    × ((j : ℕ) → j < k → goes_on busy_world test_config test_keys busy_call (busy_at j) ≡ true)
    × ((k ≡ 3) ⊎ (goes_on busy_world test_config test_keys busy_call (busy_at k) ≡ false))
attempt_loop_lem_example = attempt_loop_lem busy_world test_config test_keys busy_call 3 0
