-- ===== src/Tests/Threads.antt =====
-- Witnesses: the threads of a multipart upload.
use nanos3reader.Prelude.{
  ℕ, ◌≡◌, true, false, some, List, [], ◌∷◌, refl, ◌⊎◌, arith, ◌<◌, get_elem?,
}
use nanos3reader.Text.{codes, is_empty}
use nanos3reader.PutFile.Source.{accepted, body_hash}
use nanos3reader.Tests.Fixtures.{test_config, test_client, test_disk, in_parts, tagged_world}
use nanos3reader.Http.Upload.{upload_read, upload_all}
use nanos3reader.Http.Sink.{sink_write, sink_all, capture_etags}
use nanos3reader.Http.Request.{signed_request, send_body, receive, attempt}
use nanos3reader.Http.Retry.{is_retriable, attempt_loop, request_keys, run_request}
use nanos3reader.Client.Calls.{exchange}
use nanos3reader.Multipart.{part_size_for, part_count, part_call, request_failure}
use nanos3reader.Scheduler.{busy_from}
use nanos3reader.PutFile.Workers.{
  Pool, Job, Reach, here, later, sending, part_etag, part_request, move, turn, is_returned,
  start_pool,
}
use nanos3reader.PutFile.Whole.{new_job}
use nanos3reader.PutFile.Workers.Exclusive.{one_thread-per-part}
use nanos3reader.PutFile.Workers.Joined.{Reach-joined}
use nanos3reader.PutFile.Workers.Invariant.{Slot, IsSound}

-- One part, and two threads that take turns.
abbrev test_job : Job
test_job = new_job (codes "s3://b/k") (codes "f") (codes "b", codes "k") in_parts 5 (codes "u")

abbrev two_threads : Pool tagged_world test_job
two_threads = start_pool tagged_world test_job 2 test_client 0

abbrev steps : List ℕ → Pool tagged_world test_job
steps [] = two_threads
steps (i ∷ is) = turn tagged_world test_job test_disk i (steps is)

steps-Reach : (is : List ℕ) → Reach tagged_world test_job test_disk two_threads (steps is)
steps-Reach [] = here
steps-Reach (i ∷ is) = later i (steps-Reach is)

-- The last step first.
abbrev to_the_end : List ℕ
to_the_end = 1 ∷ 0 ∷ 0 ∷ 0 ∷ 0 ∷ 1 ∷ 0 ∷ 0 ∷ 1 ∷ 0 ∷ []

to_the_end-done : busy_from is_returned 0 (steps to_the_end).workers ≡ []
unfolding upload_read upload_all sink_write sink_all capture_etags signed_request send_body receive
    attempt is_retriable attempt_loop request_keys run_request exchange part_size_for part_count
    part_call request_failure busy_from accepted body_hash part_etag part_request move turn
to_the_end-done = refl

Reach-joined_example :
    let q = (steps to_the_end).shared in
    IsSound tagged_world test_job test_config q
    × (((q.failed ≡ true) × (is_empty q.first_error ≡ false))
        ⊎ ((q.failed ≡ false)
            × ((k : ℕ) → k < test_job.parts → Slot tagged_world test_job test_config k q)))
Reach-joined_example =
    Reach-joined tagged_world test_job test_disk 2 test_client 0 (steps to_the_end) (omega arith)
      (steps-Reach to_the_end) to_the_end-done

part_in_hand : get_elem? (steps (0 ∷ 0 ∷ 1 ∷ 0 ∷ [])).workers 0 ≡ some (sending (codes "hello") 0)
unfolding move turn part_size_for part_count
part_in_hand = refl

abbrev first_thread : ℕ
first_thread = 0

one_thread-per-part_example : first_thread ≡ first_thread
one_thread-per-part_example =
    one_thread-per-part tagged_world test_job test_disk 2 test_client 0 (steps (0 ∷ 0 ∷ 1 ∷ 0 ∷ []))
      0 0 (sending (codes "hello") 0) (sending (codes "hello") 0) 0
      (steps-Reach (0 ∷ 0 ∷ 1 ∷ 0 ∷ [])) part_in_hand part_in_hand refl refl
