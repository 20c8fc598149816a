-- ===== src/Tests/Streaming.antt =====
-- Witnesses: the read-ahead stream.
use nanos3reader.Prelude.{ℕ, ◌≡◌, false, some, [], arith}
use nanos3reader.Text.{Text, codes}
use nanos3reader.World.{World}
use nanos3reader.Stream.Fetch.{Object, Outcome, fetch_loop, fetch_loop-ends}
use nanos3reader.Text.{Text, codes}
use nanos3reader.Tests.Fixtures.{world_with, answer, test_config, test_keys}

abbrev down_world : World
down_world = world_with (λ req sent s. answer 503 [] [])

abbrev an_object : Object
an_object = record { bucket = codes "b"; key = codes "k"; read_ahead = 16 }

fetch_loop-ends_example :
    (r : Outcome × Text × ℕ) × (fetch_loop down_world 6 test_config test_keys an_object 0
        (codes "us-east-1")
        false
        0
        0
      ≡ some r)
fetch_loop-ends_example =
    fetch_loop-ends down_world 6 test_config test_keys an_object 0 (codes "us-east-1") false 0 0
      (omega arith)

-- Its server gives the four bytes from the start, whatever it is asked.
