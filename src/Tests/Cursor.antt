-- ===== src/Tests/Cursor.antt =====
-- Witnesses: the stream over its loads, from open on.
use mathlib.Core.List.{flatten}
use nanos3reader.Prelude.{
  ℕ, ◌≡◌, refl, true, false, Option, some, [], ◌∷◌, arith, length, ◌≤◌, zero, suc, inl, inr, Bool,
  List, ◌==◌, if◌then◌else◌, Bool-cases,
}
use nanos3reader.Text.{Text, codes, starts_with, find_char, text_eq, to_string}
use nanos3reader.World.{World}
use nanos3reader.Client.Read.{last_byte}
use nanos3reader.Stream.Fetch.{Object}
use nanos3reader.Stream.Factory.{Factory, OpenedStream}
use nanos3reader.Text.{Text, codes, starts_with, find_char, text_eq, to_string}
use nanos3reader.Stream.Buffer.Stands.{new_buffer-Stands}
use nanos3reader.Stream.Load.Seeks.{SeeksTo, seekpos-underflow}
use nanos3reader.Stream.Buffer.{Buffer, new_buffer, in_window, seekpos}
use nanos3reader.Stream.Load.Ranges.{Honours}
use nanos3reader.Stream.Load.{Around, load_window}
use nanos3reader.DiskCache.{Io}
use nanos3reader.Tests.Fixtures.{world_with, answer, test_config, test_keys}
use nanos3reader.Stream.Load.Cursor
use nanos3reader.Stream.Load.Cursor.{seekpos-Stands}
use nanos3reader.Http.Wire.{Transfer, partial_file, is_curl_ok}
use nanos3reader.Stream.Fetch.{stream_request}

abbrev hey : Text
hey = codes "hey"

-- The Range header.
abbrev range_of : List Text → Text
range_of (date ∷ hash ∷ range ∷ lines) = range
range_of lines = []

-- A server with the object, whose first transfer is interrupted.
abbrev serve_hey : Text → Bool → Transfer
serve_hey range first =
    if text_eq range (codes "Range: bytes=0-1")
    then (if first
        then record (answer 206 [] (codes "h" ∷ [])) { rc = partial_file }
        else answer 206 [] (codes "h" ∷ codes "e" ∷ []))
    else if text_eq range (codes "Range: bytes=2-3")
    then answer 206 [] (codes "y" ∷ [])
    else answer 503 [] []

abbrev range_world : World
range_world = world_with (λ req sent s. serve_hey (range_of req.header_lines) (s == 0))

abbrev two_at_a_time : Object
two_at_a_time = record { bucket = codes "b"; key = codes "k"; read_ahead = 2 }

abbrev around : Around ℕ
around = record {
  provider = record {
    profile = [];
    cached = test_keys;
    diagnostic = [];
    attempted = true;
    last_attempt = 0;
  };
  cache = record { enabled = false; dir = []; max_blocks = 1; hits = 0; misses = 0 };
  files = [];
  state = 0;
}

abbrev all_work : Io
all_work = record {
  opens = true;
  writes = true;
  renames = true;
  touches = true;
  removes = λ n. true;
}

refuted : {A : Type 0} → false ≡ true → A
refuted h = absurd (cc)

range_world-Honours :
    (q : ℕ)
    → q ≤ length hey
    → Honours range_world test_config (codes "s3://b/k") two_at_a_time hey q
unfolding flatten stream_request to_string text_eq is_curl_ok last_byte
range_world-Honours zero l = record {
  partial = λ cred region s fine h. elim (Bool-cases (s == 0)) [
    | inl e ↦ refuted (rw e at fine)
    | inr e ↦ rw e (refl, omega arith)
  ];
  full = λ cred region s fine h. elim (Bool-cases (s == 0)) [
    | inl e ↦ refuted (rw e at fine)
    | inr e ↦ refuted (rw e at h)
  ];
  beyond = λ cred region s fine h. elim (Bool-cases (s == 0)) [
    | inl e ↦ refuted (rw e at fine)
    | inr e ↦ refuted (rw e at h)
  ];
}
range_world-Honours (suc zero) l = record {
  partial = λ cred region s fine h. absurd (cc);
  full = λ cred region s fine h. absurd (cc);
  beyond = λ cred region s fine h. absurd (cc);
}
range_world-Honours (suc (suc zero)) l = record {
  partial = λ cred region s fine h. (refl, omega arith);
  full = λ cred region s fine h. absurd (cc);
  beyond = λ cred region s fine h. absurd (cc);
}
range_world-Honours (suc (suc (suc zero))) l = record {
  partial = λ cred region s fine h. absurd (cc);
  full = λ cred region s fine h. absurd (cc);
  beyond = λ cred region s fine h. absurd (cc);
}
range_world-Honours (suc (suc (suc (suc q)))) l = absurd (omega arith)

nothing_in_window : in_window (new_buffer test_config) 0 ≡ false
unfolding in_window
nothing_in_window = refl

seekpos-underflow_example :
    (r : Option ℕ × Buffer × Around ℕ) × ((seekpos
          (load_window range_world test_config (codes "s3://b/k") two_at_a_time all_work 1)
          0
          (new_buffer test_config)
          around
        ≡ some r)
      × SeeksTo range_world test_config (codes "s3://b/k") two_at_a_time hey all_work 1 0 r)
seekpos-underflow_example =
    seekpos-underflow range_world test_config (codes "s3://b/k") two_at_a_time hey all_work 1 0
      (new_buffer test_config) around (omega arith) refl (omega arith) (omega arith)
      (range_world-Honours 0 (omega arith)) nothing_in_window

abbrev test_factory : Factory
test_factory = record { cfg = test_config; provider = around.provider }

abbrev opened : OpenedStream
opened = record { uri = codes "s3://b/k"; object = two_at_a_time; buffer = new_buffer test_config }

seekpos-Stands_example :
    (x : Option ℕ × Buffer × Around ℕ) × ((seekpos
          (load_window range_world test_config (codes "s3://b/k") two_at_a_time all_work 1)
          2
          (new_buffer test_config)
          around
        ≡ some x)
      × Cursor.SeeksTo range_world test_config (codes "s3://b/k") two_at_a_time hey all_work 1 2 x)
seekpos-Stands_example =
    seekpos-Stands range_world test_config (codes "s3://b/k") two_at_a_time hey all_work 1 0 2
      (new_buffer test_config) around (omega arith) refl (omega arith) (omega arith)
      (range_world-Honours 2 (omega arith)) (new_buffer-Stands hey test_config)
