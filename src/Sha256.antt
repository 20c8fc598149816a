-- ===== src/Sha256.antt =====
-- The bundled SHA-256 of src/s3_reader.cpp (struct Sha256): words are numbers below 2^32.
pub mod Streaming
pub mod Padding
use Prim.Native.Nat.{bit_and, bit_or, bit_xor}
use mathlib.Core.List.{reverse}
use nanos3reader.Prelude.{
  ℕ, zero, suc, ◌+◌, ◌-◌, ◌*◌, ◌/◌, ◌%◌, ◌^◌, ◌≤◌, ◌<◌, min, max, ◌≡◌, refl, sym, ap, ◌∙◌, subst,
  ◌≢◌, ◌↔◌, ◌⊎◌, inl, inr, Bool, true, false, not, ◌&&◌, ◌||◌, Option, none, some, List, [], ◌∷◌,
  map, ◌++◌, arith, ltb, leb, ◌==◌, if◌then◌else◌, ltb→lt, lt→ltb, leb→le, ==_iff, tests,
  Bool-cases, Option-cases, all_below, all_below_sound, length, get_elem?, take, drop, replicate,
  set, All, length-append, take-append-drop, length-take, length-drop, length-replicate, length-map,
  length-set, take-append, drop-append, take-all, drop-all, get_elem?-take, get_elem?-drop,
  get_elem?-none, All-append,
}
use nanos3reader.Text.{
  Text, codes, text_eq, is_empty, text_lt, starts_with, shift, find_char, find, find_from,
  find_char_from, substr, substr_from, find_first_not_of, find_last_not_of, no_line_break,
  ends_with_char, is_blank, is_space, trim_by, trim, trim_ws, to_string_fuel, to_string, uint64_max,
  parse_digits, parse_u64,
}

abbrev pub word : ℕ → ℕ
word x = x % 2 ^ 32

unfoldable pub ror : ℕ → ℕ → ℕ
ror x c = bit_or (x / 2 ^ c) (word (x * 2 ^ (32 - c)))

abbrev pub xor3 : ℕ → ℕ → ℕ → ℕ
xor3 x y z = bit_xor (bit_xor x y) z

-- The constants K of Sha256::block.
abbrev pub round_constants : List ℕ
round_constants =
    0x428a2f98 ∷ 0x71374491 ∷ 0xb5c0fbcf ∷ 0xe9b5dba5 ∷ 0x3956c25b ∷ 0x59f111f1 ∷ 0x923f82a4
    ∷ 0xab1c5ed5 ∷ 0xd807aa98 ∷ 0x12835b01 ∷ 0x243185be ∷ 0x550c7dc3 ∷ 0x72be5d74 ∷ 0x80deb1fe
    ∷ 0x9bdc06a7 ∷ 0xc19bf174 ∷ 0xe49b69c1 ∷ 0xefbe4786 ∷ 0x0fc19dc6 ∷ 0x240ca1cc ∷ 0x2de92c6f
    ∷ 0x4a7484aa ∷ 0x5cb0a9dc ∷ 0x76f988da ∷ 0x983e5152 ∷ 0xa831c66d ∷ 0xb00327c8 ∷ 0xbf597fc7
    ∷ 0xc6e00bf3 ∷ 0xd5a79147 ∷ 0x06ca6351 ∷ 0x14292967 ∷ 0x27b70a85 ∷ 0x2e1b2138 ∷ 0x4d2c6dfc
    ∷ 0x53380d13 ∷ 0x650a7354 ∷ 0x766a0abb ∷ 0x81c2c92e ∷ 0x92722c85 ∷ 0xa2bfe8a1 ∷ 0xa81a664b
    ∷ 0xc24b8b70 ∷ 0xc76c51a3 ∷ 0xd192e819 ∷ 0xd6990624 ∷ 0xf40e3585 ∷ 0x106aa070 ∷ 0x19a4c116
    ∷ 0x1e376c08 ∷ 0x2748774c ∷ 0x34b0bcb5 ∷ 0x391c0cb3 ∷ 0x4ed8aa4a ∷ 0x5b9cca4f ∷ 0x682e6ff3
    ∷ 0x748f82ee ∷ 0x78a5636f ∷ 0x84c87814 ∷ 0x8cc70208 ∷ 0x90befffa ∷ 0xa4506ceb ∷ 0xbef9a3f7
    ∷ 0xc67178f2 ∷ []

-- Element of a vector; the index of every use is in range.
unfoldable pub at_word : List ℕ → ℕ → ℕ
at_word [] i = 0
at_word (x ∷ xs) zero = x
at_word (x ∷ xs) (suc i) = at_word xs i

-- w[0..15] from the bytes of the block, big-endian.
unfoldable pub load_words : ℕ → Text → List ℕ
load_words zero p = []
load_words (suc k) (a ∷ b ∷ c ∷ d ∷ p) = (a * 2 ^ 24 + b * 2 ^ 16 + c * 2 ^ 8 + d) ∷ load_words k p
load_words (suc k) _ = []

-- w[i] from the words before it, the last one first: w[i - 2] is element 1, and so on.
unfoldable pub next_word : List ℕ → ℕ
unfolding ror at_word
next_word w =
    let w15 = at_word w 14 in
    let w2 = at_word w 1 in
    let s0 = xor3 (ror w15 7) (ror w15 18) (w15 / 2 ^ 3) in
    let s1 = xor3 (ror w2 17) (ror w2 19) (w2 / 2 ^ 10) in
    word (at_word w 15 + s0 + at_word w 6 + s1)

unfoldable pub extend_words : ℕ → List ℕ → List ℕ
unfolding next_word
extend_words zero w = w
extend_words (suc k) w = extend_words k (next_word w ∷ w)

-- The eight words of the state, or of the working variables a to h.
pub record Words : Type 0 where
  pub a : ℕ
  pub b : ℕ
  pub c : ℕ
  pub d : ℕ
  pub e : ℕ
  pub f : ℕ
  pub g : ℕ
  pub h : ℕ

-- One round, with K[i] and w[i].
unfoldable pub round : Words → ℕ → ℕ → Words
unfolding ror
round v k w =
    let s1 = xor3 (ror v.e 6) (ror v.e 11) (ror v.e 25) in
    let ch = bit_xor (bit_and v.e v.f) (bit_and (2 ^ 32 - 1 - v.e) v.g) in
    let t1 = word (v.h + s1 + ch + k + w) in
    let s0 = xor3 (ror v.a 2) (ror v.a 13) (ror v.a 22) in
    let maj = xor3 (bit_and v.a v.b) (bit_and v.a v.c) (bit_and v.b v.c) in
    let t2 = word (s0 + maj) in
    record {
      a = word (t1 + t2);
      b = v.a;
      c = v.b;
      d = v.c;
      e = word (v.d + t1);
      f = v.e;
      g = v.f;
      h = v.g;
    }

unfoldable pub rounds : Words → List ℕ → List ℕ → Words
unfolding round
rounds v [] ws = v
rounds v (k ∷ ks) [] = v
rounds v (k ∷ ks) (w ∷ ws) = rounds (round v k w) ks ws

-- Sha256::block on the 64 bytes `p`
unfoldable pub block : Words → Text → Words
unfolding load_words extend_words rounds
block s p =
    let w = reverse (extend_words 48 (reverse (load_words 16 p))) in
    let v = rounds s round_constants w in
    record {
      a = word (s.a + v.a);
      b = word (s.b + v.b);
      c = word (s.c + v.c);
      d = word (s.d + v.d);
      e = word (s.e + v.e);
      f = word (s.f + v.f);
      g = word (s.g + v.g);
      h = word (s.h + v.h);
    }

-- `pending` is the front of `buf` that is in use: its length is `n`, and what stands in `buf`
-- behind it is overwritten before it is read.
pub record Sha256 : Type 0 where
  pub s : Words
  pub total : ℕ
  pub pending : Text

abbrev pub initial_words : Words
initial_words = record {
  a = 0x6a09e667;
  b = 0xbb67ae85;
  c = 0x3c6ef372;
  d = 0xa54ff53a;
  e = 0x510e527f;
  f = 0x9b05688c;
  g = 0x1f83d9ab;
  h = 0x5be0cd19;
}

abbrev pub init : Sha256
init = record { s = initial_words; total = 0; pending = [] }

-- One round of update's loop: `take` bytes go to the buffer, and a full buffer is a block.
unfoldable pub absorb_chunk : Sha256 → Text → Sha256
absorb_chunk h chunk =
    let buf = h.pending ++ chunk in
    if length buf == 64
    then record h { s = block h.s buf; pending = [] }
    else record h { pending = buf }

-- The loop of Sha256::update over the bytes `p` left. Every round takes a byte at least while the
-- buffer is not full, so a fuel of `length p` is enough (Streaming).
unfoldable pub update_loop : ℕ → Sha256 → Text → Sha256
unfolding absorb_chunk
update_loop zero h p = h
update_loop (suc fuel) h [] = h
update_loop (suc fuel) h (c ∷ p) =
    let n = min (64 - length h.pending) (length (c ∷ p)) in
    update_loop fuel (absorb_chunk h (take n (c ∷ p))) (drop n (c ∷ p))

unfoldable pub update : Sha256 → Text → Sha256
unfolding update_loop
update h p = update_loop (length p) (record h { total = (h.total + length p) % 2 ^ 64 }) p

-- while (n != 56) update(&zero, 1);
unfoldable pub pad_loop : ℕ → Sha256 → Sha256
unfolding update
pad_loop zero h = h
pad_loop (suc fuel) h =
    let rest = pad_loop fuel (update h (0 ∷ [])) in if length h.pending == 56 then h else rest

-- x as k bytes, big-endian; `>>` and the cast to unsigned char keep the low 8 bits
unfoldable pub big_endian : ℕ → ℕ → Text
big_endian zero x = []
big_endian (suc k) x = (x / 2 ^ (8 * k)) % 256 ∷ big_endian k x

unfoldable pub digest_bytes : Words → Text
unfolding big_endian
digest_bytes s =
    big_endian 4 s.a
    ++ (big_endian 4 s.b
        ++ (big_endian 4 s.c
            ++ (big_endian 4 s.d
                ++ (big_endian 4 s.e
                    ++ (big_endian 4 s.f ++ (big_endian 4 s.g ++ big_endian 4 s.h))))))

-- 64 rounds of padding are enough: the buffer has 64 places.
unfoldable pub finish : Sha256 → Text
unfolding update pad_loop big_endian digest_bytes
finish h =
    let bits = (h.total * 8) % 2 ^ 64 in
    let padded = pad_loop 64 (update h (0x80 ∷ [])) in
    digest_bytes (update padded (big_endian 8 bits)).s

unfoldable pub sha256_raw : Text → Text
unfolding block update finish
sha256_raw bytes = finish (update init bytes)
