-- ===== src/Http/Wire.antt =====
-- What libcurl shows of a transfer: result codes, status codes, header lines and body chunks.
use native.Mathlib.Nat.{pow-suc}
use nanos3reader.Prelude.{
  ℕ, zero, suc, ◌-◌, ◌*◌, ◌^◌, ◌≤◌, ◌<◌, min, ◌≡◌, ap, ◌∙◌, inl, inr, Bool, true, false, ◌||◌,
  Option, List, arith, ltb, ◌==◌, if◌then◌else◌, Bool-cases,
}
use nanos3reader.Text.{Text}

-- The result codes that the source names; `other` stands for the rest.
pub data CurlCode : Type 0 where
  curl_ok operation_timedout couldnt_connect couldnt_resolve_host couldnt_resolve_proxy : CurlCode
  send_error recv_error got_nothing partial_file ssl_connect_error : CurlCode
  read_error write_error aborted_by_callback other : CurlCode

unfoldable pub is_retriable_curl : CurlCode → Bool
is_retriable_curl operation_timedout = true
is_retriable_curl couldnt_connect = true
is_retriable_curl couldnt_resolve_host = true
is_retriable_curl couldnt_resolve_proxy = true
is_retriable_curl send_error = true
is_retriable_curl recv_error = true
is_retriable_curl got_nothing = true
is_retriable_curl partial_file = true
is_retriable_curl ssl_connect_error = true
is_retriable_curl _ = false

unfoldable pub is_curl_ok : CurlCode → Bool
is_curl_ok curl_ok = true
is_curl_ok _ = false

-- 429, 500, 502, 503 (SlowDown included) and 504
unfoldable pub is_retriable_status : ℕ → Bool
is_retriable_status code = code == 429 || code == 500 || code == 502 || code == 503 || code == 504

-- What libcurl sends.
pub record Request : Type 0 where
  pub method : Text
  pub url : Text
  pub header_lines : List Text
  pub body_len : Option ℕ

-- What the server and the network do in one transfer, before the callbacks have their say.
-- `content_length` is that of a HEAD reply, and `none` stands for -1.
pub record Transfer : Type 0 where
  pub rc : CurlCode
  pub code : ℕ
  pub reply_headers : List Text
  pub chunks : List Text
  pub content_length : Option ℕ

-- The bound of the backoff loop: `for (i = 1; i < attempt && ceiling < cap; ++i) ceiling <<= 1`.
unfoldable pub backoff_loop : ℕ → ℕ → ℕ
backoff_loop zero ceiling = ceiling
backoff_loop (suc rounds) ceiling =
    let rest = backoff_loop rounds (ceiling * 2) in if ltb ceiling 2000 then rest else ceiling

-- The most milliseconds that sleep_backoff waits before retry `attempt`, which counts from 1.
unfoldable pub backoff_ceiling : ℕ → ℕ
unfolding backoff_loop
backoff_ceiling attempt = min (backoff_loop (attempt - 1) 100) 2000

two_pow_pos : (n : ℕ) → 0 < 2 ^ n
two_pow_pos zero = omega arith
two_pow_pos (suc n) = omega (arith, two_pow_pos n, pow-suc 2 n)

backoff_loop-min : (rounds c : ℕ) → min (backoff_loop rounds c) 2000 ≡ min (c * 2 ^ rounds) 2000
unfolding backoff_loop
backoff_loop-min zero c = omega arith
backoff_loop-min (suc rounds) c = elim (Bool-cases (ltb c 2000)) [
  | inl e ↦
      let twice : c * 2 * 2 ^ rounds ≡ c * 2 ^ suc rounds = rw (pow-suc 2 rounds) (omega arith) in
      rw e (backoff_loop-min rounds (c * 2) ∙ ap (λ (x : ℕ). min x 2000) twice)
  | inr e ↦
      let p = two_pow_pos (suc rounds) in
      let big : c ≤ c * 2 ^ suc rounds = grind arith in
      let k : 2000 ≤ c = ground arith in rw e (omega arith)
]

-- The bound of the wait doubles from 100 ms with each retry and stays at 2000 ms.
pub backoff_ceiling_lem :
    (attempt : ℕ) → 0 < attempt → backoff_ceiling attempt ≡ min (100 * 2 ^ (attempt - 1)) 2000
unfolding backoff_ceiling
backoff_ceiling_lem attempt h = backoff_loop-min (attempt - 1) 100
