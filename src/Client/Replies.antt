-- ===== src/Client/Replies.antt =====
-- Inversions: where the reply of a successful method comes from.
use nanos3reader.Prelude.{◌≡◌, refl, inl, inr, true, arith, Bool-cases, ◌⊎◌, Bool, ◌++◌}
use nanos3reader.Text.{Text, codes, is_empty}
use nanos3reader.Result.{Result, ok, err}
use nanos3reader.Uri.{Config}
use nanos3reader.Uri.{split_s3_uri}
use nanos3reader.World.{World, Credentials}
use nanos3reader.Http.Wire.{is_curl_ok}
use nanos3reader.Http.Request.{Call, Reply, attempt}
use nanos3reader.Http.Retry.{Keys, client_retries, request_keys, keys_missing, run_request}
use nanos3reader.Http.Retry.Bounds.{attempt_state, attempt_loop_lem}
use nanos3reader.Client.Calls.{check_target, Client, transferred, exchange}

-- The target of a well-formed URI, unless the client refuses.
pub check_target-of_split :
    (c : Client) (uri : Text) (need_key : Bool) (t : Text × Text)
    → split_s3_uri uri need_key ≡ ok t
    → (check_target c uri need_key ≡ ok t) ⊎ ((e : Text) × (check_target c uri need_key ≡ err e))
unfolding check_target
check_target-of_split c uri need_key t h = elim (Bool-cases (is_empty c.refusal)) [
  | inl e ↦ inl (rw (h, e) refl)
  | inr e ↦ inr (uri ++ (codes ": " ++ c.refusal), rw (h, e) refl)
]

pub check_target_unique :
    (c : Client) (uri : Text) (need_key : Bool) (t t' : Text × Text)
    → split_s3_uri uri need_key ≡ ok t
    → check_target c uri need_key ≡ ok t'
    → t ≡ t'
check_target_unique c uri need_key t t' h k = elim (check_target-of_split c uri need_key t h) [
  | inl q ↦ cc
  | inr (e, q) ↦ absurd (cc)
]

module _ (w : World) where
  open w use {State, handle_ok}

  -- What run_request gives is the outcome of one attempt at that call.
  pub run_request-ok :
      (cfg : Config) (keys : Keys) (call : Call) (s : State) (r : Reply)
      → (run_request w cfg keys call s).0 ≡ ok r
      → (cred : Credentials) × (at : State) × (r ≡ (attempt w cfg cred call at).0.0)
  unfolding run_request
  run_request-ok cfg keys call s r h =
      let cred = (request_keys w keys s).0 in
      let keys' = (request_keys w keys s).1 in
      let s' = (request_keys w keys s).2 in
      let (k, few, same, earlier, last) = attempt_loop_lem w cfg cred call client_retries s' in
      (
        cred,
        attempt_state w cfg cred call client_retries k s',
        elim (Bool-cases (keys_missing w keys' cred)) [
          | inl e ↦ ground arith
          | inr e ↦ elim (Bool-cases (handle_ok s')) [ inl q ↦ ground arith | inr q ↦ ground arith ]
        ],
      )

  -- A reply that a method goes on with had a transfer without errors.
  pub transferred-ok :
      (uri : Text) (r r' : Reply)
      → transferred w uri r ≡ ok r'
      → (r' ≡ r) × (is_curl_ok r.rc ≡ true)
  unfolding transferred
  transferred-ok uri r r' h = elim (Bool-cases r.overflow) [
    | inl e ↦ ground arith
    | inr e ↦ elim (Bool-cases (is_curl_ok r.rc)) [ inl q ↦ ground arith | inr q ↦ ground arith ]
  ]

  -- A successful exchange made the request of its call.
  pub exchange-ok :
      (c : Client) (call : Result Call) (s : State) (r : Reply)
      → (exchange w c call s).result ≡ ok r
      → (made : Call) × (call ≡ ok made)
        × (cred : Credentials) × (at : State) × (r ≡ (attempt w c.cfg cred made at).0.0)
  unfolding exchange
  exchange-ok c (ok call) s r h =
      let (cred, at, e) = run_request-ok c.cfg c.keys call s r h in (call, refl, cred, at, e)
  exchange-ok c (err e) s r h = cc

  -- A request leaves the configuration as it was.
  pub exchange-cfg :
      (c : Client) (call : Result Call) (s : State) → (exchange w c call s).client.cfg ≡ c.cfg
  unfolding exchange
  exchange-cfg c (err e) s = refl
  exchange-cfg c (ok call) s = refl
