-- ===== src/Http/Retry/Bounds.antt =====
-- The attempts of one request: how many there are, and which is the last.
use nanos3reader.Prelude.{
  ℕ, zero, suc, ◌-◌, ◌≤◌, ◌<◌, ◌≡◌, refl, ap, ◌⊎◌, inl, inr, Bool, true, false, not, ◌&&◌, arith,
  Bool-cases,
}
use nanos3reader.Uri.{Config}
use nanos3reader.World.{World, Credentials}
use nanos3reader.Http.Wire.{backoff_ceiling}
use nanos3reader.Http.Request.{Call, attempt}
use nanos3reader.Http.Retry.{client_retries, is_retriable, attempt_loop}

module _ (w : World) (cfg : Config) (cred : Credentials) (call : Call) where
  open w use {State, wait}

  -- The attempt that starts in the state asks for another: its reply is retriable, and the local
  -- file did not fail.
  abbrev pub goes_on : State → Bool
  goes_on s =
      let ((reply, file_failed), s') = attempt w cfg cred call s in
      not file_failed && is_retriable reply

  -- Where attempt `k` starts, counted from 0, with `left` retries at the start.
  pub attempt_state : ℕ → ℕ → State → State
  attempt_state left zero s = s
  attempt_state zero (suc k) s = s
  attempt_state (suc left) (suc k) s =
      attempt_state left k
        (wait (backoff_ceiling (client_retries - left)) (attempt w cfg cred call s).1)

  went_on :
      (left k : ℕ) (s : State)
      → goes_on s ≡ true
      → ((j : ℕ)
          → j < k
          → goes_on (
              attempt_state left j
                (wait (backoff_ceiling (client_retries - left)) (attempt w cfg cred call s).1))
            ≡ true)
      → (j : ℕ) → j < suc k
      → goes_on (attempt_state (suc left) j s) ≡ true
  unfolding attempt_state
  went_on left k s e later zero h = e
  went_on left k s e later (suc j) h = later j (omega arith)

  -- The loop makes at most one attempt more than there are retries. Its outcome is that of the last
  -- attempt; each one before it asked for another; and the last did not, unless no retry was left.
  pub attempt_loop_lem :
      (left : ℕ) (s : State)
      → (k : ℕ) × (k ≤ left)
        × (attempt_loop w cfg cred call left s ≡ (
          (attempt w cfg cred call (attempt_state left k s)).0.0,
          (attempt w cfg cred call (attempt_state left k s)).1,
        ))
        × ((j : ℕ) → j < k → goes_on (attempt_state left j s) ≡ true)
        × ((k ≡ left) ⊎ (goes_on (attempt_state left k s) ≡ false))
  unfolding attempt_loop attempt_state
  attempt_loop_lem zero s = (0, omega arith, refl, λ j h. elim h [ ], inl refl)
  attempt_loop_lem (suc left) s =
      let s1 = wait (backoff_ceiling (client_retries - left)) (attempt w cfg cred call s).1 in
      let (k, few, same, earlier, last) = attempt_loop_lem left s1 in
      elim (Bool-cases (goes_on s)) [
        | inl e ↦ (
          suc k,
          omega arith,
          ground arith,
          went_on left k s e earlier,
          elim last [ inl q ↦ inl (ap suc q) | inr q ↦ inr q ],
        )
        | inr e ↦ (0, omega arith, ground arith, (λ j h. elim h [ ]), inr e)
      ]
