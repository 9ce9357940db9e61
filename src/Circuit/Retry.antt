-- ===== src/Circuit/Retry.antt =====
-- The retry loop of `execute`, described by its first attempt that is not retried.
use native.Mathlib.Nat.{add-zero}
use shopping_agent.Common.{
  ℕ, zero, suc, ◌+◌, ◌<◌, ◌≡◌, refl, ◌≢◌, ◌⊎◌, inl, inr, true, false, List, [], ◌∷◌, arith, subst,
  sym, ap, Bool,
}
use shopping_agent.Circuit.{
  Settings, CircuitState, before_call, admitted, success, failure, Attempt, returned, timed_out,
  transport_failed, http_status, other_error, cancelled, retryable, Outcome, value, raised, Run,
  attempts, pause, after_attempt, final, conclude, attempt_loop, execute,
}

-- What the caller gets of an attempt that is not retried.
abbrev pub reported : {A : Type 0} → Attempt A → Outcome A
reported (returned a) = value a
reported error = raised error

-- What becomes of the circuit: a success, nothing on cancellation, and else a failure.
abbrev pub settled : {A : Type 0} → Settings → ℕ → CircuitState → Attempt A → CircuitState
settled settings now state (returned a) = success settings state
settled settings now state cancelled = state
settled settings now state error = failure settings now state

-- The pauses before rounds `attempt + 1` to `attempt + k`.
abbrev pub pauses_from : Settings → ℕ → ℕ → List ℕ
pauses_from settings attempt zero = []
pauses_from settings attempt (suc k) = pause settings attempt ∷ pauses_from settings (suc attempt) k

module _ {A : Type 0} (settings : Settings) where
  conclude_ends :
      (now attempt left : ℕ) (stop : Bool) (state : CircuitState) (a : Attempt A) (rest : Run A)
      → (retryable a ≡ false) ⊎ (left ≡ 0)
      → conclude settings now attempt left stop state a rest
        ≡ final settings (settled settings now state a) (reported a)
  unfolding conclude
  conclude_ends now attempt left stop state (returned a) rest h = refl
  conclude_ends now attempt left stop state cancelled rest h = refl
  conclude_ends now attempt left stop state timed_out rest h = ground arith
  conclude_ends now attempt left stop state transport_failed rest h = ground arith
  conclude_ends now attempt left stop state (http_status c) rest h = ground arith
  conclude_ends now attempt left stop state other_error rest h = ground arith

  conclude_retries :
      (now attempt left : ℕ) (stop : Bool) (state : CircuitState) (a : Attempt A) (rest : Run A)
      → retryable a ≡ true
      → left ≢ 0
      → stop ≡ false
      → conclude settings now attempt left stop state a rest
        ≡ after_attempt settings (pause settings attempt) rest
  unfolding conclude
  conclude_retries now attempt left stop state (returned a) rest h k e = cc
  conclude_retries now attempt left stop state cancelled rest h k e = cc
  conclude_retries now attempt left stop state timed_out rest h k e = ground arith
  conclude_retries now attempt left stop state transport_failed rest h k e = ground arith
  conclude_retries now attempt left stop state (http_status c) rest h k e = ground arith
  conclude_retries now attempt left stop state other_error rest h k e = cc

  -- `k` attempts were retried and the next one was not, in a loop that starts at round `attempt`.
  pub record Ends (operation : ℕ → Attempt A) (clock : ℕ → ℕ) (seen : ℕ → CircuitState)
      (attempt k : ℕ) (run : Run A) : Type 0 where
    pub outcome_reported : run.outcome ≡ reported (operation (attempt + k))
    pub state_settled :
        run.state
        ≡ settled settings (clock (attempt + k)) (seen (attempt + k)) (operation (attempt + k))
    pub started_count : run.started ≡ suc k
    pub pauses_taken : run.pauses ≡ pauses_from settings attempt k

  module _ (operation : ℕ → Attempt A) (clock : ℕ → ℕ) (interrupted : ℕ → Bool)
      (seen : ℕ → CircuitState) where
    pub attempt_loop-Ends :
        (attempt left k : ℕ)
        → k < left
        → ((i : ℕ) → i < k → retryable (operation (attempt + i)) ≡ true)
        → ((i : ℕ) → i < k → interrupted (attempt + i) ≡ false)
        → (retryable (operation (attempt + k)) ≡ false) ⊎ (suc k ≡ left)
        → Ends operation clock seen attempt k
            (attempt_loop settings operation clock interrupted seen attempt left)
    unfolding attempt_loop
    attempt_loop-Ends attempt zero k h retried slept last = absurd (omega arith)
    attempt_loop-Ends attempt (suc left) zero h retried slept last =
        let rest = attempt_loop settings operation clock interrupted seen (suc attempt) left in
        rw
          (conclude_ends (clock attempt) attempt left (interrupted attempt) (seen attempt)
            (operation attempt) rest (last_round last))
          (record {
            outcome_reported = rw add-zero;
            state_settled = rw add-zero;
            started_count = refl;
            pauses_taken = refl;
          })
      where
        last_round :
            (retryable (operation (attempt + 0)) ≡ false) ⊎ (1 ≡ suc left)
            → (retryable (operation attempt) ≡ false) ⊎ (left ≡ 0)
        last_round (inl e) = inl (rw add-zero at e)
        last_round (inr e) = inr (omega arith)
    attempt_loop-Ends attempt (suc left) (suc k) h retried slept last =
        let rest = attempt_loop settings operation clock interrupted seen (suc attempt) left in
        let ih =
          attempt_loop-Ends (suc attempt) left k (omega arith)
            (λ i lt.
              subst (λ n. retryable (operation n) ≡ true) (shift i) (retried (suc i) (omega arith)))
            (λ i lt. subst (λ n. interrupted n ≡ false) (shift i) (slept (suc i) (omega arith)))
            (next_round last) in
        rw
          (conclude_retries (clock attempt) attempt left (interrupted attempt) (seen attempt)
            (operation attempt) rest
            (subst (λ n. retryable (operation n) ≡ true) (add-zero attempt)
              (retried 0 (omega arith)))
            (omega arith)
            (subst (λ n. interrupted n ≡ false) (add-zero attempt) (slept 0 (omega arith))))
          (record {
            outcome_reported =
                subst (λ n. rest.outcome ≡ reported (operation n)) (sym (shift k))
                  ih.outcome_reported;
            state_settled =
                subst (λ n. rest.state ≡ settled settings (clock n) (seen n) (operation n))
                  (sym (shift k)) ih.state_settled;
            started_count = ap suc ih.started_count;
            pauses_taken = ap (◌∷◌ (pause settings attempt)) ih.pauses_taken;
          })
      where
        shift : (i : ℕ) → attempt + suc i ≡ suc attempt + i
        shift i = omega arith

        next_round :
            (retryable (operation (attempt + suc k)) ≡ false) ⊎ (suc (suc k) ≡ suc left)
            → (retryable (operation (suc attempt + k)) ≡ false) ⊎ (suc k ≡ left)
        next_round (inl e) = inl (subst (λ n. retryable (operation n) ≡ false) (shift k) e)
        next_round (inr e) = inr (omega arith)

module _ {A : Type 0} (settings : Settings) (operation : ℕ → Attempt A) (clock : ℕ → ℕ)
    (interrupted : ℕ → Bool) (now : ℕ) (state entered : CircuitState) where
  -- When a call is admitted, attempts 0 to k - 1 fail in a way that is retried
  -- and no pause after them is cancelled, and attempt k either
  -- is not retried or is the last that is allowed, then `execute` starts k + 1 operations, pauses
  -- before each further one for the doubled and bounded back-off, reports attempt k, and tells the
  -- circuit of attempt k alone: of a success, of a failure, and of nothing if it was cancelled.
  pub execute-Ends :
      (k : ℕ)
      → before_call settings now state ≡ admitted entered
      → k < attempts settings
      → ((i : ℕ) → i < k → retryable (operation (0 + i)) ≡ true)
      → ((i : ℕ) → i < k → interrupted (0 + i) ≡ false)
      → (retryable (operation (0 + k)) ≡ false) ⊎ (suc k ≡ attempts settings)
      → Ends settings operation clock
          (λ _. entered)
          0
          k
          (execute settings operation clock interrupted now state)
  unfolding execute
  execute-Ends k enters h retried slept last =
      rw (enters, execute)
        (attempt_loop-Ends settings operation clock interrupted (λ _. entered) 0 (attempts settings)
          k h retried slept last)
