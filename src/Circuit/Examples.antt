-- ===== src/Circuit/Examples.antt =====
-- Concrete circuits: each theorem at an input, and tests that can be followed in the source.
use shopping_agent.Common.{
  ℕ, suc, ◌+◌, ◌≤◌, ◌≡◌, refl, true, false, some, [], ◌∷◌, arith, inl, Bool, ◌==◌,
}
use shopping_agent.Circuit.{
  Settings, CircuitState, initial, trim, before_call, Attempt, returned, http_status, execute,
  retryable,
}
use shopping_agent.Circuit.Invariant.{enter, succeed, fail, run, IsSane, Inv, initial-Inv, run-Inv}
use shopping_agent.Circuit.Probe.{execute_cancelled_probe}
use shopping_agent.Circuit.Retry.{Ends, execute-Ends}

abbrev settings : Settings
settings = record {
  window_size = 4;
  failure_threshold = 3;
  rate_num = 1;
  rate_den = 2;
  reset_seconds = 30;
  retry_attempts = 2;
  backoff = 4;
  backoff_max = 10;
}

abbrev opened : CircuitState
opened = record {
  failures = 3;
  opened_at = some 100;
  half_open_in_flight = false;
  outcomes = false ∷ false ∷ false ∷ [];
}

abbrev probing : CircuitState
probing = record opened { half_open_in_flight = true }

-- Two failures, a success, and two more failures open the circuit at the last one.
opens_on_failures : run settings initial (fail 1 ∷ succeed ∷ fail 2 ∷ fail 3 ∷ []) ≡ record {
  failures = 3;
  opened_at = some 3;
  half_open_in_flight = false;
  outcomes = false ∷ true ∷ false ∷ false ∷ [];
}
unfolding run trim
opens_on_failures = refl

settings-IsSane : IsSane settings
settings-IsSane = omega arith

run-Inv_example : Inv settings (run settings initial (fail 1 ∷ fail 2 ∷ fail 3 ∷ enter 40 ∷ []))
run-Inv_example =
    run-Inv settings settings-IsSane initial (fail 1 ∷ fail 2 ∷ fail 3 ∷ enter 40 ∷ [])
      (initial-Inv settings settings-IsSane)

opened-Inv : Inv settings opened
opened-Inv = record {
  bounded = omega arith;
  counted = refl;
  probing = λ h. refl;
  tripped = λ h. refl;
}

abbrev flaky : ℕ → Attempt ℕ
flaky ℕ.zero = http_status 503
flaky (suc n) = returned 7

abbrev unavailable : ℕ → Attempt ℕ
unavailable n = http_status 503

-- Cancelled in the pause after the second attempt.
abbrev second_pause : ℕ → Bool
second_pause n = n == 1

abbrev undisturbed : ℕ → Bool
undisturbed n = false

execute_cancelled_probe_example :
    ((execute settings unavailable (λ n. n) second_pause 131 opened).state ≡ probing)
    × ((next : ℕ → Attempt ℕ) (next_clock : ℕ → ℕ) (next_interrupted : ℕ → Bool) (later : ℕ)
        → ((execute settings next next_clock next_interrupted later probing).started ≡ 0)
          × ((execute settings next next_clock next_interrupted later probing).state ≡ probing))
unfolding before_call execute
execute_cancelled_probe_example =
    execute_cancelled_probe settings unavailable (λ n. n) second_pause 131 opened probing refl refl
      refl

flaky_retried : (i : ℕ) → suc i ≤ 1 → retryable (flaky (0 + i)) ≡ true
unfolding retryable
flaky_retried ℕ.zero h = refl
flaky_retried (suc i) h = absurd (omega arith)

execute-Ends_example :
    Ends settings flaky
      (λ n. n)
      (λ _. initial)
      0
      1
      (execute settings flaky (λ n. n) undisturbed 5 initial)
unfolding before_call retryable
execute-Ends_example =
    execute-Ends settings flaky (λ n. n) undisturbed 5 initial initial 1 refl (omega arith)
      flaky_retried (λ i h. refl) (inl refl)
