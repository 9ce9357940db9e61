-- ===== src/Circuit.antt =====
-- app/provider_resilience.py: the per-provider circuit breaker and the retry loop of `execute`.
-- Times are natural numbers of one clock. A provider without an entry in the registry has the
-- default state, which `setdefault` makes. `failure_rate` is the fraction rate_num / rate_den.
pub mod Invariant
pub mod Probe
pub mod Retry
mod Examples
use shopping_agent.Common.{
  ℕ, zero, suc, ◌+◌, ◌-◌, ◌*◌, ◌^◌, min, max, Bool, true, false, not, ◌&&◌, ◌||◌, Option, none,
  some, List, [], ◌∷◌, ◌++◌, length, count_if, is_empty, ltb, leb, ◌==◌, if◌then◌else◌,
}

pub record Settings : Type 0 where
  pub window_size : ℕ
  pub failure_threshold : ℕ
  pub rate_num : ℕ
  pub rate_den : ℕ
  pub reset_seconds : ℕ
  pub retry_attempts : ℕ
  pub backoff : ℕ
  pub backoff_max : ℕ

-- `_CircuitState`; the head of `outcomes` is the oldest, `true` is a success.
pub record CircuitState : Type 0 where
  pub failures : ℕ
  pub opened_at : Option ℕ
  pub half_open_in_flight : Bool
  pub outcomes : List Bool

abbrev pub initial : CircuitState
initial = record { failures = 0; opened_at = none; half_open_in_flight = false; outcomes = [] }

-- `while len(outcomes) > window: outcomes.popleft()`
unfoldable pub trim : ℕ → List Bool → List Bool
trim window [] = []
trim window (x ∷ xs) = if ltb window (length (x ∷ xs)) then trim window xs else x ∷ xs

abbrev pub count_failures : List Bool → ℕ
count_failures outcomes = count_if not outcomes

pub data Admission : Type 0 where
  admitted : CircuitState → Admission
  circuit_open : Admission
  circuit_half_open : Admission

module _ (settings : Settings) where
  open settings use {window_size, failure_threshold, rate_num, rate_den, reset_seconds}

  unfoldable pub before_call : ℕ → CircuitState → Admission
  before_call now state = elim state.opened_at [
    | none ↦ admitted state
    | some opened ↦
        if ltb (now - opened) reset_seconds
        then circuit_open
        else if state.half_open_in_flight
        then circuit_half_open
        else admitted (record state { half_open_in_flight = true })
  ]

  unfoldable pub success : CircuitState → CircuitState
  success state =
      let outcomes =
        if state.half_open_in_flight then [] else trim window_size (state.outcomes ++ true ∷ []) in
      record {
        failures = count_failures outcomes;
        opened_at = none;
        half_open_in_flight = false;
        outcomes = outcomes;
      }

  -- The condition of `_failure` for opening the circuit, on the failures and the window's length.
  abbrev pub trips : ℕ → ℕ → Bool
  trips failures samples =
      let enough_samples = leb (min 5 window_size) samples in
      let rate_reached =
        if samples == 0 then rate_num == 0 else leb (rate_num * samples) (failures * rate_den) in
      leb failure_threshold failures || (enough_samples && rate_reached)

  unfoldable pub failure : ℕ → CircuitState → CircuitState
  failure now state =
      let outcomes = trim window_size (state.outcomes ++ false ∷ []) in
      let failures = count_failures outcomes in
      record {
        failures = failures;
        opened_at = if trips failures (length outcomes) then some now else state.opened_at;
        half_open_in_flight = false;
        outcomes = outcomes;
      }

-- How one attempt of the operation ends. `_retryable` is timeouts, transport errors, 429 and 5xx.
pub data Attempt (A : Type 0) : Type 0 where
  returned : A → Attempt A
  timed_out transport_failed : Attempt A
  http_status : ℕ → Attempt A
  other_error : Attempt A
  cancelled : Attempt A

unfoldable pub retryable : {A : Type 0} → Attempt A → Bool
retryable timed_out = true
retryable transport_failed = true
retryable (http_status code) = (code == 429) || leb 500 code
retryable _ = false

pub data Outcome (A : Type 0) : Type 0 where
  value : A → Outcome A
  raised : Attempt A → Outcome A
  rejected : Admission → Outcome A
  did_not_return : Outcome A

-- What `execute` leaves: the state, the outcome, the operations started and the pauses slept
-- (without their random part).
pub record Run (A : Type 0) : Type 0 where
  pub state : CircuitState
  pub outcome : Outcome A
  pub started : ℕ
  pub pauses : List ℕ

abbrev pub attempts : Settings → ℕ
attempts settings = max 1 (settings.retry_attempts + 1)

abbrev pub pause : Settings → ℕ → ℕ
pause settings attempt = min settings.backoff_max (settings.backoff * 2 ^ attempt)

module _ {A : Type 0} (settings : Settings) where
  abbrev pub after_attempt : ℕ → Run A → Run A
  after_attempt slept run = record run { started = suc run.started; pauses = slept ∷ run.pauses }

  abbrev pub final : CircuitState → Outcome A → Run A
  final state outcome = record { state = state; outcome = outcome; started = 1; pauses = [] }

  -- An attempt whose error is retried, unless the caller is cancelled during the pause.
  abbrev pub retried : Bool → ℕ → CircuitState → Run A → Run A
  retried true slept state rest = record {
    state = state;
    outcome = raised cancelled;
    started = 1;
    pauses = slept ∷ [];
  }
  retried false slept state rest = after_attempt slept rest

  -- The end of an attempt, `left` more being allowed and `rest` being the loop's next rounds.
  unfoldable pub conclude : ℕ → ℕ → ℕ → Bool → CircuitState → Attempt A → Run A → Run A
  unfolding retryable
  conclude now attempt left interrupted state (returned a) rest =
      final (success settings state) (value a)
  conclude now attempt left interrupted state cancelled rest = final state (raised cancelled)
  conclude now attempt left interrupted state error rest =
      if not (retryable error) || (left == 0)
      then final (failure settings now state) (raised error)
      else retried interrupted (pause settings attempt) state rest

  -- `for attempt in range(attempts)`, from round `attempt` on with `left` rounds to go. The operation, the
  -- clock and whether the pause after it is cancelled are given by round; other callers may change the
  -- state between rounds, which `seen` gives.
  unfoldable pub attempt_loop :
      (ℕ → Attempt A) → (ℕ → ℕ) → (ℕ → Bool) → (ℕ → CircuitState) → ℕ → ℕ → Run A
  unfolding conclude
  attempt_loop operation clock interrupted seen attempt zero = record {
    state = seen attempt;
    outcome = did_not_return;
    started = 0;
    pauses = [];
  }
  attempt_loop operation clock interrupted seen attempt (suc left) =
      let rest = attempt_loop operation clock interrupted seen (suc attempt) left in
      conclude (clock attempt) attempt left (interrupted attempt) (seen attempt) (operation attempt)
        rest

  -- Nothing else touches the provider's circuit between the rounds.
  unfoldable pub execute : (ℕ → Attempt A) → (ℕ → ℕ) → (ℕ → Bool) → ℕ → CircuitState → Run A
  unfolding attempt_loop before_call
  execute operation clock interrupted now state = elim (before_call settings now state) [
    | admitted entered ↦
        attempt_loop operation clock interrupted (λ _. entered) 0 (attempts settings)
    | refusal ↦ record { state = state; outcome = rejected refusal; started = 0; pauses = [] }
  ]
