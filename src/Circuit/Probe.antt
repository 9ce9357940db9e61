-- ===== src/Circuit/Probe.antt =====
-- The half-open circuit: one probe at a time, and what becomes of it.
use shopping_agent.Common.{
  ℕ, zero, suc, Bool, false, ◌<◌, ◌+◌, ◌≡◌, refl, ◌≢◌, true, some, [], arith,
}
use shopping_agent.Circuit.{
  Settings, CircuitState, initial, admitted, circuit_open, before_call, success, Attempt, returned,
  timed_out, transport_failed, http_status, other_error, cancelled, Outcome, raised, Run, conclude,
  value, rejected, attempts, execute, attempt_loop,
}
use shopping_agent.Circuit.Invariant.{is_open}

abbrev pub is_cancelled : {A : Type 0} → Outcome A → Bool
is_cancelled (raised cancelled) = true
is_cancelled _ = false

module _ (settings : Settings) where
  -- While the circuit has been open for less than a positive reset time, `execute` starts no operation,
  -- raises the open-circuit error and leaves the state as it was.
  pub execute_open :
      {A : Type 0} (operation : ℕ → Attempt A) (clock : ℕ → ℕ) (interrupted : ℕ → Bool)
      (now opened : ℕ) (state : CircuitState)
      → state.opened_at ≡ some opened
      → now < opened + settings.reset_seconds
      → 0 < settings.reset_seconds
      → execute settings operation clock interrupted now state
        ≡ record { state = state; outcome = rejected circuit_open; started = 0; pauses = [] }
  unfolding execute
  execute_open operation clock interrupted now opened state h k pos = ground arith

  -- The state that an open circuit enters with a probe admits nobody else.
  pub before_call_single :
      (now later : ℕ) (state entered next : CircuitState)
      → is_open state ≡ true
      → before_call settings now state ≡ admitted entered
      → before_call settings later entered ≢ admitted next
  unfolding before_call
  before_call_single now later state entered next h k = ground arith

  -- Only an admitted probe sets the flag, and it is set then.
  probe_flag :
      (now : ℕ) (state entered : CircuitState)
      → is_open state ≡ true
      → before_call settings now state ≡ admitted entered
      → (is_open entered ≡ true) × (entered.half_open_in_flight ≡ true)
  unfolding before_call
  probe_flag now state entered h k = ground arith

  execute_refused :
      {A : Type 0} (operation : ℕ → Attempt A) (clock : ℕ → ℕ) (interrupted : ℕ → Bool) (later : ℕ)
      (state : CircuitState)
      → (is_open state ≡ true) × (state.half_open_in_flight ≡ true)
      → ((execute settings operation clock interrupted later state).started ≡ 0)
        × ((execute settings operation clock interrupted later state).state ≡ state)
  unfolding execute
  execute_refused operation clock interrupted later state h = ground arith

  -- If the run is cancelled, its state is this.
  abbrev KeptIfCancelled : {A : Type 0} → CircuitState → Run A → Type 0
  KeptIfCancelled entered run = is_cancelled run.outcome ≡ true → run.state ≡ entered

  conclude-KeptIfCancelled :
      {A : Type 0} (now attempt left : ℕ) (stop : Bool) (entered : CircuitState) (a : Attempt A)
      (rest : Run A)
      → KeptIfCancelled entered rest
      → KeptIfCancelled entered (conclude settings now attempt left stop entered a rest)
  unfolding conclude
  conclude-KeptIfCancelled now attempt left stop entered (returned a) rest h k = cc
  conclude-KeptIfCancelled now attempt left stop entered cancelled rest h k = refl
  conclude-KeptIfCancelled now attempt left true entered timed_out rest h k = ground arith
  conclude-KeptIfCancelled now attempt left false entered timed_out rest h k = ground arith
  conclude-KeptIfCancelled now attempt left true entered transport_failed rest h k = ground arith
  conclude-KeptIfCancelled now attempt left false entered transport_failed rest h k = ground arith
  conclude-KeptIfCancelled now attempt left true entered (http_status c) rest h k = ground arith
  conclude-KeptIfCancelled now attempt left false entered (http_status c) rest h k = ground arith
  conclude-KeptIfCancelled now attempt left stop entered other_error rest h k = cc

  loop-KeptIfCancelled :
      {A : Type 0} (operation : ℕ → Attempt A) (clock : ℕ → ℕ) (interrupted : ℕ → Bool)
      (entered : CircuitState) (attempt left : ℕ)
      → KeptIfCancelled entered
          (attempt_loop settings operation clock interrupted (λ _. entered) attempt left)
  unfolding attempt_loop
  loop-KeptIfCancelled operation clock interrupted entered attempt zero = λ k. refl
  loop-KeptIfCancelled operation clock interrupted entered attempt (suc left) =
      conclude-KeptIfCancelled (clock attempt) attempt left (interrupted attempt) entered
        (operation attempt) _
        (loop-KeptIfCancelled operation clock interrupted entered (suc attempt) left)

  -- A probe that ends cancelled, in whichever attempt or pause between two attempts, leaves the circuit as
  -- the probe entered it. From then on no call through `execute` that finds the circuit so, however late,
  -- starts its operation or changes the circuit. Calls that were in flight before are not considered.
  pub execute_cancelled_probe :
      {A B : Type 0} (operation : ℕ → Attempt A) (clock : ℕ → ℕ) (interrupted : ℕ → Bool) (now : ℕ)
      (state entered : CircuitState)
      → is_open state ≡ true
      → before_call settings now state ≡ admitted entered
      → is_cancelled (execute settings operation clock interrupted now state).outcome ≡ true
      → ((execute settings operation clock interrupted now state).state ≡ entered)
        × ((next : ℕ → Attempt B) (next_clock : ℕ → ℕ) (next_interrupted : ℕ → Bool) (later : ℕ)
            → ((execute settings next next_clock next_interrupted later entered).started ≡ 0)
              × ((execute settings next next_clock next_interrupted later entered).state ≡ entered))
  unfolding execute
  execute_cancelled_probe operation clock interrupted now state entered h k =
      rw (k, execute)
        (λ e. (
          loop-KeptIfCancelled operation clock interrupted entered 0 (attempts settings) e,
          λ next next_clock next_interrupted later.
              execute_refused next next_clock next_interrupted later entered
                (probe_flag now state entered h k),
        ))

  -- A probe that returns at its first attempt closes the circuit and empties the window.
  pub execute_probe_closes :
      {A : Type 0} (operation : ℕ → Attempt A) (clock : ℕ → ℕ) (interrupted : ℕ → Bool) (now : ℕ)
      (state entered : CircuitState) (result : A)
      → is_open state ≡ true
      → before_call settings now state ≡ admitted entered
      → operation 0 ≡ returned result
      → ((execute settings operation clock interrupted now state).state ≡ initial)
        × ((execute settings operation clock interrupted now state).outcome ≡ value result)
  unfolding execute success
  execute_probe_closes operation clock interrupted now state entered result h k e =
      let rounds : attempts settings ≡ suc settings.retry_attempts = omega arith in
      let (opened, probing) = probe_flag now state entered h k in
      rw (k, rounds, e, probing, execute) (refl, refl)
