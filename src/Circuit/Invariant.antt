-- ===== src/Circuit/Invariant.antt =====
-- What holds of a circuit after any sequence of calls.
use shopping_agent.Common.{
  ℕ, ◌+◌, ◌-◌, ◌≤◌, ◌<◌, min, ◌≡◌, refl, Bool, true, false, not, Option, none, some, dec_lt, List,
  [], ◌∷◌, ◌++◌, length, length-append, count_if-append, arith, if◌then◌else◌, subst,
}
use shopping_agent.Circuit.{
  Settings, CircuitState, initial, trim, count_failures, Admission, admitted, before_call, success,
  trips, failure,
}

-- What other code does to a circuit: entering a call, and reporting how it ended.
pub data Event : Type 0 where
  enter : ℕ → Event
  succeed : Event
  fail : ℕ → Event

abbrev admitted_state : CircuitState → Admission → CircuitState
admitted_state state (admitted next) = next
admitted_state state _ = state

unfoldable pub step : Settings → CircuitState → Event → CircuitState
unfolding before_call success failure
step settings state (enter now) = admitted_state state (before_call settings now state)
step settings state succeed = success settings state
step settings state (fail now) = failure settings now state

unfoldable pub run : Settings → CircuitState → List Event → CircuitState
unfolding step
run settings state [] = state
run settings state (e ∷ es) = run settings (step settings state e) es

pub length-trim : (window : ℕ) (xs : List Bool) → length (trim window xs) ≡ min window (length xs)
unfolding trim
length-trim window [] = omega arith
length-trim window (x ∷ xs) = ground (arith, length-trim window xs)

trim_self : (window : ℕ) (xs : List Bool) → length xs ≤ window → trim window xs ≡ xs
unfolding trim
trim_self window [] h = refl
trim_self window (x ∷ xs) h = ground arith

count_failures-trim :
    (window : ℕ) (xs : List Bool)
    → count_failures xs ≤ count_failures (trim window xs) + (length xs - window)
unfolding trim
count_failures-trim window [] = omega arith
count_failures-trim window (x ∷ xs) = ground (arith, count_failures-trim window xs)

-- What the configuration guarantees: a window of at least one call and a rate of at most one.
pub record IsSane (settings : Settings) : Type 0 where
  pub window_pos : 1 ≤ settings.window_size
  pub rate_le_one : settings.rate_num ≤ settings.rate_den

abbrev pub is_some : Option ℕ → Bool
is_some none = false
is_some (some t) = true

abbrev pub is_open : CircuitState → Bool
is_open state = is_some state.opened_at

opened_only_if :
    (t : Bool) (now : ℕ) (old : Option ℕ)
    → (is_some old ≡ true → t ≡ true)
    → is_some (if t then some now else old) ≡ true
    → t ≡ true
opened_only_if true now old h k = refl
opened_only_if false now old h k = h k

pub record Inv (settings : Settings) (state : CircuitState) : Type 0 where
  pub bounded : length state.outcomes ≤ settings.window_size
  pub counted : state.failures ≡ count_failures state.outcomes
  pub probing : state.half_open_in_flight ≡ true → is_open state ≡ true
  pub tripped : is_open state ≡ true → trips settings state.failures (length state.outcomes) ≡ true

-- One more failure in a window of `n` calls cannot undo the condition for opening.
trips_grow :
    (settings : Settings) (f n : ℕ)
    → settings.rate_num ≤ settings.rate_den
    → trips settings f n ≡ true
    → trips settings (f + 1) (n + 1) ≡ true
trips_grow settings f n r h = ground arith

trips_mono :
    (settings : Settings) (f g n : ℕ)
    → f ≤ g
    → trips settings f n ≡ true
    → trips settings g n ≡ true
trips_mono settings f g n le h = grind arith

module _ (settings : Settings) (sane : IsSane settings) where
  pub initial-Inv : Inv settings initial
  initial-Inv = record {
    bounded = omega arith;
    counted = refl;
    probing = λ h. cc;
    tripped = λ h. cc;
  }

  -- The window after a failure: its length, and that no failure is lost from it.
  window_after :
      (outcomes : List Bool)
      → length outcomes ≤ settings.window_size
      → trips settings (count_failures outcomes) (length outcomes) ≡ true
      → let next = trim settings.window_size (outcomes ++ false ∷ []) in
        trips settings (count_failures next) (length next) ≡ true
  window_after outcomes fits tripped = elim (dec_lt (length outcomes) settings.window_size) [
    | yes room ↦
        rw (trim_self settings.window_size (outcomes ++ false ∷ []) (omega (arith, longer)))
          (rw (longer, more) (trips_grow settings _ _ sane.rate_le_one tripped))
    | no full ↦ rw (same_length full) (
        trips_mono settings (count_failures outcomes) _ (length outcomes)
          (omega (arith, more, longer, count_failures-trim settings.window_size appended)) tripped)
  ]
    where
      open sane use {window_pos}

      appended : List Bool
      appended = outcomes ++ false ∷ []

      longer : length appended ≡ length outcomes + 1
      longer = length-append outcomes (false ∷ [])

      more : count_failures appended ≡ count_failures outcomes + 1
      more = count_if-append not outcomes (false ∷ [])

      same_length :
          ¬ (length outcomes < settings.window_size)
          → length (trim settings.window_size appended) ≡ length outcomes
      same_length full = omega (arith, longer, length-trim settings.window_size appended)

  module _ (state : CircuitState) (inv : Inv settings state) where
    tripped_count :
        is_open state ≡ true
        → trips settings (count_failures state.outcomes) (length state.outcomes) ≡ true
    tripped_count h =
        subst (λ f. trips settings f (length state.outcomes) ≡ true) inv.counted (inv.tripped h)

    enter-Inv : (now : ℕ) → Inv settings (step settings state (enter now))
    unfolding step
    enter-Inv now = ground arith

    succeed-Inv : Inv settings (step settings state succeed)
    unfolding step
    succeed-Inv = record {
      bounded = ground (arith, length-trim settings.window_size (state.outcomes ++ true ∷ []));
      counted = refl;
      probing = λ h. cc;
      tripped = λ h. cc;
    }

    -- With a window of at least one call and a failure rate of at most one, in a state that satisfies
    -- the invariant, a failure on an open circuit opens it anew, at the time of that failure.
    pub failure_reopens :
        (now : ℕ) → is_open state ≡ true → (failure settings now state).opened_at ≡ some now
    unfolding failure
    failure_reopens now h = rw (window_after state.outcomes inv.bounded (tripped_count h))

    fail-Inv : (now : ℕ) → Inv settings (step settings state (fail now))
    unfolding step
    fail-Inv now = record {
      bounded = ground (arith, length-trim settings.window_size (state.outcomes ++ false ∷ []));
      counted = refl;
      probing = λ h. cc;
      tripped =
          opened_only_if _ now state.opened_at
            (λ h. window_after state.outcomes inv.bounded (tripped_count h));
    }

    pub step-Inv : (e : Event) → Inv settings (step settings state e)
    step-Inv (enter now) = enter-Inv now
    step-Inv succeed = succeed-Inv
    step-Inv (fail now) = fail-Inv now

  -- With a window of at least one call and a failure rate of at most one, from a state that satisfies
  -- these conditions, however calls to a provider interleave, its window stays within the configured size, `failures`
  -- counts the failures in the window, a probe is in flight only while the circuit is open, and the
  -- circuit is open only while the window meets the condition for opening it.
  pub run-Inv :
      (state : CircuitState) (es : List Event)
      → Inv settings state
      → Inv settings (run settings state es)
  unfolding run
  run-Inv state [] inv = inv
  run-Inv state (e ∷ es) inv = run-Inv (step settings state e) es (step-Inv state inv e)
