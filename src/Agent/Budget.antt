-- ===== src/Agent/Budget.antt =====
-- app/agent/budget.py: token accounting and the choice of a model route. The context variable is the
-- state; a negative number of tokens counts as none in the code, so counts are natural numbers.
mod Routes
mod Examples
use shopping_agent.Common.{
  ℕ, zero, suc, ◌+◌, ◌-◌, ◌/◌, max, Bool, true, false, List, [], ◌∷◌, ltb, leb, if◌then◌else◌,
}

pub data Route : Type 0 where
  main lite minimal fallback : Route

-- `TokenBudgetState`
pub record TokenBudgetState : Type 0 where
  pub budget : ℕ
  pub used : ℕ
  pub route : Route

-- `token_budget` and the two route thresholds.
pub record Settings : Type 0 where
  pub token_budget : ℕ
  pub minimal_threshold : ℕ
  pub lite_threshold : ℕ

abbrev pub remaining : TokenBudgetState → ℕ
remaining state = state.budget - state.used

module _ (settings : Settings) where
  -- A budget of 0 is the configured one, as is None.
  unfoldable pub start_budget : ℕ → TokenBudgetState
  start_budget zero = record { budget = max 256 settings.token_budget; used = 0; route = main }
  start_budget (suc n) = record { budget = max 256 (suc n); used = 0; route = main }

  unfoldable pub route_for : ℕ → ℕ → Route
  route_for budget left =
      if leb left (max 256 (budget / 20))
      then fallback
      else if leb left settings.minimal_threshold
      then minimal
      else if leb left settings.lite_threshold
      then lite
      else main

  unfoldable pub choose_route : ℕ → TokenBudgetState → Route × TokenBudgetState
  unfolding route_for
  choose_route estimated state =
      let route = route_for state.budget (remaining state - estimated) in
      (route, record state { route = route })

-- The stored state, and whether TokenBudgetExceeded is raised.
unfoldable pub record_usage : ℕ → ℕ → TokenBudgetState → TokenBudgetState × Bool
record_usage input output state =
    let next = record state { used = state.used + (input + output) } in
    (next, ltb next.budget next.used)
