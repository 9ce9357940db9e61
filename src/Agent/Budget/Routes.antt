-- ===== src/Agent/Budget/Routes.antt =====
-- A larger estimate or a larger use never chooses a larger model.
use shopping_agent.Common.{ℕ, ◌+◌, ◌≤◌, ◌≡◌, refl, ltb, arith}
use shopping_agent.Agent.Budget.{
  Route, main, lite, minimal, fallback, TokenBudgetState, Settings, route_for, choose_route,
  record_usage,
}

abbrev pub strength : Route → ℕ
strength main = 3
strength lite = 2
strength minimal = 1
strength fallback = 0

route_for_mono :
    (settings : Settings) (budget less more : ℕ)
    → less ≤ more
    → strength (route_for settings budget less) ≤ strength (route_for settings budget more)
unfolding route_for
route_for_mono settings budget less more h = ground arith

-- After any use is recorded, and for any estimate at least as large, the route that is chosen is no
-- stronger than the one chosen before; the budget stays; and the use raises exactly when the sum of
-- all tokens exceeds the budget.
pub choose_route-record_usage :
    (settings : Settings) (state : TokenBudgetState) (input output small large : ℕ)
    → small ≤ large
    → let next = record_usage input output state in
      (strength (choose_route settings large next.0).0
        ≤ strength (choose_route settings small state).0)
      × (next.0.budget ≡ state.budget)
      × (next.1 ≡ ltb state.budget (state.used + input + output))
unfolding choose_route record_usage
choose_route-record_usage settings state input output small large h =
    (route_for_mono settings state.budget _ _ (omega (arith, h)), refl, ground arith)
