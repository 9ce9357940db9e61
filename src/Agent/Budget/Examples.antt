-- ===== src/Agent/Budget/Examples.antt =====
-- A budget of ten thousand tokens.
use shopping_agent.Common.{◌≤◌, ◌≡◌, ltb, ◌+◌, arith}
use shopping_agent.Agent.Budget.{TokenBudgetState, Settings, main, choose_route, record_usage}
use shopping_agent.Agent.Budget.Routes.{strength, choose_route-record_usage}

abbrev settings : Settings
settings = record { token_budget = 10000; minimal_threshold = 1000; lite_threshold = 4000 }

abbrev state : TokenBudgetState
state = record { budget = 10000; used = 2000; route = main }

choose_route-record_usage_example :
    let next = record_usage 3000 2000 state in
    (strength (choose_route settings 500 next.0).0 ≤ strength (choose_route settings 100 state).0)
    × (next.0.budget ≡ state.budget)
    × (next.1 ≡ ltb state.budget (state.used + 3000 + 2000))
choose_route-record_usage_example =
    choose_route-record_usage settings state 3000 2000 100 500 (omega arith)
