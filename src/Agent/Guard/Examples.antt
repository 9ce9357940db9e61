-- ===== src/Agent/Guard/Examples.antt =====
-- A model that repeats one call.
use shopping_agent.Common.{◌≡◌, refl, [], ◌∷◌, codes, text_eq, arith}
use shopping_agent.Agent.Guard.{Key, Policy, unused, record_tool_call, loop_detected, record_all}
use shopping_agent.Agent.Guard.Limits.{IsGuarded, record_all-IsGuarded}

abbrev policy : Policy
policy = record { max_tool_calls = 5; loop_threshold = 2 }

abbrev search : Key
search = (codes "item_search", codes "{}")

third_refused :
    record_tool_call policy search (record_all policy (search ∷ search ∷ []) unused) ≡ loop_detected
unfolding record_all text_eq
third_refused = refl

record_all-IsGuarded_example :
    IsGuarded policy (record_all policy (search ∷ search ∷ search ∷ []) unused)
record_all-IsGuarded_example =
    record_all-IsGuarded policy (search ∷ search ∷ search ∷ []) unused
      (record { counted = refl; bounded = omega arith; repeated = λ key. omega arith })
