-- ===== src/Harness/Examples.antt =====
-- A task that plans, searches, recalls, compares and concludes.
use shopping_agent.Common.{◌≡◌, refl, true, false, List, [], ◌∷◌, codes, text_mem, length}
use shopping_agent.Harness.{is_tool_allowed, Step, call, run, started}
use shopping_agent.Harness.Ordered.{in_order, run-in_order}

abbrev steps : List Step
steps =
    call (codes "shopping_summary") true
    ∷ call (codes "planner") true
    ∷ call (codes "item_search") true
    ∷ call (codes "recall") false
    ∷ call (codes "recall") true
    ∷ call (codes "price_compare") true
    ∷ call (codes "shipping_calc") true
    ∷ call (codes "item_picker") true
    ∷ []

-- The first call is refused and one fails.
carried_out : length (run steps started).log ≡ 6
unfolding run
carried_out = refl

run-in_order_example :
    in_order (codes "recall" ∷ codes "shipping_calc" ∷ []) (run steps started).log ≡ true
unfolding run text_mem is_tool_allowed
run-in_order_example = run-in_order steps (codes "shopping_summary") refl refl
