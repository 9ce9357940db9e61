-- ===== src/Decision/Preferences/Examples.antt =====
-- A request for cotton against a memory of wool and linen.
use shopping_agent.Common.{◌≡◌, refl, [], ◌∷◌, ◌++◌, All, codes, text_eq, text_mem}
use shopping_agent.Decision.Preferences.{
  Intent, Preferences, product_research, landed_cost, preference_match, evidence_quality,
  delivery_time, current_preferences, resolve_preferences,
}
use shopping_agent.Decision.Preferences.Override.{IsFree, resolve_preferences-IsFree}

abbrev plan : Intent
plan = record {
  mode = product_research;
  hard_constraints = [];
  material_preferences = codes "cotton" ∷ [];
  style_preferences = [];
  soft_preferences = [];
  priority_order = landed_cost ∷ preference_match ∷ evidence_quality ∷ delivery_time ∷ [];
}

abbrev remembered : Preferences
remembered = record {
  material_preferences = codes "wool" ∷ [];
  style_preferences = codes "plain" ∷ [];
  soft_preferences = [];
  avoid = codes "Cotton" ∷ codes "linen" ∷ [];
}

cotton_wins : (resolve_preferences plan remembered).effective_remembered ≡ record {
  material_preferences = [];
  style_preferences = codes "plain" ∷ [];
  soft_preferences = [];
  avoid = codes "linen" ∷ [];
}
unfolding resolve_preferences text_eq text_mem
cotton_wins = refl

resolve_preferences-IsFree_example :
    let current = current_preferences plan in
    let materials = current.material_preferences ++ current.avoid in
    let kept = (resolve_preferences plan remembered).effective_remembered in
    All (IsFree current.material_preferences materials) kept.material_preferences
    × All (IsFree current.style_preferences []) kept.style_preferences
    × All (IsFree current.soft_preferences []) kept.soft_preferences
    × All (IsFree current.avoid materials) kept.avoid
resolve_preferences-IsFree_example = resolve_preferences-IsFree plan remembered
