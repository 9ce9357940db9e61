-- ===== src/Decision/Engine/Examples.antt =====
-- Three chargers against a budget: one within it, one above it, and one without material evidence.
use shopping_agent.Common.{◌≡◌, refl, true, false, none, some, List, [], ◌∷◌, All, Text, codes}
use shopping_agent.Common.Decimal.{decimal}
use shopping_agent.Decision.Value.{nonneg, num_leb, numeric, text}
use shopping_agent.Decision.Constraint.{
  budget, material, lte, not_contains, HardConstraint, Offer, budget_field,
}
use shopping_agent.Decision.Preferences.{
  Intent, Preferences, product_research, landed_cost, preference_match, evidence_quality,
  delivery_time,
}
use shopping_agent.Decision.Engine.{assort_all, decision_engine}
use shopping_agent.Decision.Engine.Assorting.{IsClassed, assort_all-IsClassed}
use shopping_agent.Decision.Engine.Shortlist.{
  IsShortlist, decision_engine-IsShortlist, decision_engine-budget,
}

abbrev cheap : Offer
cheap = record {
  item_id = codes "a";
  platform = codes "jd";
  title = codes "Qi charger";
  identity = record { brand = none; model = none; gtin = none; mpn = none };
  attributes = (codes "material", some (text (codes "aluminium"))) ∷ [];
  variant_attributes = [];
  landed_cny = decimal 15000 2;
  eta_days = 3;
  product_price_only = false;
  known_source = true;
  has_provenance = true;
  has_product_url = true;
  has_identity = true;
  has_availability = true;
  has_retrieved_at = true;
  has_rating = false;
  has_sales = false;
}

abbrev dear : Offer
dear = record cheap { item_id = codes "b"; landed_cny = decimal 30000 2 }

abbrev vague : Offer
vague = record cheap { item_id = codes "c"; attributes = [] }

abbrev limit_200 : HardConstraint
limit_200 = record {
  id = codes "budget";
  kind = budget;
  field = budget_field;
  operator = lte;
  value = text (codes "200");
  unit = none;
}

abbrev no_plastic : HardConstraint
no_plastic = record {
  id = codes "material";
  kind = material;
  field = codes "material";
  operator = not_contains;
  value = text (codes "plastic");
  unit = none;
}

abbrev plan : Intent
plan = record {
  mode = product_research;
  hard_constraints = no_plastic ∷ limit_200 ∷ [];
  material_preferences = [];
  style_preferences = [];
  soft_preferences = codes "charger" ∷ [];
  priority_order = landed_cost ∷ preference_match ∷ evidence_quality ∷ delivery_time ∷ [];
}

abbrev nothing_remembered : Preferences
nothing_remembered = record {
  material_preferences = [];
  style_preferences = [];
  soft_preferences = [];
  avoid = [];
}

abbrev offers : List Offer
offers = dear ∷ vague ∷ cheap ∷ []

abbrev same : Text → Text
same t = t

assort_all-IsClassed_example :
    IsClassed (no_plastic ∷ limit_200 ∷ []) offers (assort_all (no_plastic ∷ limit_200 ∷ []) offers)
assort_all-IsClassed_example = assort_all-IsClassed (no_plastic ∷ limit_200 ∷ []) offers

decision_engine-IsShortlist_example :
    IsShortlist plan (decision_engine same plan nothing_remembered 5 [] offers).0
decision_engine-IsShortlist_example =
    decision_engine-IsShortlist same plan nothing_remembered 5 [] offers

decision_engine-budget_example :
    All
      (λ s. num_leb (nonneg s.offer.landed_cny) (nonneg (decimal 200 0)) ≡ true)
      (decision_engine same plan nothing_remembered 5 [] offers).0.recommendations
unfolding numeric
decision_engine-budget_example =
    decision_engine-budget same plan nothing_remembered [] 5 offers (nonneg (decimal 200 0))
      (no_plastic ∷ []) limit_200 [] refl refl refl refl
