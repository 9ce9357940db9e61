-- ===== src/Decision/Constraint/Examples.antt =====
-- A wireless charger against a budget and a prohibition.
use shopping_agent.Common.{
  ◌≡◌, refl, true, false, none, some, [], ◌∷◌, any, map, contains, is_empty, codes,
}
use shopping_agent.Common.Decimal.{decimal}
use shopping_agent.Decision.Value.{text, numeric, normal_text, num_leb}
use shopping_agent.Decision.Constraint.{
  budget, material, lte, not_contains, HardConstraint, Offer, budget_field, evaluate_constraint,
  satisfied, mapping_values,
}
use shopping_agent.Decision.Constraint.Budget.{evaluate_constraint-prohibition}

abbrev charger : Offer
charger = record {
  item_id = codes "c1";
  platform = codes "jd";
  title = codes "Qi charger";
  identity = record { brand = none; model = none; gtin = none; mpn = none };
  attributes = (codes "Material", some (text (codes "Recycled aluminium"))) ∷ [];
  variant_attributes = [];
  landed_cny = decimal 19999 2;
  eta_days = 3;
  product_price_only = false;
  known_source = true;
  has_provenance = true;
  has_product_url = true;
  has_identity = true;
  has_availability = true;
  has_retrieved_at = true;
  has_rating = false;
  has_sales = false;
}

abbrev under_200 : HardConstraint
under_200 = record {
  id = codes "budget";
  kind = budget;
  field = budget_field;
  operator = lte;
  value = text (codes "200");
  unit = none;
}

abbrev no_plastic : HardConstraint
no_plastic = record {
  id = codes "material";
  kind = material;
  field = codes "material";
  operator = not_contains;
  value = text (codes "Plastic");
  unit = none;
}

budget_met : (evaluate_constraint charger under_200).status ≡ satisfied
unfolding evaluate_constraint numeric num_leb
budget_met = refl

evaluate_constraint-prohibition_example :
    (is_empty (mapping_values charger no_plastic.field) ≡ false)
    × (any
          (contains (normal_text no_plastic.value))
          (map (λ e. normal_text e.value) (mapping_values charger no_plastic.field))
        ≡ false)
unfolding evaluate_constraint contains normal_text
evaluate_constraint-prohibition_example =
    evaluate_constraint-prohibition charger no_plastic refl refl refl
