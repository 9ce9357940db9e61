-- ===== src/Decision/Constraint.antt =====
-- Hard constraints against product evidence: `evaluate_constraint` and its helpers in
-- app/tools/decision_engine.py.
mod Sources
pub mod Budget
mod Examples
use shopping_agent.Common.{
  ℕ, ◌≡◌, Bool, true, false, not, ◌&&◌, ◌||◌, Option, none, some, List, [], ◌∷◌, ◌++◌, map, Text,
  codes, text_eq, text_mem, contains, any, all, is_empty, if◌then◌else◌,
}
use shopping_agent.Common.Decimal.{Decimal}
use shopping_agent.Decision.Value.{
  Num, nonneg, num_leb, num_eq, Value, text, number, other, str, normal, normal_text, numeric,
}
unfoldable pub use Sources.*

pub data Status : Type 0 where
  satisfied violated unknown : Status

pub data ReasonCode : Type 0 where
  missing_product_evidence budget_within_limit value_within_max value_meets_minimum : ReasonCode
  value_matches value_differs budget_exceeded value_out_of_range : ReasonCode
  attribute_matches attribute_conflicts attribute_differs : ReasonCode
  prohibited_attribute_absent prohibited_attribute_present : ReasonCode

-- `ConstraintEvaluation`
pub record Evaluation : Type 0 where
  pub constraint : HardConstraint
  pub status : Status
  pub reason_code : ReasonCode
  pub evidence : List Evidence

abbrev unknown_evaluation : HardConstraint → List Evidence → Evaluation
unknown_evaluation constraint evidence = record {
  constraint = constraint;
  status = unknown;
  reason_code = missing_product_evidence;
  evidence = evidence;
}

abbrev judged : HardConstraint → List Evidence → Bool → ReasonCode → ReasonCode → Evaluation
judged constraint evidence ok satisfied_code violated_code = record {
  constraint = constraint;
  status = if ok then satisfied else violated;
  reason_code = if ok then satisfied_code else violated_code;
  evidence = evidence;
}

-- The numbers among the evidence.
unfoldable pub actuals : Option Text → List Evidence → List Num
actuals unit [] = []
actuals unit (e ∷ es) = elim (numeric e.value unit) [
  | none ↦ actuals unit es
  | some n ↦ n ∷ actuals unit es
]

abbrev is_budget : Kind → Bool
is_budget budget = true
is_budget _ = false

unfoldable pub judge_numbers :
    Operator → HardConstraint → List Evidence → Num → List Num → Evaluation
judge_numbers lte c es expected found =
    judged c es (any (λ n. num_leb n expected) found)
      (if is_budget c.kind then budget_within_limit else value_within_max)
      (if is_budget c.kind then budget_exceeded else value_out_of_range)
judge_numbers gte c es expected found =
    judged c es (any (λ n. num_leb expected n) found) value_meets_minimum
      (if is_budget c.kind then budget_exceeded else value_out_of_range)
judge_numbers equals c es expected found =
    judged c es (any (λ n. num_eq n expected) found) value_matches
      (if is_budget c.kind then budget_exceeded else value_out_of_range)
judge_numbers not_equals c es expected found =
    judged c es (all (λ n. not (num_eq n expected)) found) value_differs
      (if is_budget c.kind then budget_exceeded else value_out_of_range)
judge_numbers contains_text c es expected found = unknown_evaluation c es
judge_numbers not_contains c es expected found = unknown_evaluation c es

unfoldable pub evaluate_numeric : HardConstraint → List Evidence → Evaluation
unfolding actuals judge_numbers
evaluate_numeric c es = elim (numeric c.value c.unit) [
  | none ↦ unknown_evaluation c es
  | some expected ↦
      if is_empty (actuals c.unit es)
      then unknown_evaluation c es
      else judge_numbers c.operator c es expected (actuals c.unit es)
]

unfoldable pub judge_texts :
    Operator → HardConstraint → List Evidence → Text → List Text → Evaluation
judge_texts contains_text c es expected values =
    judged c es (any (contains expected) values) attribute_matches attribute_conflicts
judge_texts not_contains c es expected values =
    judged c es (not (any (contains expected) values)) prohibited_attribute_absent
      prohibited_attribute_present
judge_texts equals c es expected values =
    judged c es (any (λ v. text_eq v expected) values) attribute_matches attribute_conflicts
judge_texts not_equals c es expected values =
    judged c es (all (λ v. not (text_eq v expected)) values) attribute_differs attribute_conflicts
judge_texts lte c es expected values = unknown_evaluation c es
judge_texts gte c es expected values = unknown_evaluation c es

abbrev is_textual : Operator → Bool
is_textual contains_text = true
is_textual not_contains = true
is_textual _ = false

abbrev title_fields : List Text
title_fields = codes "material" ∷ codes "color" ∷ codes "style" ∷ codes "specification" ∷ []

-- The title stands in for missing evidence, but only when it holds the expected text.
abbrev title_evidence : Offer → HardConstraint → List Evidence → List Evidence
title_evidence offer c es =
    if is_empty es
      && text_mem c.field title_fields
      && is_textual c.operator
      && contains (normal_text c.value) (normal offer.title)
    then record { field_path = codes "title"; value = text offer.title } ∷ []
    else es

unfoldable pub evaluate_text : Offer → HardConstraint → List Evidence → Evaluation
unfolding judge_texts
evaluate_text offer c given =
    let es = title_evidence offer c given in
    if is_empty es
    then unknown_evaluation c es
    else judge_texts c.operator c es (normal_text c.value) (map (λ e. normal_text e.value) es)

abbrev orders : Operator → Bool
orders lte = true
orders gte = true
orders _ = false

abbrev compares : Operator → Bool
compares equals = true
compares not_equals = true
compares _ = false

unfoldable pub evaluate_constraint : Offer → HardConstraint → Evaluation
unfolding facts_for_constraint evaluate_numeric evaluate_text
evaluate_constraint offer c =
    let es = facts_for_constraint offer c in
    if text_eq c.field budget_field || orders c.operator
    then evaluate_numeric c es
    else if compares c.operator && not (is_empty (actuals c.unit es))
    then evaluate_numeric c es
    else evaluate_text offer c es
