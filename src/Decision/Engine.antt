-- ===== src/Decision/Engine.antt =====
-- app/tools/decision_engine.py: which offers are recommended, left unverified or excluded, and in which
-- order.
mod Scores
mod Assorting
mod Shortlist
mod Examples
use shopping_agent.Common.{
  ℕ, zero, suc, ◌+◌, ◌*◌, ◌/◌, min, max, ◌≡◌, Bool, true, false, not, ◌&&◌, ◌||◌, Option, none,
  some, List, [], ◌∷◌, ◌++◌, map, Text, codes, text_eq, text_mem, starts_with, contains, text_order,
  nat_order, Order, by_key, ◌then_by◌, reversed, sort, take, drop, length, any, keep, count_if,
  is_empty, if◌then◌else◌,
}
use shopping_agent.Common.Decimal.{Decimal, decimal, decimal_order}
use shopping_agent.Decision.Value.{Num, Value, str, normal, is_space}
use shopping_agent.Decision.Constraint.{
  HardConstraint, Offer, Evaluation, Status, satisfied, violated, unknown, evaluate_constraint,
}
use shopping_agent.Decision.Preferences.{
  Intent, Preferences, Mode, product_research, exact_offer_comparison, Dimension, landed_cost,
  preference_match, evidence_quality, delivery_time, PreferenceDecision, without_prefix,
  excludes_mark, refuses_mark, resolve_preferences,
}
use shopping_agent.Decision.Identity.{IdentityEvidence}
use shopping_agent.Decision.Identity.Groups.{Classification, classify_exact_offers}
unfoldable pub use Scores.*

abbrev pub is_violated : Evaluation → Bool
is_violated e = elim e.status [ violated ↦ true | satisfied ↦ false | unknown ↦ false ]

abbrev pub is_unknown : Evaluation → Bool
is_unknown e = elim e.status [ unknown ↦ true | satisfied ↦ false | violated ↦ false ]

-- The three classes, in the order of the offers.
pub record Classes : Type 0 where
  pub recommendations : List (Offer × List Evaluation)
  pub unverified : List (Offer × List Evaluation)
  pub exclusions : List (Offer × List Evaluation)

unfoldable pub evaluations_of : List HardConstraint → Offer → List Evaluation
unfolding evaluate_constraint
evaluations_of constraints offer = map (evaluate_constraint offer) constraints

unfoldable pub assort : Offer → List Evaluation → Classes → Classes
assort offer evaluations later =
    if any is_unknown evaluations
    then record later { unverified = (offer, evaluations) ∷ later.unverified }
    else if any is_violated evaluations
    then record later { exclusions = (offer, evaluations) ∷ later.exclusions }
    else record later { recommendations = (offer, evaluations) ∷ later.recommendations }

unfoldable pub assort_all : List HardConstraint → List Offer → Classes
unfolding evaluations_of assort
assort_all constraints [] = record { recommendations = []; unverified = []; exclusions = [] }
assort_all constraints (offer ∷ offers) =
    assort offer (evaluations_of constraints offer) (assort_all constraints offers)

-- `_relaxations`, by the constraints alone.
unfoldable pub relaxations_from : List Text → List Evaluation → List HardConstraint
unfolding text_mem
relaxations_from seen [] = []
relaxations_from seen (e ∷ es) =
    let fresh = e.constraint ∷ relaxations_from (e.constraint.id ∷ seen) es in
    let rest = relaxations_from seen es in if text_mem e.constraint.id seen then rest else fresh

violations : List (Offer × List Evaluation) → List Evaluation
violations [] = []
violations ((offer, evaluations) ∷ rest) = keep is_violated evaluations ++ violations rest

-- `ItemPickerOutput`; the rank of a recommendation is its place.
pub record Output : Type 0 where
  pub recommendations : List Scored
  pub matching_offers : List Offer
  pub alternative_candidates : List (Offer × IdentityEvidence)
  pub unverified_candidates : List (Offer × List Evaluation)
  pub exclusions : List (Offer × List Evaluation)
  pub relaxation_suggestions : List HardConstraint
  pub matched : Bool
  pub rejected_count : ℕ

unfoldable pub conclude :
    Intent
    → Preferences
    → ℕ
    → List (Text × Num)
    → List Offer
    → List (Offer × IdentityEvidence)
    → Output
unfolding assort_all score sort sort_order relaxations_from violations
conclude intent remembered max_items rerank matching alternatives =
    let classes = assort_all intent.hard_constraints matching in
    let scored =
      sort (sort_order intent.priority_order)
        (map (score intent remembered rerank) classes.recommendations) in
    let picks = take (max 1 (min max_items 3)) scored in
    record {
      recommendations = picks;
      matching_offers = matching;
      alternative_candidates = alternatives;
      unverified_candidates = classes.unverified;
      exclusions = classes.exclusions;
      relaxation_suggestions = relaxations_from [] (violations classes.exclusions);
      matched = not (is_empty picks);
      rejected_count = length classes.exclusions;
    }

unfoldable pub conclude_mode :
    Mode → (Text → Text) → Intent → Preferences → ℕ → List (Text × Num) → List Offer → Output
unfolding conclude classify_exact_offers
conclude_mode product_research fold intent remembered max_items rerank offers =
    conclude intent remembered max_items rerank offers []
conclude_mode exact_offer_comparison fold intent remembered max_items rerank offers =
    let classification = classify_exact_offers fold offers in
    conclude intent remembered max_items rerank (map (λ m. m.0) classification.matching_offers)
      classification.alternative_candidates

-- The output, and `preference_decisions`.
unfoldable pub decision_engine :
    (Text → Text)
    → Intent
    → Preferences
    → ℕ
    → List (Text × Num)
    → List Offer
    → Output × List PreferenceDecision
unfolding conclude_mode resolve_preferences
decision_engine fold intent remembered max_items rerank offers =
    let resolution = resolve_preferences intent remembered in
    (
      conclude_mode intent.mode fold intent resolution.effective_remembered max_items rerank offers,
      resolution.decisions,
    )
