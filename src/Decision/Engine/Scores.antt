-- ===== src/Decision/Engine/Scores.antt =====
-- app/tools/decision_engine.py: the scores of an eligible offer and the order that they give. They are
-- counted in ten-thousandths: for fewer than 32 terms no quotient lies half-way between two of them, so
-- the rounded float is the nearest one.
use shopping_agent.Common.{
  ℕ, ◌+◌, ◌*◌, ◌/◌, Bool, false, not, ◌&&◌, ◌||◌, Option, none, some, List, [], ◌∷◌, ◌++◌, map,
  Text, text_eq, starts_with, contains, text_order, nat_order, Order, by_key, ◌then_by◌, reversed,
  length, any, keep, count_if, is_empty, if◌then◌else◌,
}
use shopping_agent.Common.Decimal.{Decimal, decimal, decimal_order}
use shopping_agent.Decision.Value.{Num, Value, str, normal, is_space}
use shopping_agent.Decision.Constraint.{Offer, Evaluation}
use shopping_agent.Decision.Preferences.{
  Intent, Preferences, Dimension, landed_cost, preference_match, evidence_quality, delivery_time,
  without_prefix, excludes_mark, refuses_mark,
}

-- A term and whether it is wanted.
abbrev pub Term : Type 0
Term = Text × Bool

abbrev is_blank : Text → Bool
is_blank t = is_empty (keep (λ c. not (is_space c)) t)

abbrev term_of : Text → Term
term_of t = (
  without_prefix refuses_mark (without_prefix excludes_mark t),
  not (starts_with excludes_mark t || starts_with refuses_mark t),
)

abbrev same_sign : Bool → Bool → Bool
same_sign a b = if a then b else not b

-- `list(dict.fromkeys(terms))`: first occurrences, in order.
once_each : List Term → List Term → List Term
unfolding text_eq
once_each seen [] = []
once_each seen (t ∷ ts) =
    let fresh = t ∷ once_each (t ∷ seen) ts in
    let rest = once_each seen ts in
    if any (λ s. text_eq s.0 t.0 && same_sign s.1 t.1) seen then rest else fresh

unfoldable pub preference_terms : Intent → Preferences → List Term
unfolding once_each
preference_terms intent remembered = once_each [] (
    map term_of (
      keep (λ t. not (is_blank t))
        (intent.style_preferences ++ intent.soft_preferences ++ remembered.material_preferences
          ++ remembered.style_preferences ++ remembered.soft_preferences))
    ++ map (λ t. (t, false)) (keep (λ t. not (is_blank t)) remembered.avoid))

texts_in : List (Text × Option Value) → List Text
texts_in [] = []
texts_in ((key, none) ∷ rest) = texts_in rest
texts_in ((key, some v) ∷ rest) = str v ∷ texts_in rest

-- `_product_evidence_text`
unfoldable pub product_evidence_text : Offer → List Text
unfolding texts_in normal
product_evidence_text offer =
    map normal (offer.title ∷ texts_in offer.attributes ++ texts_in offer.variant_attributes)

-- `round(matched / total, 4)` in ten-thousandths.
abbrev ratio : ℕ → ℕ → ℕ
ratio matched total = (20000 * matched + total) / (2 * total)

abbrev holds : List Text → Term → Bool
unfolding contains normal
holds evidence (term, positive) = same_sign positive (any (contains (normal term)) evidence)

-- `_preference_match_score`
unfoldable pub preference_match_score : Offer → Intent → Preferences → ℕ
unfolding preference_terms product_evidence_text contains normal
preference_match_score offer intent remembered =
    let terms = preference_terms intent remembered in
    if is_empty terms
    then 5000
    else ratio (count_if (holds (product_evidence_text offer)) terms) (length terms)

-- `_evidence_quality_score`
unfoldable pub evidence_quality_score : Offer → ℕ
evidence_quality_score offer =
    ratio
      (count_if (λ check. check)
        (offer.known_source
          ∷ offer.has_provenance
          ∷ offer.has_product_url
          ∷ offer.has_identity
          ∷ not (is_empty offer.variant_attributes)
          ∷ offer.has_availability
          ∷ offer.has_retrieved_at
          ∷ offer.has_rating
          ∷ offer.has_sales
          ∷ []))
      9

-- `rerank_scores.get(item_id, 0.0)`, held between 0 and 1.
abbrev clamp : Num → Decimal
clamp n =
    if n.negative
    then decimal 0 0
    else if decimal_order.le n.magnitude (decimal 1 0)
    then n.magnitude
    else decimal 1 0

unfoldable pub semantic_relevance : List (Text × Num) → Text → Decimal
unfolding text_eq
semantic_relevance [] item_id = decimal 0 0
semantic_relevance ((key, n) ∷ rest) item_id =
    if text_eq key item_id then clamp n else semantic_relevance rest item_id

-- An eligible offer with its evaluations and the scores that rank it.
pub record Scored : Type 0 where
  pub offer : Offer
  pub evaluations : List Evaluation
  pub semantic : Decimal
  pub preference : ℕ
  pub quality : ℕ

-- A smaller key comes first; a negated score is a reversed one.
abbrev dimension_order : Dimension → Order Scored
dimension_order landed_cost = by_key (λ s. s.offer.landed_cny) decimal_order
dimension_order delivery_time = by_key (λ s. s.offer.eta_days) nat_order
dimension_order preference_match = by_key (λ s. s.preference) (reversed nat_order)
dimension_order evidence_quality = by_key (λ s. s.quality) (reversed nat_order)

abbrev tie_order : Order Scored
tie_order =
    by_key (λ s. s.offer.landed_cny) decimal_order
    then_by by_key (λ s. s.offer.eta_days) nat_order
    then_by by_key (λ s. s.offer.platform) text_order
    then_by by_key (λ s. s.offer.item_id) text_order

priorities : List Dimension → Order Scored
priorities [] = tie_order
priorities (d ∷ ds) = dimension_order d then_by priorities ds

-- `sort_key`
unfoldable pub sort_order : List Dimension → Order Scored
unfolding priorities
sort_order dimensions =
    by_key (λ s. s.semantic) (reversed decimal_order) then_by priorities dimensions

unfoldable pub score : Intent → Preferences → List (Text × Num) → Offer × List Evaluation → Scored
unfolding semantic_relevance preference_match_score evidence_quality_score
score intent remembered rerank (offer, evaluations) = record {
  offer = offer;
  evaluations = evaluations;
  semantic = semantic_relevance rerank offer.item_id;
  preference = preference_match_score offer intent remembered;
  quality = evidence_quality_score offer;
}
