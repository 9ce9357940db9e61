-- ===== src/Decision/Constraint/Budget.antt =====
-- What the verdicts on a constraint mean for the offer.
use shopping_agent.Common.{
  subst, ◌≡◌, refl, ◌≢◌, true, false, some, List, [], ◌∷◌, map, any, Text, text_eq, text_eq_refl,
  contains, arith, if◌then◌else◌, is_empty,
}
use shopping_agent.Decision.Value.{Num, nonneg, num_leb, normal_text, numeric}
use shopping_agent.Decision.Constraint.{
  HardConstraint, lte, not_contains, Offer, Evidence, budget_field, facts_for_constraint,
  mapping_values, satisfied, violated, evaluate_text, evaluate_constraint, judge_texts,
}

-- A budget with a numeric limit is never unknown: it is satisfied by an offer whose landed price is
-- at most the limit, and violated by every other.
pub evaluate_constraint-budget :
    (offer : Offer) (c : HardConstraint) (limit : Num)
    → c.field ≡ budget_field
    → c.operator ≡ lte
    → numeric c.value c.unit ≡ some limit
    → (evaluate_constraint offer c).status
      ≡ (if num_leb (nonneg offer.landed_cny) limit then satisfied else violated)
unfolding evaluate_constraint numeric
evaluate_constraint-budget offer c limit f o v = ground (arith, text_eq_refl budget_field)

judge_texts-prohibition :
    (c : HardConstraint) (es : List Evidence) (t : Text) (ts : List Text)
    → (judge_texts not_contains c es t ts).status ≡ satisfied
    → any (contains t) ts ≡ false
unfolding judge_texts
judge_texts-prohibition c es t ts s = ground arith

-- With evidence, the title is not consulted.
evaluate_text-evidence :
    (offer : Offer) (c : HardConstraint) (es : List Evidence)
    → c.operator ≡ not_contains
    → is_empty es ≡ false
    → evaluate_text offer c es
      ≡ judge_texts not_contains c es (normal_text c.value) (map (λ e. normal_text e.value) es)
unfolding evaluate_text
evaluate_text-evidence offer c es o n = ground arith

-- The title, when it stands in, holds the prohibited text.
judge_texts-title :
    (c : HardConstraint) (es : List Evidence) (t : Text) (title : Text)
    → contains t title ≡ true
    → (judge_texts not_contains c es t (title ∷ [])).status ≡ violated
unfolding judge_texts
judge_texts-title c es t title h = ground arith

evaluate_text-empty :
    (offer : Offer) (c : HardConstraint)
    → c.operator ≡ not_contains
    → (evaluate_text offer c []).status ≢ satisfied
unfolding evaluate_text normal_text
evaluate_text-empty offer c o s = grind (arith, judge_texts-title)

text_path-prohibition :
    (offer : Offer) (c : HardConstraint) (es : List Evidence)
    → c.operator ≡ not_contains
    → (evaluate_text offer c es).status ≡ satisfied
    → (is_empty es ≡ false)
      × (any (contains (normal_text c.value)) (map (λ e. normal_text e.value) es) ≡ false)
text_path-prohibition offer c [] o s = absurd (evaluate_text-empty offer c o s)
text_path-prohibition offer c (e ∷ es) o s = (
  refl,
  judge_texts-prohibition c (e ∷ es) (normal_text c.value) (map (λ e. normal_text e.value) (e ∷ es))
      (subst (λ v. v.status ≡ satisfied) (evaluate_text-evidence offer c (e ∷ es) o refl) s),
)

evaluate_constraint-not_contains :
    (offer : Offer) (c : HardConstraint)
    → text_eq c.field budget_field ≡ false
    → c.operator ≡ not_contains
    → evaluate_constraint offer c ≡ evaluate_text offer c (mapping_values offer c.field)
unfolding evaluate_constraint facts_for_constraint
evaluate_constraint-not_contains offer c f o = ground arith

-- A prohibition on a field other than the budget is satisfied only by an offer that has evidence on
-- the field in its attributes, none of which holds the prohibited text.
pub evaluate_constraint-prohibition :
    (offer : Offer) (c : HardConstraint)
    → text_eq c.field budget_field ≡ false
    → c.operator ≡ not_contains
    → (evaluate_constraint offer c).status ≡ satisfied
    → (is_empty (mapping_values offer c.field) ≡ false)
      × (any
            (contains (normal_text c.value))
            (map (λ e. normal_text e.value) (mapping_values offer c.field))
          ≡ false)
evaluate_constraint-prohibition offer c f o s =
    text_path-prohibition offer c (mapping_values offer c.field) o
      (subst (λ e. e.status ≡ satisfied) (evaluate_constraint-not_contains offer c f o) s)
