-- ===== src/Decision/Engine/Shortlist.antt =====
-- The recommendations of `decision_engine` in both modes.
use shopping_agent.Common.{
  ℕ, ◌≤◌, min, max, ◌≡◌, refl, sym, subst, ◌∙◌, Bool, true, false, some, List, [], ◌∷◌, ◌++◌, map,
  All, All-sort, All-take, length, length-take, sort, sort-IsSorted, take-IsSorted, IsSorted, Text,
  arith, if◌then◌else◌,
}
use shopping_agent.Decision.Value.{Num, nonneg, num_leb, numeric}
use shopping_agent.Decision.Constraint.{
  HardConstraint, Offer, Evaluation, satisfied, violated, evaluate_constraint, lte, budget_field,
}
use shopping_agent.Decision.Constraint.Budget.{evaluate_constraint-budget}
use shopping_agent.Decision.Identity.{IdentityEvidence}
use shopping_agent.Decision.Engine.Assorting.{IsEligible, AllEligible, assort_all-eligible}
use shopping_agent.Decision.Preferences.{
  Intent, Preferences, Mode, product_research, exact_offer_comparison, resolve_preferences,
}
use shopping_agent.Decision.Engine.{
  Output, score, sort_order, assort_all, conclude, conclude_mode, decision_engine,
}

-- At most three recommendations, in the order of the sort key, each of which meets every constraint.
pub record IsShortlist (intent : Intent) (output : Output) : Type 0 where
  pub short : length output.recommendations ≤ 3
  pub ordered : IsSorted (sort_order intent.priority_order) output.recommendations
  pub eligible : All (λ s. IsEligible intent.hard_constraints s.offer) output.recommendations

module _ (intent : Intent) (remembered : Preferences) (rerank : List (Text × Num)) where
  scored-IsEligible :
      (rows : List (Offer × List Evaluation))
      → AllEligible intent.hard_constraints rows
      → All
          (λ s. IsEligible intent.hard_constraints s.offer)
          (map (score intent remembered rerank) rows)
  unfolding score
  scored-IsEligible [] h = tt
  scored-IsEligible ((o, es) ∷ rows) h = (h.0, scored-IsEligible rows h.1)

  conclude-IsShortlist :
      (max_items : ℕ) (matching : List Offer) (alternatives : List (Offer × IdentityEvidence))
      → IsShortlist intent (conclude intent remembered max_items rerank matching alternatives)
  unfolding conclude
  conclude-IsShortlist max_items matching alternatives =
      let order = sort_order intent.priority_order in
      let rows = (assort_all intent.hard_constraints matching).recommendations in
      let scored = map (score intent remembered rerank) rows in
      let limit = max 1 (min max_items 3) in
      record {
        short = omega (arith, length-take limit (sort order scored));
        ordered = take-IsSorted order limit (sort order scored) (sort-IsSorted order scored);
        eligible =
            All-take (λ s. IsEligible intent.hard_constraints s.offer) limit (sort order scored)
              (All-sort order (λ s. IsEligible intent.hard_constraints s.offer) scored
                (scored-IsEligible rows (assort_all-eligible intent.hard_constraints matching)));
      }

  either_mode :
      (mode : Mode) (fold : Text → Text) (max_items : ℕ) (offers : List Offer)
      → IsShortlist intent (conclude_mode mode fold intent remembered max_items rerank offers)
  unfolding conclude_mode
  either_mode product_research fold max_items offers = conclude-IsShortlist max_items offers []
  either_mode exact_offer_comparison fold max_items offers = conclude-IsShortlist max_items _ _

-- In either mode, whatever is remembered and for any limit asked for, at most three offers are
-- recommended, in the order of the sort key, which is the semantic relevance, then the plan's priorities
-- and then the ties' keys; and every one of them satisfies every hard constraint.
pub decision_engine-IsShortlist :
    (fold : Text → Text) (intent : Intent) (remembered : Preferences) (max_items : ℕ)
    → (rerank : List (Text × Num)) (offers : List Offer)
    → IsShortlist intent (decision_engine fold intent remembered max_items rerank offers).0
unfolding decision_engine
decision_engine-IsShortlist fold intent remembered max_items rerank offers =
    either_mode intent (resolve_preferences intent remembered).effective_remembered rerank
      intent.mode fold max_items offers

eligible-within :
    (before : List HardConstraint) (c : HardConstraint) (after : List HardConstraint)
    (offer : Offer)
    → IsEligible (before ++ c ∷ after) offer
    → (evaluate_constraint offer c).status ≡ satisfied
eligible-within [] c after offer h = h.0
eligible-within (b ∷ before) c after offer h = eligible-within before c after offer h.1

if_satisfied : (b : Bool) → (if b then satisfied else violated) ≡ satisfied → b ≡ true
if_satisfied true h = refl
if_satisfied false h = absurd (ground arith)

budget_met :
    (limit : Num) (before : List HardConstraint) (c : HardConstraint) (after : List HardConstraint)
    (offer : Offer)
    → c.field ≡ budget_field
    → c.operator ≡ lte
    → numeric c.value c.unit ≡ some limit
    → IsEligible (before ++ c ∷ after) offer
    → num_leb (nonneg offer.landed_cny) limit ≡ true
budget_met limit before c after offer f o v h =
    if_satisfied _ (
      sym (evaluate_constraint-budget offer c limit f o v) ∙ eligible-within before c after offer h)

All-mono :
    {A : Type 0} (P Q : A → Type 0) (xs : List A) → ((x : A) → P x → Q x) → All P xs → All Q xs
All-mono P Q [] f h = tt
All-mono P Q (x ∷ xs) f h = (f x h.0, All-mono P Q xs f h.1)

-- When the plan has a budget with a numeric limit anywhere among its hard constraints, no recommended
-- offer's landed price is above the limit.
pub decision_engine-budget :
    (fold : Text → Text) (intent : Intent) (remembered : Preferences) (rerank : List (Text × Num))
    (max_items : ℕ)
    → (offers : List Offer) (limit : Num)
    → (before : List HardConstraint) (c : HardConstraint) (after : List HardConstraint)
    → intent.hard_constraints ≡ before ++ c ∷ after
    → c.field ≡ budget_field
    → c.operator ≡ lte
    → numeric c.value c.unit ≡ some limit
    → All
        (λ s. num_leb (nonneg s.offer.landed_cny) limit ≡ true)
        (decision_engine fold intent remembered max_items rerank offers).0.recommendations
decision_engine-budget fold intent remembered rerank max_items offers limit before c after e f o v =
    All-mono (λ s. IsEligible intent.hard_constraints s.offer)
      (λ s. num_leb (nonneg s.offer.landed_cny) limit ≡ true) _
      (λ s h.
        budget_met limit before c after s.offer f o v (subst (λ cs. IsEligible cs s.offer) e h))
      (decision_engine-IsShortlist fold intent remembered max_items rerank offers).eligible
