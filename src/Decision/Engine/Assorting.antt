-- ===== src/Decision/Engine/Assorting.antt =====
-- The three classes of offers.
use mathlib.Core.List.Perm
use shopping_agent.Common.{
  ◌≡◌, refl, subst, Bool, true, false, ◌||◌, List, [], ◌∷◌, ◌++◌, map, Perm, middle-perm,
  append_left-perm, All, any, arith, if◌then◌else◌,
}
use shopping_agent.Decision.Constraint.{
  HardConstraint, Offer, Evaluation, satisfied, evaluate_constraint,
}
use shopping_agent.Decision.Engine.{
  Classes, is_violated, is_unknown, evaluations_of, assort, assort_all,
}

abbrev offers_in : List (Offer × List Evaluation) → List Offer
offers_in rows = map (λ r. r.0) rows

abbrev pub everyone : Classes → List Offer
everyone c = offers_in c.recommendations ++ (offers_in c.unverified ++ offers_in c.exclusions)

-- Every hard constraint is satisfied by evidence.
abbrev pub IsEligible : List HardConstraint → Offer → Type 0
IsEligible constraints offer =
    All (λ c. (evaluate_constraint offer c).status ≡ satisfied) constraints

-- `assort` by its two tests.
abbrev filed : Bool → Bool → Offer → List Evaluation → Classes → Classes
filed u v offer evaluations later =
    if u
    then record later { unverified = (offer, evaluations) ∷ later.unverified }
    else if v
    then record later { exclusions = (offer, evaluations) ∷ later.exclusions }
    else record later { recommendations = (offer, evaluations) ∷ later.recommendations }

module _ (offer : Offer) (evaluations : List Evaluation) (later : Classes) (rest : List Offer) where
  front :
      Perm (everyone later) rest
      → Perm
          (offers_in later.recommendations
            ++ offer ∷ (offers_in later.unverified ++ offers_in later.exclusions))
          (offer ∷ rest)
  front p =
      Perm.trans {l₂ = offer ∷ everyone later} {l₃ = offer ∷ rest}
        (middle-perm offer (offers_in later.recommendations)
          (offers_in later.unverified ++ offers_in later.exclusions))
        (Perm.cons offer p)

  either-perm :
      (u v : Bool)
      → Perm (everyone later) rest
      → Perm (everyone (filed u v offer evaluations later)) (offer ∷ rest)
  either-perm true v p = front p
  either-perm false true p =
      Perm.trans {l₃ = offer ∷ rest}
        (append_left-perm (offers_in later.recommendations) _
          (offer ∷ (offers_in later.unverified ++ offers_in later.exclusions))
          (middle-perm offer (offers_in later.unverified) (offers_in later.exclusions)))
        (front p)
  either-perm false false p = Perm.cons offer p

  assort-perm :
      Perm (everyone later) rest → Perm (everyone (assort offer evaluations later)) (offer ∷ rest)
  unfolding assort
  assort-perm p = either-perm (any is_unknown evaluations) (any is_violated evaluations) p

is_satisfied :
    (e : Evaluation) → is_unknown e ≡ false → is_violated e ≡ false → e.status ≡ satisfied
is_satisfied e u v = ground arith

module _ (constraints : List HardConstraint) where
  assort_all-perm : (offers : List Offer) → Perm (everyone (assort_all constraints offers)) offers
  unfolding assort_all
  assort_all-perm [] = Perm.refl []
  assort_all-perm (o ∷ os) =
      assort-perm o (evaluations_of constraints o) (assort_all constraints os) os
        (assort_all-perm os)

or_left : (a b : Bool) → (a || b) ≡ false → a ≡ false
or_left a b h = ground arith

or_right : (a b : Bool) → (a || b) ≡ false → b ≡ false
or_right a b h = ground arith

eligible :
    (constraints : List HardConstraint) (offer : Offer)
    → any is_unknown (evaluations_of constraints offer) ≡ false
    → any is_violated (evaluations_of constraints offer) ≡ false
    → IsEligible constraints offer
unfolding evaluations_of
eligible [] offer u v = tt
eligible (c ∷ cs) offer u v = (
  is_satisfied (evaluate_constraint offer c) (or_left _ _ u) (or_left _ _ v),
  eligible cs offer (or_right _ _ u) (or_right _ _ v),
)

module _ (constraints : List HardConstraint) where
  abbrev pub AllEligible : List (Offer × List Evaluation) → Type 0
  AllEligible rows = All (λ r. IsEligible constraints r.0) rows

  either-eligible :
      (offer : Offer) (evaluations : List Evaluation) (later : Classes) (u v : Bool)
      → any is_unknown evaluations ≡ u
      → any is_violated evaluations ≡ v
      → evaluations ≡ evaluations_of constraints offer
      → AllEligible later.recommendations
      → AllEligible (filed u v offer evaluations later).recommendations
  either-eligible offer evaluations later true v e f g h = h
  either-eligible offer evaluations later false true e f g h = h
  either-eligible offer evaluations later false false e f g h = (
    eligible constraints offer (subst (λ es. any is_unknown es ≡ false) g e)
        (subst (λ es. any is_violated es ≡ false) g f),
    h,
  )

  pub assort_all-eligible :
      (offers : List Offer) → AllEligible (assort_all constraints offers).recommendations
  unfolding assort_all assort
  assort_all-eligible [] = tt
  assort_all-eligible (o ∷ os) =
      either-eligible o (evaluations_of constraints o) (assort_all constraints os) _ _ refl refl
        refl (assort_all-eligible os)

  -- The classes of the offers: an unverified offer has an unknown constraint, an excluded one has a violated
  -- constraint and none that is unknown.
  abbrev pub AllUnverified : List (Offer × List Evaluation) → Type 0
  AllUnverified rows = All (λ r. any is_unknown (evaluations_of constraints r.0) ≡ true) rows

  abbrev pub AllExcluded : List (Offer × List Evaluation) → Type 0
  AllExcluded rows =
      All
        (λ r.
          (any is_violated (evaluations_of constraints r.0) ≡ true)
          × (any is_unknown (evaluations_of constraints r.0) ≡ false))
        rows

  abbrev Filed : Classes → Type 0
  Filed c = AllUnverified c.unverified × AllExcluded c.exclusions

  either-Filed :
      (offer : Offer) (later : Classes) (u v : Bool)
      → any is_unknown (evaluations_of constraints offer) ≡ u
      → any is_violated (evaluations_of constraints offer) ≡ v
      → Filed later
      → Filed (filed u v offer (evaluations_of constraints offer) later)
  either-Filed offer later true v e f h = ((e, h.0), h.1)
  either-Filed offer later false true e f h = (h.0, ((f, e), h.1))
  either-Filed offer later false false e f h = h

  assort_all-Filed : (offers : List Offer) → Filed (assort_all constraints offers)
  unfolding assort_all assort
  assort_all-Filed [] = (tt, tt)
  assort_all-Filed (o ∷ os) =
      either-Filed o (assort_all constraints os) _ _ refl refl (assort_all-Filed os)

  pub record IsClassed (offers : List Offer) (c : Classes) : Type 0 where
    pub kept : Perm (everyone c) offers
    pub eligible : AllEligible c.recommendations
    pub unverified : AllUnverified c.unverified
    pub excluded : AllExcluded c.exclusions

  -- Before the ranking and its cut to at most three, every offer, as often as it was given, is in one of
  -- three classes: eligible, and it satisfies every hard constraint; unverified, and one of them is unknown
  -- for it; or excluded, and it violates one and none is unknown.
  pub assort_all-IsClassed :
      (offers : List Offer) → IsClassed offers (assort_all constraints offers)
  assort_all-IsClassed offers = record {
    kept = assort_all-perm constraints offers;
    eligible = assort_all-eligible offers;
    unverified = (assort_all-Filed offers).0;
    excluded = (assort_all-Filed offers).1;
  }
