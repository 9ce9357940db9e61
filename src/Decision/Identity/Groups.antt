-- ===== src/Decision/Identity/Groups.antt =====
-- app/tools/identity_matcher.py: the one group of matching offers of an exact comparison. The offers are
-- told apart by their place in the list, as `enumerate` numbers them.
pub mod Agreement
mod Matches
pub mod Partition
use shopping_agent.Common.{
  ℕ, zero, suc, ◌+◌, ◌≡◌, Bool, true, false, not, ◌&&◌, ◌||◌, Option, none, some, List, [], ◌∷◌,
  ◌++◌, map, Text, codes, text_eq, text_leb, is_empty, length, leb, ltb, ◌==◌, if◌then◌else◌,
}
use shopping_agent.Decision.Constraint.{Offer}
use shopping_agent.Decision.Identity.{
  Facts, Authority, lookup, keys, Decision, matching_offer, alternative_candidate, Basis,
  insufficient, IdentityEvidence, alternative, without, brand_key, model_key, required_core,
  sorted_set, identity_facts, authority_identifier, match_offer_identity,
}

abbrev pub Indexed : Type 0
Indexed = ℕ × Offer

pub enumerate : ℕ → List Offer → List Indexed
enumerate i [] = []
enumerate i (o ∷ os) = (i, o) ∷ enumerate (i + 1) os

abbrev pub is_matching : Decision → Bool
is_matching matching_offer = true
is_matching alternative_candidate = false

abbrev has : Option Text → Bool
has none = false
has (some v) = true

-- `ExactOfferClassification`, each offer with its evidence.
pub record Classification : Type 0 where
  pub matching_offers : List (Offer × IdentityEvidence)
  pub alternative_candidates : List (Offer × IdentityEvidence)

-- A candidate of `best_key`, its offer and its matches.
pub record Best : Type 0 where
  pub index : ℕ
  pub reference : Offer
  pub matches : List (ℕ × IdentityEvidence)
  pub key : List ℕ

-- `key > best_key`, where the last entry of the key is the index, negated.
abbrev key_gt : Best → Best → Bool
key_gt a b = if text_eq a.key b.key then ltb a.index b.index else text_leb b.key a.key

unfoldable pub evidence_at : ℕ → List (ℕ × IdentityEvidence) → Option IdentityEvidence
evidence_at i [] = none
evidence_at i ((j, e) ∷ rest) = if j == i then some e else evidence_at i rest

module _ (fold : Text → Text) where
  abbrev has_core : Facts → ℕ
  unfolding lookup
  has_core facts = if has (lookup brand_key facts) && has (lookup model_key facts) then 1 else 0

  -- `_identity_strength`
  unfoldable pub identity_strength : Offer → List ℕ
  unfolding authority_identifier identity_facts lookup
  identity_strength offer =
      elim (authority_identifier fold offer) [ none ↦ 0 | some a ↦ 1 ]
      ∷ has_core (identity_facts fold offer)
      ∷ length (identity_facts fold offer)
      ∷ []

  -- `_single_offer_evidence`
  unfoldable pub single_offer_evidence : Offer → IdentityEvidence
  unfolding authority_identifier identity_facts sorted_set
  single_offer_evidence offer =
      alternative (sorted_set (keys (identity_facts fold offer)))
        (elim (authority_identifier fold offer) [
          | some a ↦ codes "cross_platform_identifier" ∷ []
          | none ↦ sorted_set (without required_core (keys (identity_facts fold offer)))
        ])
        []

  unfoldable pub matching_from : ℕ → Offer → List Indexed → List (ℕ × IdentityEvidence)
  unfolding match_offer_identity
  matching_from i reference [] = []
  matching_from i reference ((j, candidate) ∷ rest) =
      let later = matching_from i reference rest in
      let evidence = match_offer_identity fold reference candidate in
      if not (j == i) && is_matching evidence.decision then (j, evidence) ∷ later else later

  unfoldable pub candidate_best : List Indexed → Indexed → Best
  unfolding matching_from identity_strength
  candidate_best offers (i, reference) =
      let matches = matching_from i reference offers in
      record {
        index = i;
        reference = reference;
        matches = matches;
        key = length matches ∷ identity_strength reference;
      }

  unfoldable pub best_of : List Indexed → Best → List Indexed → Best
  unfolding candidate_best text_eq text_leb
  best_of offers best [] = best
  best_of offers best (item ∷ rest) =
      let next = candidate_best offers item in
      best_of offers (if key_gt next best then next else best) rest

  single : Indexed → Offer × IdentityEvidence
  unfolding single_offer_evidence
  single (i, offer) = (offer, single_offer_evidence offer)

  -- The evidence of an alternative against the best reference.
  against : Best → Indexed → Offer × IdentityEvidence
  unfolding single_offer_evidence match_offer_identity
  against best (i, offer) = (
    offer,
    if i == best.index
        then single_offer_evidence offer
        else match_offer_identity fold best.reference offer,
  )

  abbrev pub with_evidence :
      Option IdentityEvidence
      → Offer
      → List (Offer × IdentityEvidence)
      → List (Offer × IdentityEvidence)
  with_evidence none offer later = later
  with_evidence (some e) offer later = (offer, e) ∷ later

  -- `if index in evidence_by_index`
  unfoldable pub matching_by :
      List (ℕ × IdentityEvidence) → List Indexed → List (Offer × IdentityEvidence)
  unfolding evidence_at
  matching_by evidence [] = []
  matching_by evidence ((i, offer) ∷ rest) =
      with_evidence (evidence_at i evidence) offer (matching_by evidence rest)

  unfoldable pub without_evidence :
      Option IdentityEvidence
      → Best
      → Offer
      → List (Offer × IdentityEvidence)
      → List (Offer × IdentityEvidence)
  unfolding match_offer_identity
  without_evidence (some e) best offer later = later
  without_evidence none best offer later =
      (offer, match_offer_identity fold best.reference offer) ∷ later

  -- `if index not in evidence_by_index`
  unfoldable pub alternatives_by :
      List (ℕ × IdentityEvidence) → Best → List Indexed → List (Offer × IdentityEvidence)
  unfolding evidence_at without_evidence
  alternatives_by evidence best [] = []
  alternatives_by evidence best ((i, offer) ∷ rest) =
      without_evidence (evidence_at i evidence) best offer (alternatives_by evidence best rest)

  unfoldable pub split_by : List (ℕ × IdentityEvidence) → Best → List Indexed → Classification
  unfolding matching_by alternatives_by
  split_by evidence best offers = record {
    matching_offers = matching_by evidence offers;
    alternative_candidates = alternatives_by evidence best offers;
  }

  unfoldable pub classify_best : Best → List (ℕ × IdentityEvidence) → List Indexed → Classification
  unfolding against split_by
  classify_best best [] offers = record {
    matching_offers = [];
    alternative_candidates = map (against best) offers;
  }
  classify_best best ((j, e) ∷ matches) offers =
      split_by ((best.index, e) ∷ (j, e) ∷ matches) best offers

  unfoldable pub classify_indexed : List Indexed → Classification
  unfolding single best_of classify_best
  classify_indexed [] = record { matching_offers = []; alternative_candidates = [] }
  classify_indexed (item ∷ []) = record {
    matching_offers = [];
    alternative_candidates = single item ∷ [];
  }
  classify_indexed (first ∷ second ∷ rest) =
      let offers = first ∷ second ∷ rest in
      let best = best_of offers (candidate_best offers first) (second ∷ rest) in
      classify_best best best.matches offers

  unfoldable pub classify_exact_offers : List Offer → Classification
  unfolding classify_indexed enumerate
  classify_exact_offers offers = classify_indexed (enumerate 0 offers)
