-- ===== src/Decision/Identity/Groups/Partition.antt =====
-- The exact comparison loses no offer and groups only matches.
use mathlib.Core.List.Perm
use shopping_agent.Common.{
  ℕ, ◌+◌, ◌≡◌, refl, sym, subst, Bool-cases, ap, true, false, inl, inr, Option, none, some, List,
  [], ◌∷◌, ◌++◌, map, Perm, middle-perm, All, Text, ◌==◌,
}
use shopping_agent.Decision.Constraint.{Offer}
use shopping_agent.Decision.Identity.{IdentityEvidence}
use shopping_agent.Decision.Identity.Groups.{
  Indexed, enumerate, is_matching, Classification, Best, evidence_at, candidate_best, best_of,
  single, with_evidence, matching_by, without_evidence, alternatives_by, single_offer_evidence,
  split_by, classify_best, classify_indexed, classify_exact_offers, against,
}
use shopping_agent.Decision.Identity.Groups.Matches.{
  IsOther, AllMatch, evidence_later, evidence_at-AllMatch, same_index, IsExcluded, IsInformed,
  matching_from-IsExcluded, matching_from-AllMatch, candidate_best-IsInformed, best_of-IsInformed,
}

abbrev offers_of : List (Offer × IdentityEvidence) → List Offer
offers_of rows = map (λ r. r.0) rows

abbrev plain_offers : List Indexed → List Offer
plain_offers items = map (λ i. i.1) items

abbrev pub everyone : Classification → List Offer
everyone c = offers_of c.matching_offers ++ offers_of c.alternative_candidates

-- The offers are split, each as often as it was given, by the decision of the evidence that they carry.
pub record IsSplit (c : Classification) (offers : List Offer) : Type 0 where
  pub kept : Perm (everyone c) offers
  pub matched : All (λ m. is_matching m.1.decision ≡ true) c.matching_offers
  pub unmatched : All (λ m. is_matching m.1.decision ≡ false) c.alternative_candidates

plain-enumerate : (i : ℕ) (offers : List Offer) → plain_offers (enumerate i offers) ≡ offers
unfolding enumerate
plain-enumerate i [] = refl
plain-enumerate i (o ∷ os) = ap (λ xs. o ∷ xs) (plain-enumerate (i + 1) os)

module _ (fold : Text → Text) where
  abbrev Split : Classification → List Indexed → Type 0
  Split c items = IsSplit c (plain_offers items)

  single-IsOther : (offer : Offer) → IsOther (single_offer_evidence fold offer)
  unfolding single_offer_evidence
  single-IsOther offer = refl

  against-IsOther :
      (best : Best) (item : Indexed)
      → IsExcluded fold best.index best.reference [] item
      → IsOther (against fold best item).1
  unfolding against evidence_at
  against-IsOther best (i, offer) h = elim (Bool-cases (i == best.index)) [
    | inl own ↦ rw own (single-IsOther offer)
    | inr other ↦ rw other (h refl other)
  ]

  against-All :
      (best : Best) (items : List Indexed)
      → All (IsExcluded fold best.index best.reference []) items
      → (offers_of (map (against fold best) items) ≡ plain_offers items)
        × All (λ m. IsOther m.1) (map (against fold best) items)
  unfolding against
  against-All best [] h = (refl, tt)
  against-All best ((i, o) ∷ rest) h =
      let (same, others) = against-All best rest h.1 in
      (ap (λ xs. o ∷ xs) same, (against-IsOther best (i, o) h.0, others))

  module _ (ms : List (ℕ × IdentityEvidence)) (best : Best) (e : IdentityEvidence)
      (all_match : AllMatch ((best.index, e) ∷ ms)) where
    place-Split :
        (found : Option IdentityEvidence) (i : ℕ) (offer : Offer) (rest : List Indexed)
        → evidence_at i ((best.index, e) ∷ ms) ≡ found
        → IsExcluded fold best.index best.reference ms (i, offer)
        → Split (split_by fold ((best.index, e) ∷ ms) best rest) rest
        → Split
            (record {
              matching_offers =
                  with_evidence fold found offer (matching_by fold ((best.index, e) ∷ ms) rest);
              alternative_candidates =
                  without_evidence fold found best offer
                    (alternatives_by fold ((best.index, e) ∷ ms) best rest);
            })
            ((i, offer) ∷ rest)
    unfolding without_evidence split_by
    place-Split (some x) i offer rest f excluded later = record {
      kept = Perm.cons offer later.kept;
      matched = (evidence_at-AllMatch i ((best.index, e) ∷ ms) x all_match f, later.matched);
      unmatched = later.unmatched;
    }
    place-Split none i offer rest f excluded later =
        let (other, absent) = evidence_later i best.index e ms f in
        record {
          kept = Perm.trans (middle-perm offer _ _) (Perm.cons offer later.kept);
          matched = later.matched;
          unmatched = (excluded absent (same_index best.index i other), later.unmatched);
        }

    split_by-Split :
        (items : List Indexed)
        → All (IsExcluded fold best.index best.reference ms) items
        → Split (split_by fold ((best.index, e) ∷ ms) best items) items
    unfolding split_by matching_by alternatives_by
    split_by-Split [] h = record { kept = Perm.refl []; matched = tt; unmatched = tt }
    split_by-Split ((i, offer) ∷ rest) h =
        place-Split (evidence_at i ((best.index, e) ∷ ms)) i offer rest refl h.0
          (split_by-Split rest h.1)

  classify_best-Split :
      (best : Best) (ms : List (ℕ × IdentityEvidence)) (items : List Indexed)
      → AllMatch ms
      → All (IsExcluded fold best.index best.reference ms) items
      → Split (classify_best fold best ms items) items
  unfolding classify_best
  classify_best-Split best [] items h k =
      let (same, others) = against-All best items k in
      record {
        kept = subst (λ xs. Perm xs (plain_offers items)) (sym same) (Perm.refl _);
        matched = tt;
        unmatched = others;
      }
  classify_best-Split best ((j, e) ∷ ms) items h k =
      split_by-Split ((j, e) ∷ ms) best e (h.0, h) items k

  informed-Split :
      (best : Best) (items : List Indexed)
      → IsInformed fold items best
      → Split (classify_best fold best best.matches items) items
  informed-Split best items informed =
      classify_best-Split best best.matches items
        (subst AllMatch (sym informed)
          (matching_from-AllMatch fold best.index best.reference items))
        (subst (λ ms. All (IsExcluded fold best.index best.reference ms) items) (sym informed)
          (matching_from-IsExcluded fold best.index best.reference items))

  classify_indexed-Split : (items : List Indexed) → Split (classify_indexed fold items) items
  unfolding classify_indexed single
  classify_indexed-Split [] = record { kept = Perm.refl []; matched = tt; unmatched = tt }
  classify_indexed-Split ((i, o) ∷ []) = record {
    kept = Perm.refl (o ∷ []);
    matched = tt;
    unmatched = (single-IsOther o, tt);
  }
  classify_indexed-Split (first ∷ second ∷ rest) =
      let items = first ∷ second ∷ rest in
      let start = candidate_best fold items first in
      informed-Split (best_of fold items start (second ∷ rest)) items (
        best_of-IsInformed fold items start (second ∷ rest)
          (candidate_best-IsInformed fold items first))

  -- An exact comparison puts every offer, as often as it was given, among the matching offers or among the
  -- alternative candidates; the evidence of each matching offer is a match, and that of no alternative
  -- candidate is.
  pub classify_exact_offers-IsSplit :
      (offers : List Offer) → IsSplit (classify_exact_offers fold offers) offers
  unfolding classify_exact_offers
  classify_exact_offers-IsSplit offers =
      subst (IsSplit (classify_indexed fold (enumerate 0 offers))) (plain-enumerate 0 offers)
        (classify_indexed-Split (enumerate 0 offers))
