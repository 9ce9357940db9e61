-- ===== src/Decision/Identity/Groups/Matches.antt =====
-- What the matches of a reference offer leave out, and that the best reference knows its own.
use shopping_agent.Common.{
  ℕ, ◌≡◌, refl, Bool-cases, Bool, ◌≢◌, true, false, not, ◌&&◌, inl, inr, none, some, List, [], ◌∷◌,
  All, Text, arith, if◌then◌else◌, ◌==◌,
}
use shopping_agent.Decision.Constraint.{Offer}
use shopping_agent.Decision.Identity.{IdentityEvidence, match_offer_identity}
use shopping_agent.Decision.Identity.Groups.{
  Indexed, is_matching, Best, evidence_at, matching_from, candidate_best, best_of, key_gt,
}

abbrev pub IsMatch : IdentityEvidence → Type 0
IsMatch e = is_matching e.decision ≡ true

abbrev pub IsOther : IdentityEvidence → Type 0
IsOther e = is_matching e.decision ≡ false

abbrev pub AllMatch : List (ℕ × IdentityEvidence) → Type 0
AllMatch ms = All (λ m. IsMatch m.1) ms

-- The evidence that the lookup of another entry passes over.
pub evidence_later :
    (i j : ℕ) (e : IdentityEvidence) (ms : List (ℕ × IdentityEvidence))
    → evidence_at i ((j, e) ∷ ms) ≡ none
    → ((j == i) ≡ false) × (evidence_at i ms ≡ none)
unfolding evidence_at
evidence_later i j e ms h = elim (Bool-cases (j == i)) [
  | inl same ↦ absurd (ground (arith, h, same))
  | inr other ↦ (other, ground (arith, h, other))
]

pub evidence_at-AllMatch :
    (i : ℕ) (ms : List (ℕ × IdentityEvidence)) (e : IdentityEvidence)
    → AllMatch ms
    → evidence_at i ms ≡ some e
    → IsMatch e
unfolding evidence_at
evidence_at-AllMatch i [] e h f = absurd (ground arith)
evidence_at-AllMatch i ((j, x) ∷ ms) e h f = elim (Bool-cases (j == i)) [
  | inl same ↦ ground (arith, h.0)
  | inr other ↦ evidence_at-AllMatch i ms e h.1 (ground (arith, f, other))
]

pub same_index : (i j : ℕ) → (i == j) ≡ false → (j == i) ≡ false
same_index i j h = ground (arith, h)

module _ (fold : Text → Text) where
  -- An offer without evidence, but the reference itself, does not match the reference.
  abbrev pub IsExcluded : ℕ → Offer → List (ℕ × IdentityEvidence) → Indexed → Type 0
  IsExcluded b reference ms item =
      evidence_at item.0 ms ≡ none
      → (item.0 == b) ≡ false
      → IsOther (match_offer_identity fold reference item.1)

  later-IsExcluded :
      (b : ℕ) (reference : Offer) (j : ℕ) (e : IdentityEvidence) (ms : List (ℕ × IdentityEvidence))
      (items : List Indexed)
      → All (IsExcluded b reference ms) items
      → All (IsExcluded b reference ((j, e) ∷ ms)) items
  later-IsExcluded b reference j e ms [] h = tt
  later-IsExcluded b reference j e ms (item ∷ items) h = (
    λ absent other. h.0 (evidence_later item.0 j e ms absent).1 other,
    later-IsExcluded b reference j e ms items h.1,
  )

  unmatched : (a b : Bool) → (not a && b) ≡ false → a ≡ false → b ≡ false
  unmatched a b h k = ground (arith, h, k)

  found_at :
      (j : ℕ) (e : IdentityEvidence) (ms : List (ℕ × IdentityEvidence))
      → evidence_at j ((j, e) ∷ ms) ≢ none
  unfolding evidence_at
  found_at j e ms h = ground (arith, h)

  step-IsExcluded :
      (b : ℕ) (reference : Offer) (j : ℕ) (c : Offer) (ms : List (ℕ × IdentityEvidence))
      (rest : List Indexed) (found : Bool)
      → (not (j == b) && is_matching (match_offer_identity fold reference c).decision) ≡ found
      → All (IsExcluded b reference ms) rest
      → All
          (IsExcluded b reference
            (if found then (j, match_offer_identity fold reference c) ∷ ms else ms))
          ((j, c) ∷ rest)
  step-IsExcluded b reference j c ms rest true h later = (
    λ absent other. absurd (found_at j _ ms absent),
    later-IsExcluded b reference j _ ms rest later,
  )
  step-IsExcluded b reference j c ms rest false h later =
      (λ absent other. unmatched (j == b) _ h other, later)

  pub matching_from-IsExcluded :
      (b : ℕ) (reference : Offer) (items : List Indexed)
      → All (IsExcluded b reference (matching_from fold b reference items)) items
  unfolding matching_from
  matching_from-IsExcluded b reference [] = tt
  matching_from-IsExcluded b reference ((j, c) ∷ rest) =
      step-IsExcluded b reference j c (matching_from fold b reference rest) rest _ refl
        (matching_from-IsExcluded b reference rest)

  pub matching_from-AllMatch :
      (i : ℕ) (reference : Offer) (items : List Indexed)
      → AllMatch (matching_from fold i reference items)
  unfolding matching_from
  matching_from-AllMatch i reference [] = tt
  matching_from-AllMatch i reference ((j, c) ∷ rest) =
      let e = match_offer_identity fold reference c in
      elim (Bool-cases (not (j == i) && is_matching e.decision)) [
        | inl h ↦ rw h (ground (arith, h), matching_from-AllMatch i reference rest)
        | inr h ↦ rw h (matching_from-AllMatch i reference rest)
      ]

  -- A candidate knows all matches of its offer.
  abbrev pub IsInformed : List Indexed → Best → Type 0
  IsInformed offers best = best.matches ≡ matching_from fold best.index best.reference offers

  pub candidate_best-IsInformed :
      (offers : List Indexed) (item : Indexed) → IsInformed offers (candidate_best fold offers item)
  unfolding candidate_best
  candidate_best-IsInformed offers (i, reference) = refl

  pub best_of-IsInformed :
      (offers : List Indexed) (best : Best) (items : List Indexed)
      → IsInformed offers best
      → IsInformed offers (best_of fold offers best items)
  unfolding best_of
  best_of-IsInformed offers best [] h = h
  best_of-IsInformed offers best (item ∷ rest) h =
      let next = candidate_best fold offers item in
      best_of-IsInformed offers (if key_gt next best then next else best) rest
        (elim (Bool-cases (key_gt next best)) [
          | inl e ↦ rw e (candidate_best-IsInformed offers item)
          | inr e ↦ rw e h
        ])
