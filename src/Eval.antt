-- ===== src/Eval.antt =====
-- app/eval/recall_metrics.py: recall and reciprocal rank, each a fraction of numbers. The discounted gain,
-- which takes logarithms, is left out.
mod Fractions
mod Examples
use shopping_agent.Common.{
  ℕ, zero, suc, ◌+◌, Bool, true, false, Option, none, some, List, [], ◌∷◌, Text, text_mem, count_if,
  take, length, is_empty, ltb, if◌then◌else◌,
}
use shopping_agent.Decision.Preferences.{once_each}

-- A numerator and a denominator.
abbrev pub Fraction : Type 0
Fraction = ℕ × ℕ

-- `_unique`
unfoldable pub unique : List Text → List Text
unfolding once_each
unique values = once_each [] values

abbrev pub hits : ℕ → List Text → List Text → ℕ
hits k retrieved relevant = count_if (λ t. text_mem t (unique relevant)) (take k (unique retrieved))

abbrev pub fraction_of : ℕ → List Text → Fraction
fraction_of n [] = (0, 1)
fraction_of n (r ∷ rs) = (n, length (r ∷ rs))

-- `recall_at_k`; none is the ValueError of `_validate_k`.
unfoldable pub recall_at_k : List Text → List Text → ℕ → Option Fraction
unfolding unique text_mem
recall_at_k retrieved relevant k =
    if ltb k 1 then none else some (fraction_of (hits k retrieved relevant) (unique relevant))

-- The rank of the first relevant card, or zero.
unfoldable pub first_rank : ℕ → List Text → List Text → ℕ
unfolding text_mem
first_rank index rel [] = 0
first_rank index rel (card ∷ cards) =
    let later = first_rank (index + 1) rel cards in if text_mem card rel then index else later

abbrev pub reciprocal : ℕ → Fraction
reciprocal zero = (0, 1)
reciprocal (suc n) = (1, suc n)

-- `mrr`
unfoldable pub mrr : List Text → List Text → Fraction
unfolding first_rank unique
mrr retrieved relevant = reciprocal (first_rank 1 (unique relevant) (unique retrieved))
