-- ===== src/Eval/Examples.antt =====
-- Three results for two relevant cards, one of them twice.
use shopping_agent.Common.{◌≤◌, ◌<◌, ◌≡◌, refl, some, List, [], ◌∷◌, Text, codes, arith}
use shopping_agent.Eval.{Fraction, recall_at_k, mrr}
use shopping_agent.Eval.Fractions.{recall_at_k_bounded}

abbrev retrieved : List Text
retrieved = codes "c3" ∷ codes "c1" ∷ codes "c1" ∷ codes "c2" ∷ []

abbrev relevant : List Text
relevant = codes "c1" ∷ codes "c2" ∷ codes "c1" ∷ []

half_at_two : recall_at_k retrieved relevant 2 ≡ some (1, 2)
unfolding recall_at_k
half_at_two = refl

all_at_three : recall_at_k retrieved relevant 3 ≡ some (2, 2)
unfolding recall_at_k
all_at_three = refl

second_rank : mrr retrieved relevant ≡ (1, 2)
unfolding mrr
second_rank = refl

abbrev half : Fraction
half = (1, 2)

abbrev whole : Fraction
whole = (2, 2)

recall_at_k_bounded_example :
    (half.0 ≤ half.1) × (0 < half.1) × (half.1 ≡ whole.1) × (half.0 ≤ whole.0)
recall_at_k_bounded_example =
    recall_at_k_bounded retrieved relevant 2 3 half whole half_at_two all_at_three (omega arith)
