-- ===== src/Eval/Fractions.antt =====
-- The recall is a fraction of at most one, and grows with the number of results that are looked at.
use shopping_agent.Common.{
  ℕ, zero, suc, ◌+◌, ◌≤◌, ◌<◌, ◌≡◌, refl, sym, ap, subst₂, Bool, true, Bool-cases, inl, inr, none,
  some, some-injective, List, [], ◌∷◌, Text, text_eq, text_eq_sound, text_eq_refl, text_mem,
  count_if, take, length, ltb, if◌then◌else◌, arith,
}
use shopping_agent.Decision.Preferences.{once_each}
use shopping_agent.Eval.{Fraction, unique, hits, fraction_of, recall_at_k}

same_card : (t r : Text) (seen : List Text) → text_eq t r ≡ true → text_mem r seen ≡ text_mem t seen
same_card t r seen h = ap (λ u. text_mem u seen) (sym (text_eq_sound t r h))

seen_card : (t r : Text) (seen : List Text) → text_eq t r ≡ true → text_mem r (t ∷ seen) ≡ true
unfolding text_mem
seen_card t r seen h = rw (text_eq_sound t r h, text_eq_refl r) refl

-- No text stands twice in a list made unique.
count-once_each :
    (r : Text) (seen ts : List Text)
    → count_if (λ t. text_eq t r) (once_each seen ts) ≤ (if text_mem r seen then 0 else 1)
unfolding once_each text_mem
count-once_each r seen [] = ground arith
count-once_each r seen (t ∷ ts) = ground (
  arith,
  count-once_each r seen ts,
  count-once_each r (t ∷ seen) ts,
  same_card t r seen,
  seen_card t r seen,
)

count_mem_or :
    (r : Text) (rs xs : List Text)
    → count_if (λ t. text_mem t (r ∷ rs)) xs
      ≤ count_if (λ t. text_eq t r) xs + count_if (λ t. text_mem t rs) xs
unfolding text_mem
count_mem_or r rs [] = omega arith
count_mem_or r rs (x ∷ xs) = ground (arith, count_mem_or r rs xs)

none_counted : (xs : List Text) → count_if (λ t. text_mem t []) xs ≤ 0
unfolding text_mem
none_counted [] = omega arith
none_counted (x ∷ xs) = none_counted xs

count_mem_le :
    (rs xs : List Text)
    → ((r : Text) → count_if (λ t. text_eq t r) xs ≤ 1)
    → count_if (λ t. text_mem t rs) xs ≤ length rs
unfolding text_mem
count_mem_le [] xs once = none_counted xs
count_mem_le (r ∷ rs) xs once = omega (arith, count_mem_or r rs xs, once r, count_mem_le rs xs once)

count-take :
    (p : Text → Bool) (j k : ℕ) (xs : List Text)
    → j ≤ k
    → count_if p (take j xs) ≤ count_if p (take k xs)
count-take p zero k xs h = omega arith
count-take p (suc j) zero xs h = absurd (omega (arith, h))
count-take p (suc j) (suc k) [] h = omega arith
count-take p (suc j) (suc k) (x ∷ xs) h = ground (arith, count-take p j k xs (omega (arith, h)))

count_take_le : (p : Text → Bool) (k : ℕ) (xs : List Text) → count_if p (take k xs) ≤ count_if p xs
count_take_le p zero xs = omega arith
count_take_le p (suc k) [] = omega arith
count_take_le p (suc k) (x ∷ xs) = ground (arith, count_take_le p k xs)

once_only : (r : Text) (ts : List Text) → count_if (λ t. text_eq t r) (unique ts) ≤ 1
unfolding unique text_mem
once_only r ts = omega (arith, count-once_each r [] ts)

hits_le :
    (k : ℕ) (retrieved relevant : List Text) → hits k retrieved relevant ≤ length (unique relevant)
unfolding unique
hits_le k retrieved relevant = count_mem_le (unique relevant) (take k (unique retrieved)) (λ r.
    omega (arith, count_take_le (λ t. text_eq t r) k (unique retrieved), once_only r retrieved))

if_valid : (k : ℕ) (x f : Fraction) → (if ltb k 1 then none else some x) ≡ some f → x ≡ f
if_valid k x f = elim (Bool-cases (ltb k 1)) [
  | inl zeroth ↦ rw zeroth (λ h. cc)
  | inr positive ↦ rw positive (λ h. some-injective _ _ h)
]

abbrev IsProportion : Fraction → Type 0
IsProportion f = (f.0 ≤ f.1) × (0 < f.1)

fraction_of-IsProportion :
    (n : ℕ) (rs : List Text) → n ≤ length rs → IsProportion (fraction_of n rs)
fraction_of-IsProportion n [] h = (omega arith, omega arith)
fraction_of-IsProportion n (r ∷ rs) h = (h, omega arith)

fraction_grows :
    (m n : ℕ) (rs : List Text)
    → m ≤ n
    → ((fraction_of m rs).1 ≡ (fraction_of n rs).1) × ((fraction_of m rs).0 ≤ (fraction_of n rs).0)
fraction_grows m n [] h = (refl, omega arith)
fraction_grows m n (r ∷ rs) h = (refl, h)

-- For any cards, repeated ones included, the recall among the first `k` results is a fraction between
-- zero and one, and looking at more results never makes it smaller.
pub recall_at_k_bounded :
    (retrieved relevant : List Text) (j k : ℕ) (f g : Fraction)
    → recall_at_k retrieved relevant j ≡ some f
    → recall_at_k retrieved relevant k ≡ some g
    → j ≤ k
    → (f.0 ≤ f.1) × (0 < f.1) × (f.1 ≡ g.1) × (f.0 ≤ g.0)
unfolding recall_at_k
recall_at_k_bounded retrieved relevant j k f g first second more =
    let at_first = if_valid j _ f first in
    let at_second = if_valid k _ g second in
    let bounded =
      fraction_of-IsProportion (hits j retrieved relevant) (unique relevant)
        (hits_le j retrieved relevant) in
    let grows =
      fraction_grows (hits j retrieved relevant) (hits k retrieved relevant) (unique relevant)
        (count-take (λ t. text_mem t (unique relevant)) j k (unique retrieved) more) in
    subst₂ (λ a b. (a.0 ≤ a.1) × (0 < a.1) × (a.1 ≡ b.1) × (a.0 ≤ b.0)) at_first at_second
      (bounded.0, bounded.1, grows.0, grows.1)
