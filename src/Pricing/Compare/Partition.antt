-- ===== src/Pricing/Compare/Partition.antt =====
-- What the loop makes of every offer that it reads, and what the output keeps of it.
use shopping_agent.Common.{
  ℕ, ◌≡◌, refl, sym, ap, subst, ◌∙◌, Option, none, some, List, [], ◌∷◌, ◌++◌, min, max, Text, take,
  arith, Ensures, bind-Ensures, Ensures-some, sort-IsSorted, take-IsSorted, IsSorted, sort,
  Option-cases, inl, inr,
}
use shopping_agent.Common.Decimal.{Decimal}
use shopping_agent.Pricing.Offer.{
  Candidate, PricePoint, Amount, finite, below_zero, not_finite, boolean, not_a_number,
}
use shopping_agent.Pricing.Compare.{
  Exclusion, Ledger, empty_ledger, FxRate, rate, no_rate, priced, visit_amount, visit_all,
  currency_code, cheapest_from, finish, by_price, PriceCompareOutput, compared, price_compare,
}
use shopping_agent.Pricing.Compare.Verdict.{
  Sorts, nothing, ranks, excludes, verdict, amount_verdict, fx_rate_verdict,
}

Ensures-map :
    {A : Type 0} (P Q : A → Type 0)
    → ((a : A) → P a → Q a)
    → (m : Option A) → Ensures P m
    → Ensures Q m
Ensures-map P Q f none h = tt
Ensures-map P Q f (some a) h = f a h

-- The offers read between two states of the ledger, sorted into its lists.
abbrev Reads : ℕ → List Candidate → Ledger → Ledger → Type 0
Reads now items ledger next =
    (ps : List PricePoint) × (es : List Exclusion) × Sorts now items ps es
    × (next.ranked ≡ ledger.ranked ++ ps)
    × (next.calculation_exclusions ≡ ledger.calculation_exclusions ++ es)

append_assoc : {A : Type 0} (xs ys zs : List A) → (xs ++ ys) ++ zs ≡ xs ++ (ys ++ zs)
append_assoc [] ys zs = refl
append_assoc (x ∷ xs) ys zs = ap (λ t. x ∷ t) (append_assoc xs ys zs)

append_nil : {A : Type 0} (xs : List A) → xs ++ [] ≡ xs
append_nil [] = refl
append_nil (x ∷ xs) = ap (λ t. x ∷ t) (append_nil xs)

Sorts-append :
    (now : ℕ) {item : Candidate} {items : List Candidate} {ps qs : List PricePoint}
    {es fs : List Exclusion}
    → Sorts now (item ∷ []) ps es
    → Sorts now items qs fs
    → Sorts now (item ∷ items) (ps ++ qs) (es ++ fs)
Sorts-append now (ranks v p nothing) later = ranks v p later
Sorts-append now (excludes v nothing) later = excludes v later

Reads-append :
    (now : ℕ) (item : Candidate) (items : List Candidate) (ledger middle next : Ledger)
    → Reads now (item ∷ []) ledger middle
    → Reads now items middle next
    → Reads now (item ∷ items) ledger next
Reads-append now item items ledger middle next (ps, es, s, r, x) (qs, fs, s', r', x') = (
  ps ++ qs,
  es ++ fs,
  Sorts-append now s s',
  r' ∙ ap (λ t. t ++ qs) r ∙ append_assoc ledger.ranked ps qs,
  x' ∙ ap (λ t. t ++ fs) x ∙ append_assoc ledger.calculation_exclusions es fs,
)

module _ (now : ℕ) (item : Candidate) (ledger : Ledger) where
  priced-Reads :
      (amount : Decimal) (v : FxRate)
      → item.price ≡ finite amount
      → verdict now item ≡ v
      → Ensures
          (Reads now (item ∷ []) ledger)
          (priced item (currency_code item.currency) amount v ledger)
  unfolding priced
  priced-Reads amount (no_rate why) stated found =
      ([], _, excludes found nothing, sym (append_nil ledger.ranked), refl)
  priced-Reads amount (rate r) stated found =
      bind-Ensures (Reads now (item ∷ []) ledger) _ _ λ price_cny ok. (
        _,
        [],
        ranks found
            (record {
              amount = amount;
              stated = stated;
              converted = ok;
              price = refl;
              item_id = refl;
              platform = refl;
            })
            nothing,
        refl,
        sym (append_nil ledger.calculation_exclusions),
      )

  visit_amount-Reads :
      (a : Amount)
      → item.price ≡ a
      → Ensures
          (Reads now (item ∷ []) ledger)
          (visit_amount now item (currency_code item.currency) a ledger)
  unfolding visit_amount
  visit_amount-Reads (finite amount) stated =
      priced-Reads amount _ stated
        (ap (amount_verdict now item) stated ∙ sym (fx_rate_verdict now item))
  visit_amount-Reads (below_zero amount) stated =
      ([], _, excludes (ap (amount_verdict now item) stated) nothing, sym (append_nil _), refl)
  visit_amount-Reads not_finite stated =
      ([], _, excludes (ap (amount_verdict now item) stated) nothing, sym (append_nil _), refl)
  visit_amount-Reads boolean stated =
      ([], _, excludes (ap (amount_verdict now item) stated) nothing, sym (append_nil _), refl)
  visit_amount-Reads not_a_number stated =
      ([], _, excludes (ap (amount_verdict now item) stated) nothing, sym (append_nil _), refl)

visit_all-Reads :
    (now : ℕ) (items : List Candidate) (ledger : Ledger)
    → Ensures (Reads now items ledger) (visit_all now items ledger)
unfolding visit_all
visit_all-Reads now [] ledger =
    ([], [], nothing, sym (append_nil ledger.ranked), sym (append_nil _))
visit_all-Reads now (item ∷ items) ledger =
    bind-Ensures (Reads now (item ∷ items) ledger) _ _ λ middle ok.
      Ensures-map (Reads now items middle) (Reads now (item ∷ items) ledger)
        (λ next. Reads-append now item items ledger middle next (
          Ensures-some (Reads now (item ∷ []) ledger) _
            (visit_amount-Reads now item ledger item.price refl) ok))
        (visit_all now items middle) (visit_all-Reads now items middle)

abbrev Reports : ℕ → PriceCompareOutput → Ledger → Type 0
Reports top_n out ledger =
    (out.calculation_exclusions ≡ ledger.calculation_exclusions)
    × (out.cheapest_per_platform ≡ cheapest_from [] (sort by_price ledger.ranked))
    × (out.ranked ≡ take (max 1 (min top_n 30)) (sort by_price ledger.ranked))

finish-Reports :
    (candidates : List Candidate) (top_n : ℕ) (ledger : Ledger) {out : PriceCompareOutput}
    → finish candidates top_n ledger ≡ compared out
    → Reports top_n out ledger
unfolding finish
finish-Reports candidates top_n ledger h = ground arith

-- A comparison reports the ledger of its first 100 offers.
pub compared_ledger :
    (candidates : List Candidate) (base_currency : Text) (top_n now : ℕ) {out : PriceCompareOutput}
    → price_compare candidates base_currency top_n now ≡ compared out
    → (ledger : Ledger) × (visit_all now (take 100 candidates) empty_ledger ≡ some ledger)
      × Reports top_n out ledger
unfolding price_compare
compared_ledger candidates base_currency top_n now {out} h =
    elim (Option-cases (visit_all now (take 100 candidates) empty_ledger)) [
      | inl e ↦ absurd (ground arith)
      | inr (ledger, e) ↦
          (ledger, e, finish-Reports candidates top_n ledger {out = out} (ground arith))
    ]

-- A comparison reads at most 100 offers and sorts them in their order: an offer whose amount is invalid or
-- whose currency has no current evidence is excluded, with that reason, and every other has a point, at the
-- price that its evidence gives. The exclusions are all reported. The ranking is the points sorted by
-- price, platform and item, cut to as many as `top_n` asks for, which is taken to be between 1 and 30.
pub price_compare-ranked :
    (candidates : List Candidate) (base_currency : Text) (top_n now : ℕ) {out : PriceCompareOutput}
    → price_compare candidates base_currency top_n now ≡ compared out
    → (points : List PricePoint) × Sorts now (take 100 candidates) points out.calculation_exclusions
      × (out.ranked ≡ take (max 1 (min top_n 30)) (sort by_price points))
      × IsSorted by_price out.ranked
price_compare-ranked candidates base_currency top_n now {out} h =
    let (ledger, visited, reports) = compared_ledger candidates base_currency top_n now h in
    let (excluded, _, ranked) = reports in
    let (points, es, sorts, same_points, same_exclusions) =
      Ensures-some (Reads now (take 100 candidates) empty_ledger) _
        (visit_all-Reads now (take 100 candidates) empty_ledger) visited in
    (
      points,
      subst (Sorts now (take 100 candidates) points) (sym (excluded ∙ same_exclusions)) sorts,
      ranked ∙ ap (λ ps. take (max 1 (min top_n 30)) (sort by_price ps)) same_points,
      subst (IsSorted by_price) (sym ranked)
          (take-IsSorted by_price _ _ (sort-IsSorted by_price ledger.ranked)),
    )
