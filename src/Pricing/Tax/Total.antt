-- ===== src/Pricing/Tax/Total.antt =====
-- How the parts of a tax breakdown relate to its total.
use shopping_agent.Common.{
  ℕ, ◌+◌, ◌<◌, ◌≡◌, refl, ◌⊎◌, inl, inr, Option, none, some, sym, ap, subst, subst₂, arith, Ensures,
  bind-Ensures, Ensures-some, if◌then◌else◌, leb,
}
use shopping_agent.Common.Decimal.{
  Decimal, Floats, decimal, add, quantize_cents, decimal_leb, prec_limit, add_cents, quantize_self,
  quantize_scale,
}
use shopping_agent.Pricing.Tax.{
  Regime, general_trade, cross_border_ecommerce, personal_postal, seller_collected,
  CustomsTaxEvidence, ImportTaxBreakdown, zero_cents, or_zero, general_trade_tax, cross_border_tax,
  tax_of_regime, calculate_import_tax, exact_tax, floated, split, one, cbec_policy_factor,
}

-- An amount in cents is its coefficient.
in_cents : (d : Decimal) → d.scale ≡ 2 → d ≡ decimal d.coefficient 2
in_cents d h = ground arith

-- Sums of cents are exact, and survive `_money`.
sum_cents :
    (a b c : ℕ) (total : Decimal)
    → a + b + c < prec_limit
    → quantize_cents (add (add (decimal a 2) (decimal b 2)) (decimal c 2)) ≡ some total
    → total ≡ decimal (a + b + c) 2
sum_cents a b c total fits h =
    cc (add_cents a b (omega arith), add_cents (a + b) c fits, quantize_self (a + b + c) fits)

-- The cents of a part of the tax; a part that the regime does not have counts nothing.
abbrev cents_of : Option Decimal → ℕ
cents_of none = 0
cents_of (some d) = d.coefficient

-- What the two regimes with a split owe to their last step.
sum_split :
    (a b c total : Decimal)
    → a.scale ≡ 2
    → b.scale ≡ 2
    → c.scale ≡ 2
    → a.coefficient + b.coefficient + c.coefficient < prec_limit
    → quantize_cents (add (add a b) c) ≡ some total
    → total ≡ decimal (a.coefficient + b.coefficient + c.coefficient) 2
sum_split a b c total p q r fits h =
    sum_cents a.coefficient b.coefficient c.coefficient total fits (
      subst (λ x. quantize_cents x ≡ some total)
        (λ i. add (add (in_cents a p i) (in_cents b q i)) (in_cents c r i)) h)

-- The exact amounts behind a breakdown: three amounts of cents whose floats are the parts, and the
-- float of whose sum is the total, if that sum is within the precision of a decimal.
pub record IsSummed (floats : Floats) (b : ImportTaxBreakdown) : Type 0 where
  pub tariff : ℕ
  pub consumption : ℕ
  pub vat : ℕ
  pub tariff_floated : b.tariff_cny ≡ some (floats.of_decimal (decimal tariff 2))
  pub consumption_floated : b.consumption_tax_cny ≡ some (floats.of_decimal (decimal consumption 2))
  pub vat_floated : b.import_vat_cny ≡ some (floats.of_decimal (decimal vat 2))
  pub total_floated :
      tariff + consumption + vat < prec_limit
      → b.total_import_tax_cny ≡ floats.of_decimal (decimal (tariff + consumption + vat) 2)

split-IsSummed :
    (floats : Floats) (r : Regime) (factor value a b c total : Decimal)
    → a.scale ≡ 2
    → b.scale ≡ 2
    → c.scale ≡ 2
    → quantize_cents (add (add a b) c) ≡ some total
    → IsSummed floats (floated floats (split r factor value a b c total))
split-IsSummed floats r factor value a b c total p q s h = record {
  tariff = a.coefficient;
  consumption = b.coefficient;
  vat = c.coefficient;
  tariff_floated = ap (λ d. some (floats.of_decimal d)) (in_cents a p);
  consumption_floated = ap (λ d. some (floats.of_decimal d)) (in_cents b q);
  vat_floated = ap (λ d. some (floats.of_decimal d)) (in_cents c s);
  total_floated = λ fits. ap floats.of_decimal (sum_split a b c total p q s fits h);
}

module _ (floats : Floats) where
  abbrev Summed : ImportTaxBreakdown → Type 0
  Summed b = IsSummed floats (floated floats b)

  general_trade-Summed :
      (evidence : CustomsTaxEvidence) (value : Decimal)
      → Ensures Summed (general_trade_tax evidence value)
  unfolding general_trade_tax
  general_trade-Summed evidence value = bind-Ensures Summed _ _ λ tariff tariff_ok.
      bind-Ensures Summed _ _ λ base base_ok. bind-Ensures Summed _ _ λ consumption consumption_ok.
        bind-Ensures Summed _ _ λ vat vat_ok. bind-Ensures Summed _ _ λ total total_ok.
          split-IsSummed floats general_trade one value tariff consumption vat total
            (quantize_scale _ _ tariff_ok).0 (quantize_scale _ _ consumption_ok).0
            (quantize_scale _ _ vat_ok).0 total_ok

  cross_border-Summed :
      (evidence : CustomsTaxEvidence) (value : Decimal)
      → Ensures Summed (cross_border_tax evidence value)
  unfolding cross_border_tax
  cross_border-Summed evidence value = bind-Ensures Summed _ _ λ base base_ok.
      bind-Ensures Summed _ _ λ consumption consumption_ok. bind-Ensures Summed _ _ λ vat vat_ok.
        bind-Ensures Summed _ _ λ total total_ok.
          split-IsSummed floats cross_border_ecommerce cbec_policy_factor value zero_cents
            consumption vat total refl (quantize_scale _ _ consumption_ok).0
            (quantize_scale _ _ vat_ok).0 total_ok

  regime-Summed :
      (evidence : CustomsTaxEvidence) (value : Decimal) (r : Regime)
      → (r ≡ general_trade) ⊎ (r ≡ cross_border_ecommerce)
      → Ensures Summed (tax_of_regime r evidence value)
  unfolding tax_of_regime
  regime-Summed evidence value general_trade s = general_trade-Summed evidence value
  regime-Summed evidence value cross_border_ecommerce s = cross_border-Summed evidence value
  regime-Summed evidence value personal_postal (inl e) = cc
  regime-Summed evidence value personal_postal (inr e) = cc
  regime-Summed evidence value seller_collected (inl e) = cc
  regime-Summed evidence value seller_collected (inr e) = cc

  exact_tax-Summed :
      (evidence : CustomsTaxEvidence) (price shipping : Decimal)
      → (evidence.import_regime ≡ general_trade) ⊎ (evidence.import_regime ≡ cross_border_ecommerce)
      → Ensures Summed (exact_tax evidence price shipping)
  unfolding exact_tax
  exact_tax-Summed evidence price shipping split =
      bind-Ensures Summed _ _
        λ value value_ok. regime-Summed evidence value evidence.import_regime split

  -- In both regimes that split the tax, tariff, consumption tax and import VAT are the floats of three
  -- amounts of cents, and the total is the float of their exact sum, as long as that sum is below
  -- 10 ^ 28 cents. What the float of a decimal is does not matter.
  pub calculate_import_tax-total :
      (evidence : CustomsTaxEvidence) (price shipping : Decimal) {b : ImportTaxBreakdown}
      → (evidence.import_regime ≡ general_trade) ⊎ (evidence.import_regime ≡ cross_border_ecommerce)
      → calculate_import_tax floats evidence price shipping ≡ some b
      → IsSummed floats b
  unfolding calculate_import_tax
  calculate_import_tax-total evidence price shipping split h =
      Ensures-some (IsSummed floats) _
        (bind-Ensures (IsSummed floats) _ _
          λ exact ok. Ensures-some Summed _ (exact_tax-Summed evidence price shipping split) ok)
        h

-- The personal postal exemption, in cents, at a threshold that was quantized.
abbrev pub IsExemption : ℕ → ImportTaxBreakdown → Type 0
IsExemption threshold b =
    let before = cents_of b.tax_before_exemption_cny in
    (b.exempted ≡ leb before threshold)
    × (b.total_import_tax_cny.coefficient ≡ (if leb before threshold then 0 else before))
    × (b.tax_exemption_cny.coefficient ≡ (if leb before threshold then before else 0))

abbrev ExemptResult : Decimal → Decimal → Decimal → ℕ → Type 0
ExemptResult before found total threshold =
    (decimal_leb before found ≡ leb before.coefficient threshold)
    × (total.coefficient ≡ (if leb before.coefficient threshold then 0 else before.coefficient))
    × ((if decimal_leb before found then before else zero_cents).coefficient
        ≡ (if leb before.coefficient threshold then before.coefficient else 0))

exempt_cents :
    (before threshold : ℕ) (total : Decimal)
    → before < prec_limit
    → quantize_cents (
        if decimal_leb (decimal before 2) (decimal threshold 2)
        then zero_cents
        else decimal before 2)
      ≡ some total
    → ExemptResult (decimal before 2) (decimal threshold 2) total threshold
exempt_cents before threshold total fits h =
    ground (arith, quantize_self 0 (omega arith), quantize_self before fits)

exempt_step :
    (before found total threshold : Decimal)
    → (before.scale ≡ 2) × (before.coefficient < prec_limit)
    → found.scale ≡ 2
    → found ≡ threshold
    → quantize_cents (if decimal_leb before found then zero_cents else before) ≡ some total
    → ExemptResult before found total threshold.coefficient
exempt_step before found total threshold (p, fits) q same h = rw (← same) (
    subst₂
      (λ x y.
        quantize_cents (if decimal_leb x y then zero_cents else x) ≡ some total
        → ExemptResult x y total found.coefficient)
      (sym (in_cents before p)) (sym (in_cents found q))
      (exempt_cents before.coefficient found.coefficient total fits) h)

-- As decimals, a personal postal tax up to the quantized threshold is exempted in full and nothing is due;
-- above it the whole tax is due and nothing is exempted.
pub exact_tax-IsExemption :
    (evidence : CustomsTaxEvidence) (price shipping threshold : Decimal) {b : ImportTaxBreakdown}
    → evidence.import_regime ≡ personal_postal
    → quantize_cents (or_zero evidence.personal_postal_tax_exemption_threshold_cny) ≡ some threshold
    → exact_tax evidence price shipping ≡ some b
    → IsExemption threshold.coefficient b
unfolding exact_tax
exact_tax-IsExemption evidence price shipping threshold regime limit h =
    Ensures-some (IsExemption threshold.coefficient) _
      (bind-Ensures (IsExemption threshold.coefficient) _ _ λ value value_ok. rw regime (
        bind-Ensures (IsExemption threshold.coefficient) _ _ λ assessed assessed_ok.
          bind-Ensures (IsExemption threshold.coefficient) _ _ λ before before_ok.
            bind-Ensures (IsExemption threshold.coefficient) _ _ λ found found_ok.
              bind-Ensures (IsExemption threshold.coefficient) _ _ λ total total_ok.
                exempt_step before found total threshold (quantize_scale _ _ before_ok)
                  (quantize_scale _ _ found_ok).0 (cc) total_ok))
      h
