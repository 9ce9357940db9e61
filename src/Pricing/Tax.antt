-- ===== src/Pricing/Tax.antt =====
-- app/tools/import_tax.py: `calculate_import_tax` in Python's decimal arithmetic. `none` is a
-- decimal exception: a division by zero, or an amount beyond the context's precision.
pub mod Total
mod Examples
use shopping_agent.Common.{ℕ, ◌≡◌, Bool, true, false, Option, none, some, if◌then◌else◌, ◌>>=◌}
use shopping_agent.Common.Decimal.{
  Decimal, Floats, decimal, add, sub, mul, div, quantize_cents, decimal_leb,
}

-- The last is the one that the code's final branch takes.
pub data Regime : Type 0 where
  general_trade cross_border_ecommerce personal_postal seller_collected : Regime

-- The fields of `CustomsTaxEvidence` that the calculation reads.
pub record CustomsTaxEvidence : Type 0 where
  pub import_regime : Regime
  pub tariff_rate : Option Decimal
  pub import_vat_rate : Option Decimal
  pub consumption_tax_rate : Decimal
  pub personal_postal_tax_rate : Option Decimal
  pub personal_postal_assessed_value_cny : Option Decimal
  pub personal_postal_tax_exemption_threshold_cny : Option Decimal
  pub seller_collected_tax_cny : Option Decimal
  pub insurance_cny : Decimal
  pub valuation_cny : Option Decimal

pub record ImportTaxBreakdown : Type 0 where
  pub import_regime : Regime
  pub customs_value_cny : Decimal
  pub policy_factor : Decimal
  pub tariff_cny : Option Decimal
  pub import_vat_cny : Option Decimal
  pub consumption_tax_cny : Option Decimal
  pub tax_before_exemption_cny : Option Decimal
  pub tax_exemption_cny : Decimal
  pub exempted : Bool
  pub total_import_tax_cny : Decimal

abbrev pub zero_decimal : Decimal
zero_decimal = decimal 0 0

abbrev pub zero_cents : Decimal
zero_cents = decimal 0 2

abbrev pub one : Decimal
one = decimal 1 0

-- `_CBEC_POLICY_FACTOR`
abbrev pub cbec_policy_factor : Decimal
cbec_policy_factor = decimal 70 2

-- `value or 0`
abbrev pub or_zero : Option Decimal → Decimal
or_zero none = zero_decimal
or_zero (some d) = d

unfoldable pub customs_value : CustomsTaxEvidence → Decimal → Decimal → Option Decimal
customs_value evidence price shipping = elim evidence.valuation_cny [
  | some declared ↦ quantize_cents declared
  | none ↦ quantize_cents (add (add price shipping) evidence.insurance_cny)
]

-- The breakdown of a regime that splits its tax into three.
abbrev pub split :
    Regime → Decimal → Decimal → Decimal → Decimal → Decimal → Decimal → ImportTaxBreakdown
split regime factor value tariff consumption vat total = record {
  import_regime = regime;
  customs_value_cny = value;
  policy_factor = factor;
  tariff_cny = some tariff;
  import_vat_cny = some vat;
  consumption_tax_cny = some consumption;
  tax_before_exemption_cny = none;
  tax_exemption_cny = zero_cents;
  exempted = false;
  total_import_tax_cny = total;
}

unfoldable pub general_trade_tax : CustomsTaxEvidence → Decimal → Option ImportTaxBreakdown
general_trade_tax evidence value = do
  tariff ← quantize_cents (mul value (or_zero evidence.tariff_rate))
  base ← div (add value tariff) (sub one evidence.consumption_tax_rate)
  consumption ← quantize_cents (mul base evidence.consumption_tax_rate)
  vat ← quantize_cents (mul (add (add value tariff) consumption) (or_zero evidence.import_vat_rate))
  total ← quantize_cents (add (add tariff consumption) vat)
  some (split general_trade one value tariff consumption vat total)

unfoldable pub cross_border_tax : CustomsTaxEvidence → Decimal → Option ImportTaxBreakdown
cross_border_tax evidence value = do
  base ← div value (sub one evidence.consumption_tax_rate)
  consumption ← quantize_cents (mul (mul base evidence.consumption_tax_rate) cbec_policy_factor)
  vat ← quantize_cents (mul (mul base (or_zero evidence.import_vat_rate)) cbec_policy_factor)
  total ← quantize_cents (add (add zero_cents consumption) vat)
  some (split cross_border_ecommerce cbec_policy_factor value zero_cents consumption vat total)

-- A tax up to the threshold is exempted in full, a higher one is due in full.
unfoldable pub personal_postal_tax : CustomsTaxEvidence → Option ImportTaxBreakdown
personal_postal_tax evidence = do
  value ← quantize_cents (or_zero evidence.personal_postal_assessed_value_cny)
  before ← quantize_cents (mul value (or_zero evidence.personal_postal_tax_rate))
  threshold ← quantize_cents (or_zero evidence.personal_postal_tax_exemption_threshold_cny)
  let exempted = decimal_leb before threshold
  total ← quantize_cents (if exempted then zero_cents else before)
  some (record {
    import_regime = personal_postal;
    customs_value_cny = value;
    policy_factor = one;
    tariff_cny = none;
    import_vat_cny = none;
    consumption_tax_cny = none;
    tax_before_exemption_cny = some before;
    tax_exemption_cny = if exempted then before else zero_cents;
    exempted = exempted;
    total_import_tax_cny = total;
  })

unfoldable pub seller_collected_tax : CustomsTaxEvidence → Decimal → Option ImportTaxBreakdown
seller_collected_tax evidence value = do
  collected ← quantize_cents (or_zero evidence.seller_collected_tax_cny)
  total ← quantize_cents collected
  some (record {
    import_regime = seller_collected;
    customs_value_cny = value;
    policy_factor = one;
    tariff_cny = none;
    import_vat_cny = none;
    consumption_tax_cny = none;
    tax_before_exemption_cny = none;
    tax_exemption_cny = zero_cents;
    exempted = false;
    total_import_tax_cny = total;
  })

unfoldable pub tax_of_regime : Regime → CustomsTaxEvidence → Decimal → Option ImportTaxBreakdown
unfolding general_trade_tax cross_border_tax personal_postal_tax seller_collected_tax
tax_of_regime general_trade evidence value = general_trade_tax evidence value
tax_of_regime cross_border_ecommerce evidence value = cross_border_tax evidence value
tax_of_regime personal_postal evidence value = personal_postal_tax evidence
tax_of_regime seller_collected evidence value = seller_collected_tax evidence value

abbrev pub float_some : Floats → Option Decimal → Option Decimal
float_some floats none = none
float_some floats (some d) = some (floats.of_decimal d)

-- `float(...)` of each amount.
abbrev pub floated : Floats → ImportTaxBreakdown → ImportTaxBreakdown
floated floats b = record {
  import_regime = b.import_regime;
  customs_value_cny = floats.of_decimal b.customs_value_cny;
  policy_factor = floats.of_decimal b.policy_factor;
  tariff_cny = float_some floats b.tariff_cny;
  import_vat_cny = float_some floats b.import_vat_cny;
  consumption_tax_cny = float_some floats b.consumption_tax_cny;
  tax_before_exemption_cny = float_some floats b.tax_before_exemption_cny;
  tax_exemption_cny = floats.of_decimal b.tax_exemption_cny;
  exempted = b.exempted;
  total_import_tax_cny = floats.of_decimal b.total_import_tax_cny;
}

-- The amounts as decimals.
unfoldable pub exact_tax : CustomsTaxEvidence → Decimal → Decimal → Option ImportTaxBreakdown
unfolding customs_value tax_of_regime
exact_tax evidence product_price_cny international_shipping_cny = do
  value ← customs_value evidence product_price_cny international_shipping_cny
  tax_of_regime evidence.import_regime evidence value

unfoldable pub calculate_import_tax :
    Floats → CustomsTaxEvidence → Decimal → Decimal → Option ImportTaxBreakdown
unfolding exact_tax
calculate_import_tax floats evidence product_price_cny international_shipping_cny = do
  exact ← exact_tax evidence product_price_cny international_shipping_cny
  some (floated floats exact)
