-- ===== src/Pricing/Shipping.antt =====
-- app/tools/shipping_calc.py: the landed cost of each offer with a usable shipping quote and usable
-- customs evidence, and the exclusions of the others. The destination has passed
-- `normalize_destination`, and `calculated_at` carries a timezone.
mod Backed
pub mod Landed
mod Examples
use shopping_agent.Common.{
  ℕ, zero, suc, ◌+◌, ◌*◌, ◌≡◌, Bool, true, false, not, ◌&&◌, ◌||◌, Option, none, some, List, [],
  ◌∷◌, ◌++◌, Text, text_order, nat_order, Order, by_key, ◌then_by◌, sort, take, leb, ◌==◌,
  if◌then◌else◌, ◌>>=◌,
}
use shopping_agent.Common.Decimal.{
  Decimal, Floats, decimal, mul, quantize_cents, is_zero, decimal_leb, decimal_order,
}
use shopping_agent.Pricing.Offer.{Source, is_live, Conversion, ShippingQuote, PricePoint, expired}
use shopping_agent.Pricing.Tax.{
  Regime, general_trade, cross_border_ecommerce, personal_postal, seller_collected,
  CustomsTaxEvidence, ImportTaxBreakdown, one, calculate_import_tax,
}

pub data ShippingReason : Type 0 where
  missing_shipping_quote invalid_shipping_quote expired_shipping_quote : ShippingReason

pub data TaxReason : Type 0 where
  missing_customs_evidence missing_customs_valuation : TaxReason

pub data DutyTier : Type 0 where
  exempt high standard : DutyTier

-- `LandedCost`, as the calculation fills it.
pub record LandedCost : Type 0 where
  pub point : PricePoint
  pub shipping_cny : Decimal
  pub insurance_cny : Decimal
  pub tax : ImportTaxBreakdown
  pub landed_cny : Decimal
  pub eta_days : ℕ
  pub duty_tier : DutyTier

-- What becomes of one offer. `overflow` is a decimal exception.
pub data Verdict : Type 0 where
  landed : LandedCost → Verdict
  no_shipping : ShippingReason → Verdict
  no_tax : TaxReason → Verdict
  overflow : Verdict

abbrev unset : Option ℕ → Bool
unset none = true
unset (some t) = false

-- `quote.currency_conversion`: whether it rules the quote out, and its rate.
unfoldable pub conversion_unusable : ℕ → Source → Option Conversion → Bool
conversion_unusable now source none = false
conversion_unusable now source (some c) =
    (is_live source && unset c.expires_at) || expired now c.expires_at

abbrev conversion_rate : Option Conversion → Decimal
conversion_rate none = one
conversion_rate (some c) = c.rate_to_cny

-- The tests on the quote, in the code's order, and the amount in CNY.
unfoldable pub quote_problem : ℕ → Source → ShippingQuote → Option ShippingReason
unfolding conversion_unusable
quote_problem now source quote =
    if is_live source && unset quote.expires_at
    then some invalid_shipping_quote
    else if expired now quote.expires_at
    then some expired_shipping_quote
    else if conversion_unusable now source quote.currency_conversion
    then some invalid_shipping_quote
    else none

-- Regimes whose customs value has to be declared apart from the shopper's exchange rate.
abbrev pub needs_valuation : Regime → Bool
needs_valuation general_trade = true
needs_valuation cross_border_ecommerce = true
needs_valuation personal_postal = false
needs_valuation seller_collected = false

abbrev no_valuation : CustomsTaxEvidence → Bool
no_valuation customs = elim customs.valuation_cny [ none ↦ true | some v ↦ false ]

-- `total / customs_value >= 0.2`, read without the rounding of the quotient, and 0 where the value is 0.
abbrev is_high : ImportTaxBreakdown → Bool
is_high tax =
    not (is_zero tax.customs_value_cny)
    && decimal_leb
        (decimal (tax.customs_value_cny.coefficient * 2) (tax.customs_value_cny.scale + 1))
        tax.total_import_tax_cny

unfoldable pub tier_of : ImportTaxBreakdown → DutyTier
tier_of tax =
    if is_zero tax.total_import_tax_cny then exempt else if is_high tax then high else standard

unfoldable pub land_taxed :
    Floats
    → PricePoint
    → ShippingQuote
    → CustomsTaxEvidence
    → Decimal
    → ImportTaxBreakdown
    → Verdict
unfolding tier_of
land_taxed floats item quote customs shipping tax =
    elim (quantize_cents (
      floats.plus (floats.plus (floats.plus item.price_cny shipping) customs.insurance_cny)
        tax.total_import_tax_cny)) [
          | none ↦ overflow
          | some total ↦ landed (record {
            point = item;
            shipping_cny = shipping;
            insurance_cny = customs.insurance_cny;
            tax = tax;
            landed_cny = floats.of_decimal total;
            eta_days = quote.eta_max_days;
            duty_tier = tier_of tax;
          })
        ]

unfoldable pub land_customs :
    Floats → PricePoint → ShippingQuote → Decimal → Option CustomsTaxEvidence → Verdict
unfolding land_taxed
land_customs floats item quote shipping none = no_tax missing_customs_evidence
land_customs floats item quote shipping (some customs) =
    if needs_valuation customs.import_regime && no_valuation customs
    then no_tax missing_customs_valuation
    else elim (calculate_import_tax floats customs item.price_cny shipping) [
      | none ↦ overflow
      | some tax ↦ land_taxed floats item quote customs shipping tax
    ]

unfoldable pub land_quoted : Floats → ℕ → PricePoint → ShippingQuote → Verdict
unfolding quote_problem land_customs
land_quoted floats now item quote = elim (quote_problem now item.source quote) [
  | some reason ↦ no_shipping reason
  | none ↦
      elim (quantize_cents (mul quote.total_amount (conversion_rate quote.currency_conversion))) [
        | none ↦ overflow
        | some shipping ↦ land_customs floats item quote (floats.of_decimal shipping) item.customs
      ]
]

-- The body of the loop for an offer and its quote.
unfoldable pub land : Floats → ℕ → PricePoint → Option ShippingQuote → Verdict
unfolding land_quoted
land floats now item none = no_shipping missing_shipping_quote
land floats now item (some quote) = land_quoted floats now item quote

pub record ShippingCalcOutput : Type 0 where
  pub items : List LandedCost
  pub shipping_exclusions : List (PricePoint × ShippingReason)
  pub tax_exclusions : List (PricePoint × TaxReason)

abbrev pub empty_output : ShippingCalcOutput
empty_output = record { items = []; shipping_exclusions = []; tax_exclusions = [] }

unfoldable pub note_verdict : PricePoint → Verdict → ShippingCalcOutput → Option ShippingCalcOutput
note_verdict item (landed cost) out = some (record out { items = out.items ++ cost ∷ [] })
note_verdict item (no_shipping reason) out =
    some (record out { shipping_exclusions = out.shipping_exclusions ++ (item, reason) ∷ [] })
note_verdict item (no_tax reason) out =
    some (record out { tax_exclusions = out.tax_exclusions ++ (item, reason) ∷ [] })
note_verdict item overflow out = none

unfoldable pub land_all :
    Floats → ℕ → List PricePoint → ShippingCalcOutput → Option ShippingCalcOutput
unfolding land note_verdict
land_all floats now [] out = some out
land_all floats now (item ∷ items) out = do
  next ← note_verdict item (land floats now item item.shipping_quote) out
  land_all floats now items next

-- `(item.landed_cny, item.platform, item.item_id)`
unfoldable pub by_landed : Order LandedCost
by_landed =
    by_key (λ c. c.landed_cny) decimal_order
    then_by by_key (λ c. c.point.platform) text_order
    then_by by_key (λ c. c.point.item_id) text_order

unfoldable pub shipping_calc : Floats → ℕ → List PricePoint → Option ShippingCalcOutput
unfolding land_all by_landed
shipping_calc floats now items = do
  out ← land_all floats now (take 12 items) empty_output
  some (record out { items = sort by_landed out.items })
