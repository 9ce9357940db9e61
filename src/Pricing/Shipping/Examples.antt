-- ===== src/Pricing/Shipping/Examples.antt =====
-- The landed cost of a parcel, and offers that are excluded.
use shopping_agent.Common.{
  ◌≡◌, refl, true, none, some, [], ◌∷◌, codes, Bool, count_if, IsSorted, sort, text_leb, ◌>>=◌,
}
use shopping_agent.Common.Decimal.{Floats, decimal, add, mul, quantize_cents}
use shopping_agent.Pricing.Offer.{live, ShippingQuote, PricePoint}
use shopping_agent.Pricing.Tax.{
  personal_postal, CustomsTaxEvidence, one, zero_cents, calculate_import_tax,
}
use shopping_agent.Pricing.Shipping.{
  LandedCost, exempt, ShippingCalcOutput, expired_shipping_quote, missing_customs_evidence,
  shipping_calc, by_landed,
}
use shopping_agent.Pricing.Shipping.Landed.{listed, AreExplained, shipping_calc-IsBacked}

-- Floats that represent every decimal and sum.
abbrev exact_floats : Floats
exact_floats = record { of_decimal = λ d. d; plus = add }

abbrev parcel : CustomsTaxEvidence
parcel = record {
  import_regime = personal_postal;
  tariff_rate = none;
  import_vat_rate = none;
  consumption_tax_rate = decimal 0 1;
  personal_postal_tax_rate = some (decimal 13 2);
  personal_postal_assessed_value_cny = some (decimal 3000 1);
  personal_postal_tax_exemption_threshold_cny = some (decimal 500 1);
  seller_collected_tax_cny = none;
  insurance_cny = decimal 15 1;
  valuation_cny = none;
}

abbrev quote : ShippingQuote
quote = record {
  total_amount = decimal 205 1;
  eta_max_days = 9;
  expires_at = some 900;
  currency_conversion = none;
}

abbrev item : PricePoint
item = record {
  item_id = codes "a";
  platform = codes "amazon";
  price = decimal 3000 1;
  currency = codes "CNY";
  price_cny = decimal 3000 1;
  source = live;
  price_conversion = none;
  shipping_quote = some quote;
  customs = some parcel;
}

abbrev late : PricePoint
late = record item { shipping_quote = some (record quote { expires_at = some 100 }) }

abbrev undeclared : PricePoint
undeclared = record item { customs = none }

abbrev cost : LandedCost
cost = record {
  point = item;
  shipping_cny = decimal 2050 2;
  insurance_cny = decimal 15 1;
  tax = record {
    import_regime = personal_postal;
    customs_value_cny = decimal 30000 2;
    policy_factor = one;
    tariff_cny = none;
    import_vat_cny = none;
    consumption_tax_cny = none;
    tax_before_exemption_cny = some (decimal 3900 2);
    tax_exemption_cny = decimal 3900 2;
    exempted = true;
    total_import_tax_cny = zero_cents;
  };
  landed_cny = decimal 32200 2;
  eta_days = 9;
  duty_tier = exempt;
}

abbrev report : ShippingCalcOutput
report = record {
  items = cost ∷ [];
  shipping_exclusions = (late, expired_shipping_quote) ∷ [];
  tax_exclusions = (undeclared, missing_customs_evidence) ∷ [];
}

calculated : shipping_calc exact_floats 100 (late ∷ item ∷ undeclared ∷ []) ≡ some report
unfolding shipping_calc calculate_import_tax ◌>>=◌ add mul quantize_cents sort text_leb
calculated = refl

shipping_calc-IsBacked_example :
    ((p : PricePoint → Bool) → listed p report ≡ count_if p (late ∷ item ∷ undeclared ∷ []))
    × AreExplained exact_floats 100 report
    × IsSorted by_landed report.items
shipping_calc-IsBacked_example =
    shipping_calc-IsBacked exact_floats 100 (late ∷ item ∷ undeclared ∷ []) calculated
