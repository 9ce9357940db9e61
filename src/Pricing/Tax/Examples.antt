-- ===== src/Pricing/Tax/Examples.antt =====
-- Tax breakdowns of concrete parcels.
use shopping_agent.Common.{◌≡◌, refl, true, none, some, inl, ◌>>=◌}
use shopping_agent.Common.Decimal.{Floats, decimal, add, sub, mul, div, quantize_cents}
use shopping_agent.Pricing.Tax.{
  general_trade, personal_postal, CustomsTaxEvidence, ImportTaxBreakdown, one, split, zero_cents,
  calculate_import_tax,
}
use shopping_agent.Pricing.Tax.Total.{IsSummed, calculate_import_tax-total}

-- Floats that represent every decimal and sum.
abbrev exact_floats : Floats
exact_floats = record { of_decimal = λ d. d; plus = add }

-- Tariff 10 %, VAT 13 %, consumption tax 5 %.
abbrev watch : CustomsTaxEvidence
watch = record {
  import_regime = general_trade;
  tariff_rate = some (decimal 1 1);
  import_vat_rate = some (decimal 13 2);
  consumption_tax_rate = decimal 5 2;
  personal_postal_tax_rate = none;
  personal_postal_assessed_value_cny = none;
  personal_postal_tax_exemption_threshold_cny = none;
  seller_collected_tax_cny = none;
  insurance_cny = decimal 0 1;
  valuation_cny = none;
}

-- A parcel assessed at 300 yuan, taxed 13 %, with an exemption up to 50 yuan.
abbrev parcel : CustomsTaxEvidence
parcel = record watch {
  import_regime = personal_postal;
  personal_postal_tax_rate = some (decimal 13 2);
  personal_postal_assessed_value_cny = some (decimal 3000 1);
  personal_postal_tax_exemption_threshold_cny = some (decimal 500 1);
}

-- 1000.00 + 100.00 shipping: tariff 110.00, consumption tax 63.68, VAT 165.58.
abbrev watch_tax : ImportTaxBreakdown
watch_tax =
    split general_trade one (decimal 110000 2) (decimal 11000 2) (decimal 6368 2) (decimal 16558 2)
      (decimal 33926 2)

watch_breakdown :
    calculate_import_tax exact_floats watch (decimal 10000 1) (decimal 1000 1) ≡ some watch_tax
unfolding calculate_import_tax ◌>>=◌ add sub mul div quantize_cents
watch_breakdown = refl

calculate_import_tax-total_example : IsSummed exact_floats watch_tax
calculate_import_tax-total_example =
    calculate_import_tax-total exact_floats watch (decimal 10000 1) (decimal 1000 1) (inl refl)
      watch_breakdown

abbrev parcel_tax : ImportTaxBreakdown
parcel_tax = record {
  import_regime = personal_postal;
  customs_value_cny = decimal 30000 2;
  policy_factor = one;
  tariff_cny = none;
  import_vat_cny = none;
  consumption_tax_cny = none;
  tax_before_exemption_cny = some (decimal 3900 2);
  tax_exemption_cny = decimal 3900 2;
  exempted = true;
  total_import_tax_cny = zero_cents;
}

parcel_breakdown :
    calculate_import_tax exact_floats parcel (decimal 3000 1) (decimal 0 1) ≡ some parcel_tax
unfolding calculate_import_tax ◌>>=◌ add sub mul div quantize_cents
parcel_breakdown = refl
