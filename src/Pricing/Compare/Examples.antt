-- ===== src/Pricing/Compare/Examples.antt =====
-- A comparison of three offers: one in CNY, one converted, one without evidence.
use shopping_agent.Common.{
  ◌≡◌, refl, none, some, List, take, [], ◌∷◌, codes, text_eq, text_leb, text_mem, sort, IsSorted,
  All, ◌>>=◌,
}
use shopping_agent.Common.Decimal.{decimal, mul, quantize_cents}
use shopping_agent.Pricing.Offer.{
  live, fixture, Conversion, finite, not_finite, Candidate, PricePoint,
}
use shopping_agent.Pricing.Compare.{
  cny, currency_code, price_compare, compared, missing_exchange_rates, by_price, PriceCompareOutput,
  missing_fx_evidence,
}
use shopping_agent.Pricing.Compare.Verdict.{Sorts}
use shopping_agent.Pricing.Compare.Partition.{price_compare-ranked}
use shopping_agent.Pricing.Compare.Cheapest.{IsUndercut, lookup, price_compare-cheapest}

abbrev usd_quote : Conversion
usd_quote = record {
  source_currency = codes "USD";
  rate_to_cny = decimal 71 1;
  provider = codes "bank";
  observed_at = codes "2026-01-01";
  expires_at = some 900;
}

abbrev offer : Candidate
offer = record {
  item_id = codes "a";
  platform = codes "amazon";
  price = finite (decimal 1005 1);
  currency = codes "cny ";
  source = fixture;
  price_conversion = none;
  shipping_quote = none;
  customs = none;
}

abbrev dollars : Candidate
dollars = record offer {
  item_id = codes "b";
  price = finite (decimal 10 0);
  currency = codes "usd";
  source = live;
  price_conversion = some usd_quote;
}

abbrev euros : Candidate
euros = record offer { item_id = codes "c"; currency = codes "EUR" }

abbrev broken : Candidate
broken = record offer { item_id = codes "d"; price = not_finite }

abbrev cheap : PricePoint
cheap = record {
  item_id = codes "b";
  platform = codes "amazon";
  price = decimal 10 0;
  currency = codes "USD";
  price_cny = decimal 7100 2;
  source = live;
  price_conversion = some usd_quote;
  shipping_quote = none;
  customs = none;
}

abbrev dear : PricePoint
dear = record {
  item_id = codes "a";
  platform = codes "amazon";
  price = decimal 1005 1;
  currency = cny;
  price_cny = decimal 10050 2;
  source = fixture;
  price_conversion = none;
  shipping_quote = none;
  customs = none;
}

abbrev report : PriceCompareOutput
report = record {
  ranked = cheap ∷ dear ∷ [];
  cheapest_per_platform = (codes "amazon", cheap) ∷ [];
  excluded_currencies = codes "EUR" ∷ [];
  calculation_exclusions =
      record {
        item_id = codes "c";
        platform = codes "amazon";
        currency = codes "EUR";
        reason_code = missing_fx_evidence;
      }
      ∷ [];
}

compared_offers : price_compare (offer ∷ dollars ∷ euros ∷ []) cny 12 100 ≡ compared report
unfolding price_compare currency_code ◌>>=◌ mul quantize_cents sort by_price text_eq text_leb
    text_mem
compared_offers = refl

-- At its expiry the quote is no longer used, and no offer is left.
expired_quote :
    price_compare (dollars ∷ broken ∷ []) cny 12 900 ≡ missing_exchange_rates (codes "USD" ∷ [])
unfolding price_compare currency_code ◌>>=◌ mul quantize_cents sort by_price text_eq text_leb
    text_mem
expired_quote = refl

price_compare-ranked_example :
    (points : List PricePoint) × Sorts 100
      (offer ∷ dollars ∷ euros ∷ [])
      points
      report.calculation_exclusions
    × (report.ranked ≡ take 12 (sort by_price points))
    × IsSorted by_price report.ranked
price_compare-ranked_example =
    price_compare-ranked (offer ∷ dollars ∷ euros ∷ []) cny 12 100 compared_offers

price_compare-cheapest_example :
    All (IsUndercut (λ key. lookup key report.cheapest_per_platform)) report.ranked
price_compare-cheapest_example =
    price_compare-cheapest (offer ∷ dollars ∷ euros ∷ []) cny 12 100 compared_offers
