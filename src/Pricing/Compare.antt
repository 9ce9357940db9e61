-- ===== src/Pricing/Compare.antt =====
-- app/tools/price_compare.py: prices in CNY by the evidence of each offer, exclusions with their
-- reasons, the ranking and the cheapest offer of each platform.
pub mod Verdict
pub mod Partition
pub mod Cheapest
mod Examples
use shopping_agent.Common.{
  ℕ, zero, suc, ◌+◌, ◌-◌, ◌≡◌, Bool, true, false, not, ◌&&◌, ◌||◌, Option, none, some, List, [],
  ◌∷◌, ◌++◌, map, min, max, Text, codes, text_eq, text_order, nat_order, Order, by_key, ◌then_by◌,
  sort, insert, text_mem, text_leb, take, length, is_empty, count_if, keep, any, leb, ltb, ◌==◌,
  if◌then◌else◌, ◌>>=◌,
}
use shopping_agent.Common.Decimal.{Decimal, decimal, mul, quantize_cents}
use shopping_agent.Pricing.Offer.{
  Source, is_live, Conversion, Amount, finite, below_zero, not_finite, boolean, not_a_number,
  Candidate, PricePoint, expired,
}

pub data ReasonCode : Type 0 where
  invalid_amount missing_fx_evidence invalid_fx_evidence : ReasonCode

-- `CalculationExclusion`
pub record Exclusion : Type 0 where
  pub item_id : Text
  pub platform : Text
  pub currency : Text
  pub reason_code : ReasonCode

-- `str.strip` and `str.upper` on ASCII text.
abbrev is_space : ℕ → Bool
is_space c = (c == 32) || (leb 9 c && leb c 13) || (leb 28 c && leb c 31)

lstrip : Text → Text
lstrip [] = []
lstrip (c ∷ cs) = if is_space c then lstrip cs else c ∷ cs

rstrip : Text → Text
rstrip [] = []
rstrip (c ∷ cs) = let rest = rstrip cs in if is_space c && is_empty rest then [] else c ∷ rest

abbrev upper : ℕ → ℕ
upper c = if leb b'a' c && leb c b'z' then c - 32 else c

-- `str(item.currency).strip().upper() or "UNKNOWN"`
unfoldable pub currency_code : Text → Text
unfolding lstrip rstrip
currency_code raw =
    let code = map upper (rstrip (lstrip raw)) in if is_empty code then codes "UNKNOWN" else code

abbrev pub cny : Text
cny = codes "CNY"

pub data FxRate : Type 0 where
  rate : Decimal → FxRate
  no_rate : ReasonCode → FxRate

-- The chain of tests on a foreign offer's conversion quote.
unfoldable pub quoted_rate : ℕ → Source → Text → Option Conversion → FxRate
unfolding text_eq
quoted_rate now source currency none = no_rate missing_fx_evidence
quoted_rate now source currency (some quote) =
    if is_live source && (elim quote.expires_at [ none ↦ true | some t ↦ false ])
    then no_rate invalid_fx_evidence
    else if not (text_eq quote.source_currency currency)
    then no_rate invalid_fx_evidence
    else if expired now quote.expires_at
    then no_rate invalid_fx_evidence
    else rate quote.rate_to_cny

unfoldable pub fx_rate : ℕ → Candidate → Text → FxRate
unfolding quoted_rate
fx_rate now item currency =
    if text_eq currency cny
    then rate (decimal 10 1)
    else quoted_rate now item.source currency item.price_conversion

-- The running lists of the loop.
pub record Ledger : Type 0 where
  pub ranked : List PricePoint
  pub excluded_currencies : List Text
  pub calculation_exclusions : List Exclusion
  pub valid_amount_count : ℕ

abbrev pub empty_ledger : Ledger
empty_ledger = record {
  ranked = [];
  excluded_currencies = [];
  calculation_exclusions = [];
  valid_amount_count = 0;
}

abbrev pub exclusion : Candidate → Text → ReasonCode → Exclusion
exclusion item currency reason = record {
  item_id = item.item_id;
  platform = item.platform;
  currency = currency;
  reason_code = reason;
}

-- `set.add`
abbrev add_text : Text → List Text → List Text
add_text t ts = if text_mem t ts then ts else t ∷ ts

abbrev price_point : Candidate → Text → Decimal → Decimal → PricePoint
price_point item currency amount price_cny = record {
  item_id = item.item_id;
  platform = item.platform;
  price = amount;
  currency = currency;
  price_cny = price_cny;
  source = item.source;
  price_conversion = if text_eq currency cny then none else item.price_conversion;
  shipping_quote = item.shipping_quote;
  customs = item.customs;
}

-- An offer whose amount is finite and not negative.
unfoldable pub priced : Candidate → Text → Decimal → FxRate → Ledger → Option Ledger
priced item currency amount (no_rate reason) ledger = some (record ledger {
  excluded_currencies = add_text currency ledger.excluded_currencies;
  calculation_exclusions = ledger.calculation_exclusions ++ exclusion item currency reason ∷ [];
  valid_amount_count = suc ledger.valid_amount_count;
})
priced item currency amount (rate r) ledger = do
  price_cny ← quantize_cents (mul amount r)
  some (record ledger {
    ranked = ledger.ranked ++ price_point item currency amount price_cny ∷ [];
    valid_amount_count = suc ledger.valid_amount_count;
  })

abbrev invalid : Candidate → Text → Ledger → Option Ledger
invalid item currency ledger = some (record ledger {
  calculation_exclusions =
      ledger.calculation_exclusions ++ exclusion item currency invalid_amount ∷ [];
})

-- The body of the loop; `none` is a decimal exception.
unfoldable pub visit_amount : ℕ → Candidate → Text → Amount → Ledger → Option Ledger
unfolding priced fx_rate
visit_amount now item currency (finite amount) ledger =
    priced item currency amount (fx_rate now item currency) ledger
visit_amount now item currency (below_zero amount) ledger = invalid item currency ledger
visit_amount now item currency not_finite ledger = invalid item currency ledger
visit_amount now item currency boolean ledger = invalid item currency ledger
visit_amount now item currency not_a_number ledger = invalid item currency ledger

unfoldable pub visit_all : ℕ → List Candidate → Ledger → Option Ledger
unfolding visit_amount currency_code
visit_all now [] ledger = some ledger
visit_all now (item ∷ items) ledger = do
  next ← visit_amount now item (currency_code item.currency) item.price ledger
  visit_all now items next

abbrev pub is_fx_exclusion : Exclusion → Bool
is_fx_exclusion e = elim e.reason_code [
  | invalid_amount ↦ false
  | missing_fx_evidence ↦ true
  | invalid_fx_evidence ↦ true
]

-- `(item.price_cny, item.platform, item.item_id)`; the prices are in cents.
unfoldable pub by_price : Order PricePoint
by_price =
    by_key (λ p. p.price_cny.coefficient) nat_order
    then_by by_key (λ p. p.platform) text_order
    then_by by_key (λ p. p.item_id) text_order

-- `cheapest.setdefault(item.platform, item)` over the ranking, in insertion order.
unfoldable pub set_default : Text → PricePoint → List (Text × PricePoint) → List (Text × PricePoint)
set_default key item [] = (key, item) ∷ []
set_default key item ((k, p) ∷ rest) =
    if text_eq k key then (k, p) ∷ rest else (k, p) ∷ set_default key item rest

unfoldable pub cheapest_from : List (Text × PricePoint) → List PricePoint → List (Text × PricePoint)
unfolding set_default
cheapest_from found [] = found
cheapest_from found (item ∷ items) = cheapest_from (set_default item.platform item found) items

pub record PriceCompareOutput : Type 0 where
  pub ranked : List PricePoint
  pub cheapest_per_platform : List (Text × PricePoint)
  pub excluded_currencies : List Text
  pub calculation_exclusions : List Exclusion

pub data CompareResult : Type 0 where
  compared : PriceCompareOutput → CompareResult
  missing_exchange_rates : List Text → CompareResult
  unsupported_base : CompareResult
  decimal_error : CompareResult

-- Behind the loop: the error that no offer could be converted, or the sorted ranking.
unfoldable pub finish : List Candidate → ℕ → Ledger → CompareResult
unfolding cheapest_from
finish candidates top_n ledger =
    let fx_exclusion_count = count_if is_fx_exclusion ledger.calculation_exclusions in
    let all_ranked = sort by_price ledger.ranked in
    if not (is_empty candidates)
      && is_empty ledger.ranked
      && not (ledger.valid_amount_count == 0)
      && fx_exclusion_count == ledger.valid_amount_count
    then missing_exchange_rates (sort text_order ledger.excluded_currencies)
    else compared (record {
      ranked = take (max 1 (min top_n 30)) all_ranked;
      cheapest_per_platform = cheapest_from [] all_ranked;
      excluded_currencies = sort text_order ledger.excluded_currencies;
      calculation_exclusions = ledger.calculation_exclusions;
    })

unfoldable pub price_compare : List Candidate → Text → ℕ → ℕ → CompareResult
unfolding visit_all finish
price_compare candidates base_currency top_n now =
    if not (text_eq base_currency cny)
    then unsupported_base
    else elim (visit_all now (take 100 candidates) empty_ledger) [
      | none ↦ decimal_error
      | some ledger ↦ finish candidates top_n ledger
    ]
