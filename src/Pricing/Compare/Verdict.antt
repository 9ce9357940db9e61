-- ===== src/Pricing/Compare/Verdict.antt =====
-- Which offers a comparison ranks and which it excludes, read from the offers alone.
use shopping_agent.Common.{
  ℕ, ◌≡◌, refl, Bool, true, false, not, ◌&&◌, ◌||◌, Bool-cases, inl, inr, Option, none, some, List,
  [], ◌∷◌, Text, text_eq, arith,
}
use shopping_agent.Common.Decimal.{Decimal, decimal, mul, quantize_cents}
use shopping_agent.Pricing.Offer.{
  Source, is_live, Conversion, Amount, finite, Candidate, PricePoint, expired,
}
use shopping_agent.Pricing.Compare.{
  ReasonCode, invalid_amount, missing_fx_evidence, invalid_fx_evidence, Exclusion, FxRate, rate,
  no_rate, cny, quoted_rate, fx_rate, currency_code, exclusion,
}

abbrev expires : Option ℕ → Bool
expires none = false
expires (some t) = true

-- A quote that converts from the offer's currency, is in force, and ends if its source is live.
abbrev pub is_current : ℕ → Source → Text → Conversion → Bool
is_current now source currency quote =
    text_eq quote.source_currency currency
    && not (expired now quote.expires_at)
    && (not (is_live source) || expires quote.expires_at)

abbrev converted : Bool → Decimal → FxRate
converted true r = rate r
converted false r = no_rate invalid_fx_evidence

abbrev foreign_verdict : ℕ → Source → Text → Option Conversion → FxRate
foreign_verdict now source currency none = no_rate missing_fx_evidence
foreign_verdict now source currency (some quote) =
    converted (is_current now source currency quote) quote.rate_to_cny

abbrev pub rate_verdict : ℕ → Candidate → Bool → FxRate
rate_verdict now item true = rate (decimal 10 1)
rate_verdict now item false =
    foreign_verdict now item.source (currency_code item.currency) item.price_conversion

abbrev pub amount_verdict : ℕ → Candidate → Amount → FxRate
amount_verdict now item (finite amount) =
    rate_verdict now item (text_eq (currency_code item.currency) cny)
amount_verdict now item _ = no_rate invalid_amount

-- An amount that is no number from zero up is invalid; CNY needs no evidence; another currency is
-- converted at the rate of a current quote.
abbrev pub verdict : ℕ → Candidate → FxRate
verdict now item = amount_verdict now item item.price

-- The ranked point of an offer: its price, to the cent, at this rate.
pub record IsPriced (item : Candidate) (r : Decimal) (p : PricePoint) : Type 0 where
  pub amount : Decimal
  pub stated : item.price ≡ finite amount
  pub converted : quantize_cents (mul amount r) ≡ some p.price_cny
  pub price : p.price ≡ amount
  pub item_id : p.item_id ≡ item.item_id
  pub platform : p.platform ≡ item.platform

-- The points and the exclusions of offers, in their order.
pub data Sorts (now : ℕ) : List Candidate → List PricePoint → List Exclusion → Type 0 where
  nothing : Sorts now [] [] []
  ranks :
      {item : Candidate} {items : List Candidate} {r : Decimal} {p : PricePoint}
      {ps : List PricePoint} {es : List Exclusion}
      → verdict now item ≡ rate r
      → IsPriced item r p
      → Sorts now items ps es
      → Sorts now (item ∷ items) (p ∷ ps) es
  excludes :
      {item : Candidate} {items : List Candidate} {why : ReasonCode} {ps : List PricePoint}
      {es : List Exclusion}
      → verdict now item ≡ no_rate why
      → Sorts now items ps es
      → Sorts now (item ∷ items) ps (exclusion item (currency_code item.currency) why ∷ es)

quoted_foreign :
    (now : ℕ) (source : Source) (currency : Text) (conversion : Option Conversion)
    → quoted_rate now source currency conversion ≡ foreign_verdict now source currency conversion
unfolding quoted_rate
quoted_foreign now source currency none = refl
quoted_foreign now source currency (some quote) = ground arith

pub fx_rate_verdict :
    (now : ℕ) (item : Candidate)
    → fx_rate now item (currency_code item.currency)
      ≡ rate_verdict now item (text_eq (currency_code item.currency) cny)
unfolding fx_rate
fx_rate_verdict now item = elim (Bool-cases (text_eq (currency_code item.currency) cny)) [
  | inl home ↦ rw home refl
  | inr abroad ↦ rw abroad (quoted_foreign now item.source _ item.price_conversion)
]
