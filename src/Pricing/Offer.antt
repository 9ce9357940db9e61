-- ===== src/Pricing/Offer.antt =====
-- The parts of app/schemas.py that the price path reads. Texts that are only displayed are left
-- out. A timestamp is the instant that `datetime.fromisoformat` reads from it.
use shopping_agent.Common.{ℕ, Bool, true, false, Option, none, some, Text, leb}
use shopping_agent.Common.Decimal.{Decimal}
use shopping_agent.Pricing.Tax.{CustomsTaxEvidence}

pub data Source : Type 0 where
  live curated fixture computed : Source

abbrev pub is_live : Source → Bool
is_live live = true
is_live _ = false

-- `CurrencyConversionEvidence`
pub record Conversion : Type 0 where
  pub source_currency : Text
  pub rate_to_cny : Decimal
  pub provider : Text
  pub observed_at : Text
  pub expires_at : Option ℕ

-- `ShippingQuoteEvidence`
pub record ShippingQuote : Type 0 where
  pub total_amount : Decimal
  pub eta_max_days : ℕ
  pub expires_at : Option ℕ
  pub currency_conversion : Option Conversion

-- What `item.price` can be when it reaches the calculation.
pub data Amount : Type 0 where
  finite : Decimal → Amount
  below_zero : Decimal → Amount
  not_finite boolean not_a_number : Amount

pub record Candidate : Type 0 where
  pub item_id : Text
  pub platform : Text
  pub price : Amount
  pub currency : Text
  pub source : Source
  pub price_conversion : Option Conversion
  pub shipping_quote : Option ShippingQuote
  pub customs : Option CustomsTaxEvidence

pub record PricePoint : Type 0 where
  pub item_id : Text
  pub platform : Text
  pub price : Decimal
  pub currency : Text
  pub price_cny : Decimal
  pub source : Source
  pub price_conversion : Option Conversion
  pub shipping_quote : Option ShippingQuote
  pub customs : Option CustomsTaxEvidence

-- `expires_at is not None and fromisoformat(expires_at) <= now`
abbrev pub expired : ℕ → Option ℕ → Bool
expired now none = false
expired now (some t) = leb t now
