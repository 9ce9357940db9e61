-- ===== src/Pricing/Shipping/Backed.antt =====
-- What the landed cost of one offer rests on, and why an offer has none for its shipping.
use shopping_agent.Common.{
  ℕ, Option-cases, inl, inr, ◌≡◌, refl, subst, Option, none, some, sym, ap, ◌∙◌, ◌≢◌, ◌⊎◌, arith,
}
use shopping_agent.Common.Decimal.{Decimal, Floats, mul, quantize_cents}
use shopping_agent.Pricing.Offer.{ShippingQuote, PricePoint}
use shopping_agent.Pricing.Tax.{CustomsTaxEvidence, ImportTaxBreakdown, calculate_import_tax}
use shopping_agent.Pricing.Shipping.{
  ShippingReason, missing_shipping_quote, landed, no_shipping, LandedCost, quote_problem,
  land_taxed, land_customs, land_quoted, land, conversion_rate,
}

-- A landed cost is backed by a quote and by customs evidence of its own offer: the quote had no
-- problem at the time of the calculation, the tax is computed from that evidence, the delivery time
-- is the quote's upper bound, and the landed price is the rounded sum of price, shipping, insurance
-- and tax.
pub record IsBacked (floats : Floats) (now : ℕ) (cost : LandedCost) : Type 0 where
  pub quote : ShippingQuote
  pub customs : CustomsTaxEvidence
  pub quoted : cost.point.shipping_quote ≡ some quote
  pub usable : quote_problem now cost.point.source quote ≡ none
  pub amount : Decimal
  pub converted :
      quantize_cents (mul quote.total_amount (conversion_rate quote.currency_conversion))
      ≡ some amount
  pub shipped : cost.shipping_cny ≡ floats.of_decimal amount
  pub declared : cost.point.customs ≡ some customs
  pub insured : cost.insurance_cny ≡ customs.insurance_cny
  pub taxed :
      calculate_import_tax floats customs cost.point.price_cny cost.shipping_cny ≡ some cost.tax
  pub timed : cost.eta_days ≡ quote.eta_max_days
  pub rounded : Decimal
  pub summed :
      quantize_cents (
        floats.plus
          (floats.plus (floats.plus cost.point.price_cny cost.shipping_cny) cost.insurance_cny)
          cost.tax.total_import_tax_cny)
      ≡ some rounded
  pub priced : cost.landed_cny ≡ floats.of_decimal rounded

landed_injective : (a b : LandedCost) → landed a ≡ landed b → a ≡ b
landed_injective a b h = cc

-- The landed cost is the offer's.
abbrev pub Backs : Floats → ℕ → PricePoint → LandedCost → Type 0
Backs floats now item cost = (cost.point ≡ item) × IsBacked floats now cost

module _ (floats : Floats) (now : ℕ) (item : PricePoint) (quote : ShippingQuote)
    (quoted : item.shipping_quote ≡ some quote)
    (usable : quote_problem now item.source quote ≡ none) (amount : Decimal)
    (converted : quantize_cents (mul quote.total_amount (conversion_rate quote.currency_conversion))
      ≡ some amount) where
  land_taxed-IsBacked :
      (customs : CustomsTaxEvidence) (tax : ImportTaxBreakdown) (cost : LandedCost)
      → item.customs ≡ some customs
      → calculate_import_tax floats customs item.price_cny (floats.of_decimal amount) ≡ some tax
      → land_taxed floats item quote customs (floats.of_decimal amount) tax ≡ landed cost
      → Backs floats now item cost
  unfolding land_taxed
  land_taxed-IsBacked customs tax cost declared taxed =
      elim (Option-cases (
        quantize_cents (
          floats.plus
            (floats.plus (floats.plus item.price_cny (floats.of_decimal amount))
              customs.insurance_cny)
            tax.total_import_tax_cny))) [
              | inl e ↦ rw (e, land_taxed) (λ h. cc)
              | inr (rounded, e) ↦
                  rw (e, land_taxed)
                    (λ h. subst (Backs floats now item) (landed_injective _ cost h) (
                      refl,
                      record {
                        quote = quote;
                        customs = customs;
                        quoted = quoted;
                        usable = usable;
                        amount = amount;
                        converted = converted;
                        shipped = refl;
                        declared = declared;
                        insured = refl;
                        taxed = taxed;
                        timed = refl;
                        rounded = rounded;
                        summed = e;
                        priced = refl;
                      },
                    ))
            ]

  land_customs-IsBacked :
      (customs : Option CustomsTaxEvidence) (cost : LandedCost)
      → item.customs ≡ customs
      → land_customs floats item quote (floats.of_decimal amount) customs ≡ landed cost
      → Backs floats now item cost
  unfolding land_customs
  land_customs-IsBacked none cost c h = cc
  land_customs-IsBacked (some customs) cost c h =
      elim (Option-cases
        (calculate_import_tax floats customs item.price_cny (floats.of_decimal amount))) [
          | inl e ↦ absurd (ground arith)
          | inr (tax, e) ↦ land_taxed-IsBacked customs tax cost c e (ground arith)
        ]

module _ (floats : Floats) (now : ℕ) (item : PricePoint) where
  land_quoted-IsBacked :
      (quote : ShippingQuote) (cost : LandedCost)
      → item.shipping_quote ≡ some quote
      → land_quoted floats now item quote ≡ landed cost
      → Backs floats now item cost
  unfolding land_quoted
  land_quoted-IsBacked quote cost q h = elim (Option-cases (quote_problem now item.source quote)) [
    | inl usable ↦
        elim (Option-cases
          (quantize_cents (mul quote.total_amount (conversion_rate quote.currency_conversion)))) [
            | inl e ↦ absurd (ground arith)
            | inr (amount, e) ↦
                land_customs-IsBacked floats now item quote q usable amount e item.customs cost refl
                  (ground arith)
          ]
    | inr (reason, e) ↦ absurd (ground arith)
  ]

  pub land-IsBacked :
      (q : Option ShippingQuote) (cost : LandedCost)
      → item.shipping_quote ≡ q
      → land floats now item q ≡ landed cost
      → Backs floats now item cost
  unfolding land
  land-IsBacked none cost e h = cc
  land-IsBacked (some quote) cost e h = land_quoted-IsBacked quote cost e h

  -- Why an offer has no usable quote: it has none, or its quote has this problem.
  abbrev pub IsUnquoted : ShippingReason → Type 0
  IsUnquoted reason =
      ((item.shipping_quote ≡ none) × (reason ≡ missing_shipping_quote))
      ⊎ ((quote : ShippingQuote) × (item.shipping_quote ≡ some quote)
          × (quote_problem now item.source quote ≡ some reason))

  customs_not_shipping :
      (quote : ShippingQuote) (shipping : Decimal) (customs : Option CustomsTaxEvidence)
      (reason : ShippingReason)
      → land_customs floats item quote shipping customs ≢ no_shipping reason
  unfolding land_customs land_taxed
  customs_not_shipping quote shipping none reason h = cc
  customs_not_shipping quote shipping (some customs) reason h = ground (arith, h)

  reason_injective : (a b : ShippingReason) → no_shipping a ≡ no_shipping b → a ≡ b
  reason_injective a b h = cc

  land_quoted-IsUnquoted :
      (quote : ShippingQuote) (reason : ShippingReason)
      → item.shipping_quote ≡ some quote
      → land_quoted floats now item quote ≡ no_shipping reason
      → IsUnquoted reason
  unfolding land_quoted
  land_quoted-IsUnquoted quote reason q =
      elim (Option-cases (quote_problem now item.source quote)) [
        | inr (found, e) ↦
            rw (e, land_quoted) (λ h. inr (quote, q, e ∙ ap some (reason_injective found reason h)))
        | inl usable ↦
            (elim (Option-cases (
              quantize_cents
                (mul quote.total_amount (conversion_rate quote.currency_conversion)))) [
                  | inl e ↦ rw (usable, e, land_quoted) (λ h. cc)
                  | inr (amount, e) ↦
                      rw (usable, e, land_quoted)
                        (λ h. absurd (customs_not_shipping quote _ item.customs reason h))
                ])
      ]

  pub land-IsUnquoted :
      (q : Option ShippingQuote) (reason : ShippingReason)
      → item.shipping_quote ≡ q
      → land floats now item q ≡ no_shipping reason
      → IsUnquoted reason
  unfolding land
  land-IsUnquoted none reason e h = inl (e, sym (reason_injective _ _ h))
  land-IsUnquoted (some quote) reason e h = land_quoted-IsUnquoted quote reason e h
