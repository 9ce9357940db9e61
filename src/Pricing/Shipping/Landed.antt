-- ===== src/Pricing/Shipping/Landed.antt =====
-- Where every offer of a calculation ends up.
use shopping_agent.Common.{
  ℕ, ◌+◌, ◌≡◌, refl, subst, some, List, [], ◌∷◌, count_if, count_if-append, count_if-sort, true,
  take, ap, Bool, sort-IsSorted, IsSorted, arith, All, All-append, All-sort, Ensures, bind-Ensures,
  Ensures-some,
}
use shopping_agent.Common.Decimal.{Floats}
use shopping_agent.Pricing.Offer.{PricePoint}
use shopping_agent.Pricing.Shipping.{
  Verdict, landed, no_shipping, no_tax, overflow, ShippingCalcOutput, empty_output, land,
  note_verdict, land_all, by_landed, shipping_calc,
}
use shopping_agent.Pricing.Shipping.Backed.{IsBacked, land-IsBacked, IsUnquoted, land-IsUnquoted}

-- The lists of the output: how many offers of a kind are in them.
abbrev pub listed : (PricePoint → Bool) → ShippingCalcOutput → ℕ
listed p out =
    count_if (λ c. p c.point) out.items
    + count_if (λ e. p e.0) out.shipping_exclusions
    + count_if (λ e. p e.0) out.tax_exclusions

module _ (floats : Floats) (now : ℕ) where
  -- What the lists hold.
  abbrev pub AreExplained : ShippingCalcOutput → Type 0
  AreExplained out =
      All (IsBacked floats now) out.items
      × All (λ e. IsUnquoted floats now e.0 e.1) out.shipping_exclusions

  abbrev IsSound : (PricePoint → Bool) → ℕ → ShippingCalcOutput → Type 0
  IsSound p n out = (listed p out ≡ n) × AreExplained out

  note_verdict-IsSound :
      (p : PricePoint → Bool) (n : ℕ) (item : PricePoint) (v : Verdict) (out : ShippingCalcOutput)
      → land floats now item item.shipping_quote ≡ v
      → IsSound p n out
      → Ensures (IsSound p (count_if p (item ∷ []) + n)) (note_verdict item v out)
  unfolding note_verdict
  note_verdict-IsSound p n item (landed cost) out made (count, (all, unquoted)) =
      let (own, backed) = land-IsBacked floats now item item.shipping_quote cost refl made in
      (
        omega (
          arith,
          count,
          ap (λ i. count_if p (i ∷ [])) own,
          count_if-append {0} (λ c. p c.point) out.items (cost ∷ []),
        ),
        (All-append (IsBacked floats now) out.items (cost ∷ []) all (backed, tt), unquoted),
      )
  note_verdict-IsSound p n item (no_shipping reason) out made (count, (all, unquoted)) =
      let why = land-IsUnquoted floats now item item.shipping_quote reason refl made in
      (
        omega (
          arith,
          count,
          count_if-append {0} (λ e. p e.0) out.shipping_exclusions ((item, reason) ∷ []),
        ),
        (
          all,
          All-append (λ e. IsUnquoted floats now e.0 e.1) out.shipping_exclusions
              ((item, reason) ∷ []) unquoted (why, tt),
        ),
      )
  note_verdict-IsSound p n item (no_tax reason) out made (count, explained) = (
    omega (arith, count, count_if-append {0} (λ e. p e.0) out.tax_exclusions ((item, reason) ∷ [])),
    explained,
  )
  note_verdict-IsSound p n item overflow out made sound = tt

  land_all-IsSound :
      (p : PricePoint → Bool) (n : ℕ) (items : List PricePoint) (out : ShippingCalcOutput)
      → IsSound p n out
      → Ensures (IsSound p (count_if p items + n)) (land_all floats now items out)
  unfolding land_all
  land_all-IsSound p n [] out (count, explained) = (omega (arith, count), explained)
  land_all-IsSound p n (item ∷ items) out sound =
      bind-Ensures (IsSound p (count_if p (item ∷ items) + n)) _ _ λ next ok.
        subst (λ k. Ensures (IsSound p k) (land_all floats now items next))
          (omega (arith, count_if-append {0} p (item ∷ []) items))
          (land_all-IsSound p (count_if p (item ∷ []) + n) items next (
            Ensures-some (IsSound p (count_if p (item ∷ []) + n)) _
              (note_verdict-IsSound p n item (land floats now item item.shipping_quote) out refl
                sound)
              ok))

  -- Of the first twelve offers each one, as often as it was given, is listed with its landed cost,
  -- excluded for its shipping quote, or excluded for its customs evidence. Every listed cost is backed
  -- by its own offer's evidence; every exclusion for shipping has its reason in the offer's quote; and
  -- the list is sorted by landed price, platform and item. A test `p` tells the offers apart.
  pub shipping_calc-IsBacked :
      (items : List PricePoint) {out : ShippingCalcOutput}
      → shipping_calc floats now items ≡ some out
      → ((p : PricePoint → Bool) → listed p out ≡ count_if p (take 12 items))
        × AreExplained out
        × IsSorted by_landed out.items
  unfolding shipping_calc
  shipping_calc-IsBacked items h =
      Ensures-some Good _
        (bind-Ensures Good _ _ λ out ok.
          let sound = λ (p : PricePoint → Bool).
            Ensures-some (IsSound p (count_if p (take 12 items) + 0)) _
              (land_all-IsSound p 0 (take 12 items) empty_output (refl, (tt, tt))) ok in
          let explained = (sound (λ (q : PricePoint). true)).1 in
          (
            λ p. omega (arith, (sound p).0, count_if-sort by_landed (λ c. p c.point) out.items),
            (All-sort by_landed (IsBacked floats now) out.items explained.0, explained.1),
            sort-IsSorted by_landed out.items,
          ))
        h
    where
      Good : ShippingCalcOutput → Type 0
      Good out =
          ((p : PricePoint → Bool) → listed p out ≡ count_if p (take 12 items))
          × AreExplained out
          × IsSorted by_landed out.items
