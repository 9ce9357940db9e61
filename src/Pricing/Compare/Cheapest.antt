-- ===== src/Pricing/Compare/Cheapest.antt =====
-- The map of the cheapest offers against the ranking.
use shopping_agent.Common.{
  ℕ, ◌≡◌, refl, sym, subst, true, Option, none, some, List, [], ◌∷◌, Text, text_eq, text_eq_iff,
  text_eq_sound, IsSorted, All, All-zip, All-take, arith, if◌then◌else◌, le_refl, Bool-cases, inl,
  inr, sort, sort-IsSorted, min, max,
}
use mathlib.Core.Path.{fun_ext}
use shopping_agent.Pricing.Offer.{Candidate, PricePoint}
use shopping_agent.Pricing.Compare.{
  set_default, cheapest_from, by_price, PriceCompareOutput, compared, price_compare,
}
use shopping_agent.Pricing.Compare.Partition.{compared_ledger}

pub lookup : Text → List (Text × PricePoint) → Option PricePoint
lookup key [] = none
lookup key ((k, p) ∷ rest) = if text_eq k key then some p else lookup key rest

-- The first offer of a platform.
first_of_platform : Text → List PricePoint → Option PricePoint
first_of_platform key [] = none
first_of_platform key (p ∷ ps) = if text_eq p.platform key then some p else first_of_platform key ps

abbrev or_else : Option PricePoint → Option PricePoint → Option PricePoint
or_else none q = q
or_else (some p) q = some p

lookup-set_default :
    (key k : Text) (item : PricePoint) (found : List (Text × PricePoint))
    → lookup key (set_default k item found)
      ≡ or_else (lookup key found) (if text_eq k key then some item else none)
unfolding lookup set_default
lookup-set_default key k item [] = refl
lookup-set_default key k item ((j, p) ∷ rest) = ground (
  arith,
  lookup-set_default key k item rest,
  text_eq_iff j k,
  text_eq_iff j key,
  text_eq_iff k key,
)

lookup-cheapest_from :
    (key : Text) (found : List (Text × PricePoint)) (ps : List PricePoint)
    → lookup key (cheapest_from found ps) ≡ or_else (lookup key found) (first_of_platform key ps)
unfolding cheapest_from first_of_platform
lookup-cheapest_from key found [] = ground arith
lookup-cheapest_from key found (p ∷ ps) = ground (
  arith,
  lookup-cheapest_from key (set_default p.platform p found) ps,
  lookup-set_default key p.platform p found,
)

-- `p` is on record for the platform of `x` and comes no later in the order of prices.
pub record IsUndercut (find : Text → Option PricePoint) (x : PricePoint) : Type 0 where
  pub cheapest : PricePoint
  pub recorded : find x.platform ≡ some cheapest
  pub same_platform : cheapest.platform ≡ x.platform
  pub no_dearer : by_price.le cheapest x ≡ true

module _ (p : PricePoint) (ps : List PricePoint) (x : PricePoint) where
  at_head :
      p.platform ≡ x.platform
      → by_price.le p x ≡ true
      → IsUndercut (λ key. first_of_platform key (p ∷ ps)) x
  unfolding first_of_platform
  at_head same le = record {
    cheapest = p;
    recorded = rw ((text_eq_iff p.platform x.platform).1 same);
    same_platform = same;
    no_dearer = le;
  }

  at_rest :
      by_price.le p x ≡ true
      → IsUndercut (λ key. first_of_platform key ps) x
      → IsUndercut (λ key. first_of_platform key (p ∷ ps)) x
  unfolding first_of_platform
  at_rest le u = elim (Bool-cases (text_eq p.platform x.platform)) [
    | inl e ↦ at_head (text_eq_sound p.platform x.platform e) le
    | inr e ↦ record {
      cheapest = u.cheapest;
      recorded = rw e u.recorded;
      same_platform = u.same_platform;
      no_dearer = u.no_dearer;
    }
  ]

first-IsUndercut :
    (ps : List PricePoint)
    → IsSorted by_price ps
    → All (IsUndercut (λ key. first_of_platform key ps)) ps
unfolding first_of_platform
first-IsUndercut [] s = tt
first-IsUndercut (p ∷ ps) s = (
  at_head p ps p refl (le_refl by_price p),
  All-zip ps (at_rest p ps) s.0 (first-IsUndercut ps s.1),
)

-- Every offer that is listed has, on record for its own platform, an offer that costs no more.
pub price_compare-cheapest :
    (candidates : List Candidate) (base_currency : Text) (top_n now : ℕ) {out : PriceCompareOutput}
    → price_compare candidates base_currency top_n now ≡ compared out
    → All (IsUndercut (λ key. lookup key out.cheapest_per_platform)) out.ranked
unfolding lookup
price_compare-cheapest candidates base_currency top_n now {out} h =
    let (ledger, _, reports) = compared_ledger candidates base_currency top_n now h in
    let (_, cheapest, ranked) = reports in
    let sorted = sort by_price ledger.ranked in
    subst (λ m. All (IsUndercut (λ key. lookup key m)) out.ranked) (sym cheapest)
      (subst (All (IsUndercut (λ key. lookup key (cheapest_from [] sorted)))) (sym ranked) (
        All-take _ (max 1 (min top_n 30)) sorted (
          subst (λ f. All (IsUndercut f) sorted)
            (fun_ext (λ key. sym (lookup-cheapest_from key [] sorted)))
            (first-IsUndercut sorted (sort-IsSorted by_price ledger.ranked)))))
