-- ===== src/Decision/Identity/Examples.antt =====
-- Two listings of one phone by GTIN, and a third of another.
use shopping_agent.Common.{
  refl, true, false, none, some, List, [], ◌∷◌, Text, codes, sort, text_leb,
}
use shopping_agent.Common.Decimal.{decimal}
use shopping_agent.Decision.Constraint.{Offer}
use shopping_agent.Decision.Identity.{match_offer_identity, authority_identifier, identity_facts}
use shopping_agent.Decision.Identity.Groups.{classify_exact_offers}
use shopping_agent.Decision.Identity.Groups.Agreement.{
  IsAgreement, match_offer_identity-IsAgreement,
}
use shopping_agent.Decision.Identity.Groups.Partition.{IsSplit, classify_exact_offers-IsSplit}

abbrev phone : Offer
phone = record {
  item_id = codes "p1";
  platform = codes "jd";
  title = codes "Phone X";
  identity = record {
    brand = some (codes "acme");
    model = some (codes "x");
    gtin = some (codes "0123");
    mpn = none;
  };
  attributes = [];
  variant_attributes = [];
  landed_cny = decimal 300000 2;
  eta_days = 3;
  product_price_only = false;
  known_source = true;
  has_provenance = true;
  has_product_url = true;
  has_identity = true;
  has_availability = true;
  has_retrieved_at = true;
  has_rating = false;
  has_sales = false;
}

abbrev same_phone : Offer
same_phone = record phone { item_id = codes "p2"; platform = codes "amazon" }

abbrev other_phone : Offer
other_phone = record phone {
  item_id = codes "p3";
  identity = record {
    brand = some (codes "acme");
    model = some (codes "y");
    gtin = some (codes "9");
    mpn = none;
  };
}

abbrev same : Text → Text
same t = t

abbrev listings : List Offer
listings = other_phone ∷ phone ∷ same_phone ∷ []

match_offer_identity-IsAgreement_example :
    IsAgreement
      (authority_identifier same phone)
      (authority_identifier same same_phone)
      (identity_facts same phone)
      (identity_facts same same_phone)
unfolding match_offer_identity sort text_leb
match_offer_identity-IsAgreement_example =
    match_offer_identity-IsAgreement same phone same_phone refl

classify_exact_offers-IsSplit_example : IsSplit (classify_exact_offers same listings) listings
classify_exact_offers-IsSplit_example = classify_exact_offers-IsSplit same listings
