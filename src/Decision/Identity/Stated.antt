-- ===== src/Decision/Identity/Stated.antt =====
-- app/tools/identity_matcher.py: the facts and the identifier that an offer states.
use shopping_agent.Common.{
  ℕ, Bool, ◌||◌, Option, none, some, List, [], ◌∷◌, ◌++◌, Text, codes, text_eq, text_mem, is_empty,
  ◌==◌, if◌then◌else◌,
}
use shopping_agent.Decision.Value.{Value, str, is_space}
use shopping_agent.Decision.Constraint.{Offer}

-- A dictionary in insertion order.
abbrev pub Facts : Type 0
Facts = List (Text × Text)

unfoldable pub lookup : Text → Facts → Option Text
unfolding text_eq
lookup key [] = none
lookup key ((k, v) ∷ rest) = if text_eq k key then some v else lookup key rest

-- `facts[key] = value`
unfoldable pub assign : Text → Text → Facts → Facts
unfolding text_eq
assign key value [] = (key, value) ∷ []
assign key value ((k, v) ∷ rest) =
    if text_eq k key then (k, value) ∷ rest else (k, v) ∷ assign key value rest

-- `facts.setdefault(key, value)`
abbrev set_default : Text → Text → Facts → Facts
set_default key value facts = elim (lookup key facts) [
  | none ↦ facts ++ (key, value) ∷ []
  | some v ↦ facts
]

-- `_KNOWN_ATTRIBUTE_KEYS`
abbrev known_attribute_keys : List Text
known_attribute_keys =
    codes "capacity"
    ∷ codes "condition"
    ∷ codes "bundle"
    ∷ codes "bundle_contents"
    ∷ codes "color"
    ∷ codes "material"
    ∷ codes "region"
    ∷ codes "regional_version"
    ∷ codes "storage"
    ∷ codes "storage_gb"
    ∷ []

-- `_ATTRIBUTE_ALIASES`
abbrev attribute_aliases : Facts
attribute_aliases =
    (codes "容量", codes "capacity")
    ∷ (codes "capacity", codes "capacity")
    ∷ (codes "存储", codes "capacity")
    ∷ (codes "内存", codes "capacity")
    ∷ (codes "storage", codes "capacity")
    ∷ (codes "storagegb", codes "capacity")
    ∷ (codes "storage_gb", codes "capacity")
    ∷ (codes "成色", codes "condition")
    ∷ (codes "condition", codes "condition")
    ∷ (codes "状态", codes "condition")
    ∷ (codes "套装", codes "bundle")
    ∷ (codes "套餐", codes "bundle")
    ∷ (codes "bundle", codes "bundle")
    ∷ (codes "bundlecontents", codes "bundle_contents")
    ∷ (codes "bundle_contents", codes "bundle_contents")
    ∷ (codes "包装", codes "bundle")
    ∷ (codes "颜色", codes "color")
    ∷ (codes "颜色系", codes "color")
    ∷ (codes "color", codes "color")
    ∷ (codes "colour", codes "color")
    ∷ (codes "材质", codes "material")
    ∷ (codes "材料", codes "material")
    ∷ (codes "material", codes "material")
    ∷ (codes "materials", codes "material")
    ∷ (codes "区域", codes "region")
    ∷ (codes "地区", codes "region")
    ∷ (codes "区域版本", codes "regional_version")
    ∷ (codes "地区版本", codes "regional_version")
    ∷ (codes "regionalversion", codes "regional_version")
    ∷ (codes "regional_version", codes "regional_version")
    ∷ (codes "region", codes "region")
    ∷ []

abbrev pub brand_key : Text
brand_key = codes "identity.brand"

abbrev pub model_key : Text
model_key = codes "identity.model"

-- `_authority_identifier`: the field's name and its value.
abbrev pub Authority : Type 0
Authority = Option (Text × Text)

module _ (fold : Text → Text) where
  abbrev dropped : ℕ → Bool
  dropped c = is_space c || (c == b'_') || (c == b'-')

  strip_all : Text → Text
  strip_all [] = []
  strip_all (c ∷ cs) = if dropped c then strip_all cs else c ∷ strip_all cs

  -- `_normal_text`
  unfoldable pub normal_text : Text → Text
  unfolding strip_all
  normal_text t = strip_all (fold t)

  abbrev identity_value : Option Text → Option Text
  unfolding normal_text
  identity_value none = none
  identity_value (some v) = if is_empty (normal_text v) then none else some (normal_text v)

  canonical_key : Text → Text
  unfolding normal_text lookup
  canonical_key key = elim (lookup (normal_text key) attribute_aliases) [
    | none ↦ normal_text key
    | some canonical ↦ canonical
  ]

  variant_from : List (Text × Option Value) → Facts → Facts
  unfolding canonical_key assign
  variant_from [] facts = facts
  variant_from ((key, none) ∷ rest) facts = variant_from rest facts
  variant_from ((key, some v) ∷ rest) facts =
      variant_from rest (assign (canonical_key key) (normal_text (str v)) facts)

  attributes_from : List (Text × Option Value) → Facts → Facts
  unfolding canonical_key text_mem
  attributes_from [] facts = facts
  attributes_from ((key, none) ∷ rest) facts = attributes_from rest facts
  attributes_from ((key, some v) ∷ rest) facts = attributes_from rest (
      if text_mem (canonical_key key) known_attribute_keys
      then set_default (canonical_key key) (normal_text (str v)) facts
      else facts)

  abbrev add_identity : Text → Option Text → Facts → Facts
  add_identity key none facts = facts
  add_identity key (some v) facts = assign key v facts

  unfoldable pub identity_facts : Offer → Facts
  unfolding variant_from attributes_from identity_value
  identity_facts offer = add_identity model_key (identity_value offer.identity.model) (
      add_identity brand_key (identity_value offer.identity.brand)
        (attributes_from offer.attributes (variant_from offer.variant_attributes [])))

  unfoldable pub authority_identifier : Offer → Authority
  unfolding identity_value
  authority_identifier offer = elim (identity_value offer.identity.gtin) [
    | some gtin ↦ some (codes "identity.gtin", gtin)
    | none ↦ elim (identity_value offer.identity.mpn) [
      | some mpn ↦ some (codes "identity.mpn", mpn)
      | none ↦ none
    ]
  ]
