-- ===== src/Decision/Constraint/Sources.antt =====
-- app/tools/decision_engine.py: what an offer states on the field of a hard constraint.
use shopping_agent.Common.{
  ℕ, Bool, Option, none, some, List, [], ◌∷◌, ◌++◌, map, Text, codes, text_eq, text_mem,
  if◌then◌else◌,
}
use shopping_agent.Common.Decimal.{Decimal}
use shopping_agent.Decision.Value.{nonneg, Value, text, number, other, normal}

pub data Kind : Type 0 where
  budget material attribute specification : Kind

pub data Operator : Type 0 where
  lte gte equals not_equals contains_text not_contains : Operator

pub record HardConstraint : Type 0 where
  pub id : Text
  pub kind : Kind
  pub field : Text
  pub operator : Operator
  pub value : Value
  pub unit : Option Text

-- `ProductIdentity`
pub record ProductIdentity : Type 0 where
  pub brand : Option Text
  pub model : Option Text
  pub gtin : Option Text
  pub mpn : Option Text

-- The fields of `LandedCost` that decide and rank. The flags say whether a field is filled, as
-- `_evidence_quality_score` asks. An attribute may be None.
pub record Offer : Type 0 where
  pub item_id : Text
  pub platform : Text
  pub title : Text
  pub identity : ProductIdentity
  pub attributes : List (Text × Option Value)
  pub variant_attributes : List (Text × Option Value)
  pub landed_cny : Decimal
  pub eta_days : ℕ
  pub product_price_only : Bool
  pub known_source : Bool
  pub has_provenance : Bool
  pub has_product_url : Bool
  pub has_identity : Bool
  pub has_availability : Bool
  pub has_retrieved_at : Bool
  pub has_rating : Bool
  pub has_sales : Bool

-- `ConstraintEvidence`
pub record Evidence : Type 0 where
  pub field_path : Text
  pub value : Value

-- `_FIELD_ALIASES.get(field, (field,))`
abbrev alias_table : List (Text × List Text)
alias_table =
    (codes "material", codes "material" ∷ codes "materials" ∷ codes "材质" ∷ codes "材料" ∷ [])
    ∷ (codes "color", codes "color" ∷ codes "colour" ∷ codes "颜色" ∷ codes "色系" ∷ [])
    ∷ (codes "style", codes "style" ∷ codes "风格" ∷ [])
    ∷ (codes "weight_kg", codes "weight_kg" ∷ codes "weight" ∷ codes "重量" ∷ codes "净重" ∷ [])
    ∷ (
      codes "storage_gb",
      codes "storage_gb" ∷ codes "storage" ∷ codes "memory" ∷ codes "内存" ∷ codes "存储" ∷ [],
    )
    ∷ (codes "capacity", codes "capacity" ∷ codes "容量" ∷ [])
    ∷ (
      codes "display_inch",
      codes "display_inch" ∷ codes "display" ∷ codes "screen" ∷ codes "屏幕" ∷ codes "尺寸" ∷ [],
    )
    ∷ (
      codes "battery_hours",
      codes "battery_hours" ∷ codes "battery" ∷ codes "续航" ∷ codes "电池续航" ∷ [],
    )
    ∷ (
      codes "specification",
      codes "specification" ∷ codes "spec" ∷ codes "规格" ∷ codes "尺寸" ∷ codes "型号规格" ∷ [],
    )
    ∷ []

aliases_in : List (Text × List Text) → Text → List Text
unfolding text_eq
aliases_in [] field = field ∷ []
aliases_in ((name, names) ∷ rest) field =
    if text_eq name field then names else aliases_in rest field

-- `value if isinstance(value, (str, int, float, bool)) else str(value)`
abbrev plain : Value → Value
plain (other t) = text t
plain v = v

-- The evidence of one mapping of attributes, whose keys are read without spaces and case.
evidence_in : Text → List Text → List (Text × Option Value) → List Evidence
unfolding normal text_mem
evidence_in name aliases [] = []
evidence_in name aliases ((key, none) ∷ rest) = evidence_in name aliases rest
evidence_in name aliases ((key, some v) ∷ rest) =
    let later = evidence_in name aliases rest in
    if text_mem (normal key) aliases
    then record { field_path = name ++ codes "." ++ key; value = plain v } ∷ later
    else later

unfoldable pub mapping_values : Offer → Text → List Evidence
unfolding aliases_in evidence_in
mapping_values offer field =
    let aliases = map normal (aliases_in alias_table field) in
    evidence_in (codes "variant_attributes") aliases offer.variant_attributes
    ++ evidence_in (codes "attributes") aliases offer.attributes

abbrev pub budget_field : Text
budget_field = codes "budget_cny"

-- `_facts_for_constraint`; the rendering of the landed price is not read.
unfoldable pub facts_for_constraint : Offer → HardConstraint → List Evidence
unfolding mapping_values
facts_for_constraint offer constraint =
    if text_eq constraint.field budget_field
    then record {
      field_path = if offer.product_price_only then codes "price_cny" else codes "landed_cny";
      value = number (nonneg offer.landed_cny) [];
    }
      ∷ []
    else mapping_values offer constraint.field
