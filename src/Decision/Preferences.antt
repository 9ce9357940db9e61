-- ===== src/Decision/Preferences.antt =====
-- app/memory/injector.py: what the current request says against what is remembered.
mod Override
mod Examples
use shopping_agent.Common.{
  ℕ, ◌≡◌, Bool, true, false, not, ◌&&◌, ◌||◌, List, [], ◌∷◌, ◌++◌, map, Text, codes, text_eq,
  text_mem, starts_with, drop, length, any, is_empty, if◌then◌else◌,
}
use shopping_agent.Decision.Value.{Value, str, normal}
use shopping_agent.Decision.Constraint.{
  HardConstraint, Operator, contains_text, not_contains, lte, gte, equals, not_equals,
}

pub data Mode : Type 0 where
  product_research exact_offer_comparison : Mode

pub data Dimension : Type 0 where
  landed_cost preference_match evidence_quality delivery_time : Dimension

-- The fields of `ShoppingPlan` that decide.
pub record Intent : Type 0 where
  pub mode : Mode
  pub hard_constraints : List HardConstraint
  pub material_preferences : List Text
  pub style_preferences : List Text
  pub soft_preferences : List Text
  pub priority_order : List Dimension

-- `RememberedPreference`, and `_current_preferences` with an empty list for a field that is absent.
pub record Preferences : Type 0 where
  pub material_preferences : List Text
  pub style_preferences : List Text
  pub soft_preferences : List Text
  pub avoid : List Text

pub data PreferenceField : Type 0 where
  material_field style_field soft_field avoid_field : PreferenceField

pub data PreferenceStatus : Type 0 where
  applied ignored overridden : PreferenceStatus

-- `PreferenceDecision`; `current` tells its source.
pub record PreferenceDecision : Type 0 where
  pub field : PreferenceField
  pub value : Text
  pub status : PreferenceStatus
  pub current : Bool

abbrev pub without_prefix : Text → Text → Text
without_prefix prefix t = if starts_with prefix t then drop (length prefix) t else t

abbrev pub excludes_mark : Text
excludes_mark = codes "不含"

abbrev pub refuses_mark : Text
refuses_mark = codes "不要"

-- `_comparison_value`
unfoldable pub comparison_value : Text → Text
unfolding normal starts_with
comparison_value t = without_prefix refuses_mark (without_prefix excludes_mark (normal t))

abbrev is_material : HardConstraint → Bool
unfolding text_eq
is_material c = text_eq c.field (codes "material")

abbrev requires : Operator → Bool
requires contains_text = true
requires _ = false

abbrev prohibits : Operator → Bool
prohibits not_contains = true
prohibits _ = false

required_materials : List HardConstraint → List Text
unfolding text_eq
required_materials [] = []
required_materials (c ∷ cs) =
    let rest = required_materials cs in
    if is_material c && requires c.operator then str c.value ∷ rest else rest

avoided_materials : List HardConstraint → List Text
unfolding text_eq
avoided_materials [] = []
avoided_materials (c ∷ cs) =
    let rest = avoided_materials cs in
    if is_material c && prohibits c.operator then str c.value ∷ rest else rest

-- `list(dict.fromkeys(values))`
unfoldable pub once_each : List Text → List Text → List Text
unfolding text_mem
once_each seen [] = []
once_each seen (t ∷ ts) =
    let fresh = t ∷ once_each (t ∷ seen) ts in
    let rest = once_each seen ts in if text_mem t seen then rest else fresh

unfoldable pub current_preferences : Intent → Preferences
unfolding once_each required_materials avoided_materials
current_preferences plan = record {
  material_preferences =
      once_each [] (plan.material_preferences ++ required_materials plan.hard_constraints);
  style_preferences = once_each [] plan.style_preferences;
  soft_preferences = once_each [] plan.soft_preferences;
  avoid = once_each [] (avoided_materials plan.hard_constraints);
}

unfoldable pub is_comparable : Text → Text → Bool
unfolding comparison_value text_eq
is_comparable a b = text_eq (comparison_value a) (comparison_value b)

-- The status of a remembered value, given what is said now of its field and of materials.
unfoldable pub status_of : List Text → List Text → Text → PreferenceStatus
unfolding is_comparable
status_of said materials value =
    if any (is_comparable value) said
    then ignored
    else if not (is_empty said) || any (is_comparable value) materials
    then overridden
    else applied

abbrev pub if_applied : PreferenceStatus → Text → List Text → List Text
if_applied applied v rest = v ∷ rest
if_applied ignored v rest = rest
if_applied overridden v rest = rest

-- The values of one field that take part.
unfoldable pub effective : List Text → List Text → List Text → List Text
unfolding status_of
effective said materials [] = []
effective said materials (v ∷ vs) =
    let rest = effective said materials vs in if_applied (status_of said materials v) v rest

decisions_of : PreferenceField → List Text → List Text → List Text → List PreferenceDecision
unfolding status_of
decisions_of field said materials values =
    map
      (λ v. record {
        field = field;
        value = v;
        status = status_of said materials v;
        current = false;
      })
      values

said_now : PreferenceField → List Text → List PreferenceDecision
said_now field values =
    map (λ v. record { field = field; value = v; status = applied; current = true }) values

-- `PreferenceResolution`
pub record Resolution : Type 0 where
  pub effective_remembered : Preferences
  pub decisions : List PreferenceDecision

unfoldable pub resolve_preferences : Intent → Preferences → Resolution
unfolding current_preferences effective decisions_of said_now
resolve_preferences plan remembered =
    let current = current_preferences plan in
    let materials = current.material_preferences ++ current.avoid in
    record {
      effective_remembered = record {
        material_preferences =
            effective current.material_preferences materials remembered.material_preferences;
        style_preferences = effective current.style_preferences [] remembered.style_preferences;
        soft_preferences = effective current.soft_preferences [] remembered.soft_preferences;
        avoid = effective current.avoid materials remembered.avoid;
      };
      decisions =
          said_now material_field current.material_preferences
          ++ said_now style_field current.style_preferences
          ++ said_now soft_field current.soft_preferences
          ++ said_now avoid_field current.avoid
          ++ decisions_of material_field current.material_preferences materials
              remembered.material_preferences
          ++ decisions_of style_field current.style_preferences [] remembered.style_preferences
          ++ decisions_of soft_field current.soft_preferences [] remembered.soft_preferences
          ++ decisions_of avoid_field current.avoid materials remembered.avoid;
    }
