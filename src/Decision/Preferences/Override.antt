-- ===== src/Decision/Preferences/Override.antt =====
-- The current request comes before what is remembered.
use shopping_agent.Common.{
  ◌≡◌, refl, true, false, List, [], ◌∷◌, ◌++◌, All, Text, any, is_empty, arith,
}
use shopping_agent.Decision.Preferences.{
  Intent, Preferences, PreferenceStatus, applied, ignored, overridden, is_comparable, status_of,
  if_applied, effective, current_preferences, resolve_preferences,
}

-- A value of a field takes part only if nothing is said of the field now, and the value is not
-- comparable with a material that is said now.
pub record IsFree (said materials : List Text) (value : Text) : Type 0 where
  pub unsaid : is_empty said ≡ true
  pub unopposed : any (is_comparable value) materials ≡ false

module _ (said materials : List Text) where
  applied-IsFree : (v : Text) → status_of said materials v ≡ applied → IsFree said materials v
  unfolding status_of
  applied-IsFree v h = record { unsaid = ground arith; unopposed = ground arith }

  if_applied-IsFree :
      (s : PreferenceStatus) (v : Text) (rest : List Text)
      → status_of said materials v ≡ s
      → All (IsFree said materials) rest
      → All (IsFree said materials) (if_applied s v rest)
  if_applied-IsFree applied v rest h k = (applied-IsFree v h, k)
  if_applied-IsFree ignored v rest h k = k
  if_applied-IsFree overridden v rest h k = k

  effective-IsFree :
      (values : List Text) → All (IsFree said materials) (effective said materials values)
  unfolding effective
  effective-IsFree [] = tt
  effective-IsFree (v ∷ vs) =
      if_applied-IsFree (status_of said materials v) v (effective said materials vs) refl
        (effective-IsFree vs)

-- A remembered preference takes part in a task only where the current request says nothing of its
-- field; a remembered material or avoided material, only where it is comparable with no material that
-- the current request wants or refuses.
pub resolve_preferences-IsFree :
    (plan : Intent) (remembered : Preferences)
    → let current = current_preferences plan in
      let materials = current.material_preferences ++ current.avoid in
      let kept = (resolve_preferences plan remembered).effective_remembered in
      All (IsFree current.material_preferences materials) kept.material_preferences
      × All (IsFree current.style_preferences []) kept.style_preferences
      × All (IsFree current.soft_preferences []) kept.soft_preferences
      × All (IsFree current.avoid materials) kept.avoid
unfolding resolve_preferences
resolve_preferences-IsFree plan remembered =
    let current = current_preferences plan in
    let materials = current.material_preferences ++ current.avoid in
    (
      effective-IsFree current.material_preferences materials remembered.material_preferences,
      effective-IsFree current.style_preferences [] remembered.style_preferences,
      effective-IsFree current.soft_preferences [] remembered.soft_preferences,
      effective-IsFree current.avoid materials remembered.avoid,
    )
