-- ===== src/Memory/Fallback.antt =====
-- app/memory/store.py: `ResilientPreferenceStore`. The primary backend is a parameter; a call of it works
-- or raises an exception of a given name and leaves it as it was.
use shopping_agent.Common.{
  ◌≡◌, refl, Bool, true, false, Option, none, some, [], ◌++◌, Text, codes, text_eq_refl,
  if◌then◌else◌,
}
use shopping_agent.Memory.{Fields, PreferenceStore, IsLawful}
use shopping_agent.Memory.Store.{Values, get_values, put_values, delete_values, in_memory-IsLawful}

pub data Call : Type 0 where
  works : Call
  raises : Text → Call

pub data Backend : Type 0 where
  redis postgres : Backend

abbrev pub backend_label : Backend → Text
backend_label postgres = codes "PostgreSQL"
backend_label redis = codes "Redis"

-- The reason that is disclosed or raised.
abbrev pub failure_reason : Backend → Text → Text → Text
failure_reason backend operation exception =
    backend_label backend ++ (codes " " ++ (operation ++ (codes " failed: " ++ exception)))

module _ (P : PreferenceStore) where
  pub record Resilient : Type 0 where
    pub primary : P.State
    pub fallback : Values
    pub fallback_reason : Option Text

  abbrev pub built : P.State → Resilient
  built primary = record { primary = primary; fallback = []; fallback_reason = none }

  module _ (production : Bool) (backend : Backend) where
    -- `_fallback_or_raise`; none is the PreferenceStoreError.
    abbrev pub fallback_or_raise : Text → Text → Resilient → Option Resilient
    fallback_or_raise operation exception r =
        if production
        then none
        else some (record r { fallback_reason = some (failure_reason backend operation exception) })

    -- The reply and the store, from the store that may be fallen back to.
    abbrev pub or_local :
        {A : Type 0}
        → Resilient
        → Option Resilient
        → (Resilient → A × Resilient)
        → Option A × Resilient
    or_local r none act = (none, r)
    or_local r (some local) act = let next = act local in (some (next.0), next.1)

    -- `get`
    unfoldable pub get : Call → Text → Resilient → Option Fields × Resilient
    unfolding get_values
    get works user r = (some (P.get r.primary user), r)
    get (raises exception) user r =
        or_local r (fallback_or_raise (codes "get") exception r)
          (λ local. (get_values local.fallback user, local))

    -- `put`
    unfoldable pub put : Call → Text → Fields → Resilient → Option Bool × Resilient
    unfolding put_values
    put works user fields r = (some true, record r { primary = P.put r.primary user fields })
    put (raises exception) user fields r =
        or_local r (fallback_or_raise (codes "put") exception r)
          (λ local. (true, record local { fallback = put_values local.fallback user fields }))

    -- `delete`
    unfoldable pub delete : Call → Text → Resilient → Option Bool × Resilient
    unfolding delete_values
    delete works user r = (some true, record r { primary = P.delete r.primary user })
    delete (raises exception) user r =
        or_local r (fallback_or_raise (codes "delete") exception r)
          (λ local. (true, record local { fallback = delete_values local.fallback user }))

-- Outside production, preferences that were put while the primary backend was down come back after a
-- deletion that the primary carried out: the next read that finds the primary down returns them, while
-- a read of the primary itself finds nothing.
pub delete_resurfaces :
    (P : PreferenceStore) (backend : Backend) (r : Resilient P) (user before after : Text)
    (fields : Fields)
    → IsLawful P
    → let stored = (put P false backend (raises before) user fields r).1 in
      let deleted = (delete P false backend works user stored).1 in
      ((get P false backend works user deleted).0 ≡ some [])
      × ((get P false backend (raises after) user deleted).0 ≡ some fields)
unfolding get put delete
delete_resurfaces P backend r user before after fields lawful = (
  rw (lawful.get-delete r.primary user user, text_eq_refl user) refl,
  rw (in_memory-IsLawful.get-put r.fallback user user fields, text_eq_refl user) refl,
)
