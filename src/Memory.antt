-- ===== src/Memory.antt =====
-- app/memory/commands.py: the commands that remember and forget preferences, and what they write to a
-- store of app/memory/store.py. Parsing a query into commands is left out.
pub mod Words
pub mod Written
pub mod Store
pub mod Fallback
mod Examples
use shopping_agent.Common.{
  ◌≡◌, Bool, true, false, not, ◌&&◌, ◌||◌, List, [], ◌∷◌, ◌++◌, Text, text_eq, text_mem, keep,
  if◌then◌else◌,
}
use shopping_agent.Decision.Preferences.{
  Preferences, PreferenceField, material_field, style_field, soft_field, avoid_field, once_each,
}

pub data MemoryAction : Type 0 where
  remember forget : MemoryAction

pub record MemoryCommand : Type 0 where
  pub action : MemoryAction
  pub field : PreferenceField
  pub values : List Text

-- `getattr(preferences, field)`
unfoldable pub values_of : PreferenceField → Preferences → List Text
values_of material_field p = p.material_preferences
values_of style_field p = p.style_preferences
values_of soft_field p = p.soft_preferences
values_of avoid_field p = p.avoid

-- `model_copy(update={field: values})`
unfoldable pub with_values : PreferenceField → List Text → Preferences → Preferences
with_values material_field values p = record p { material_preferences = values }
with_values style_field values p = record p { style_preferences = values }
with_values soft_field values p = record p { soft_preferences = values }
with_values avoid_field values p = record p { avoid = values }

unfoldable pub updated_values : MemoryAction → List Text → List Text → List Text
unfolding once_each text_mem
updated_values remember given values = once_each [] (values ++ given)
updated_values forget given values = keep (λ v. not (text_mem v given)) values

-- `_update_record`
unfoldable pub update_record : MemoryCommand → Preferences → Preferences
unfolding values_of with_values updated_values
update_record c p = with_values c.field (updated_values c.action c.values (values_of c.field p)) p

unfoldable pub update_all : List MemoryCommand → Preferences → Preferences
unfolding update_record
update_all [] p = p
update_all (c ∷ cs) p = update_all cs (update_record c p)

abbrev pub if_forget : MemoryAction → Preferences → Preferences → Preferences
if_forget remember updated p = p
if_forget forget updated p = updated

-- `remembered_for_task`
unfoldable pub remembered_for_task : List MemoryCommand → Preferences → Preferences
unfolding update_record
remembered_for_task [] p = p
remembered_for_task (c ∷ cs) p = remembered_for_task cs (if_forget c.action (update_record c p) p)

-- A dictionary of preferences, its missing fields empty.
abbrev pub Fields : Type 0
Fields = List (PreferenceField × List Text)

abbrev pub same_field : PreferenceField → PreferenceField → Bool
same_field material_field material_field = true
same_field style_field style_field = true
same_field soft_field soft_field = true
same_field avoid_field avoid_field = true
same_field _ _ = false

-- `preferences.get(field, [])`
abbrev pub get_field : PreferenceField → Fields → List Text
get_field f [] = []
get_field f ((g, values) ∷ rest) = if same_field f g then values else get_field f rest

-- `_record`
unfoldable pub record_of : Fields → Preferences
record_of fields = record {
  material_preferences = get_field material_field fields;
  style_preferences = get_field style_field fields;
  soft_preferences = get_field soft_field fields;
  avoid = get_field avoid_field fields;
}

abbrev pub if_any : PreferenceField → List Text → Fields → Fields
if_any f [] rest = rest
if_any f (v ∷ vs) rest = (f, v ∷ vs) ∷ rest

-- `_compact`
unfoldable pub compact : Preferences → Fields
compact p = if_any material_field p.material_preferences (
    if_any style_field p.style_preferences
      (if_any soft_field p.soft_preferences (if_any avoid_field p.avoid [])))

-- `PreferenceStore`
pub record PreferenceStore : Type 1 where
  pub State : Type 0
  pub get : State → Text → Fields
  pub put : State → Text → Fields → State
  pub delete : State → Text → State

-- A put is read back, a delete leaves nothing, and both leave the other users alone.
pub record IsLawful (S : PreferenceStore) : Type 0 where
  pub get-put :
      (s : S.State) (user reader : Text) (fields : Fields)
      → S.get (S.put s user fields) reader
        ≡ (if text_eq reader user then fields else S.get s reader)
  pub get-delete :
      (s : S.State) (user reader : Text)
      → S.get (S.delete s user) reader ≡ (if text_eq reader user then [] else S.get s reader)

module _ (S : PreferenceStore) where
  abbrev pub write : S.State → Text → Fields → S.State
  write s user [] = S.delete s user
  write s user (f ∷ fs) = S.put s user (f ∷ fs)

  -- `execute_memory_commands`: the store and the record that is returned.
  unfoldable pub execute_memory_commands :
      S.State → Text → List MemoryCommand → S.State × Preferences
  unfolding record_of update_all compact
  execute_memory_commands s user cs =
      let current = update_all cs (record_of (S.get s user)) in
      (write s user (compact current), current)
