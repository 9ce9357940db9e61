-- ===== src/Memory/Written.antt =====
-- app/memory/commands.py: what is read back after `execute_memory_commands`.
use shopping_agent.Common.{
  ◌≡◌, refl, ap, ◌∙◌, false, List, [], ◌∷◌, Text, text_eq, text_eq_refl, if◌then◌else◌, arith,
}
use shopping_agent.Memory.{
  MemoryCommand, Fields, record_of, compact, PreferenceStore, IsLawful, write, update_all,
  execute_memory_commands,
}

compact_fields :
    (a b c d : List Text)
    → record_of (
        compact (record {
          material_preferences = a;
          style_preferences = b;
          soft_preferences = c;
          avoid = d;
        }))
      ≡ record { material_preferences = a; style_preferences = b; soft_preferences = c; avoid = d }
unfolding record_of compact
compact_fields a b c d = ground arith

module _ (S : PreferenceStore) (lawful : IsLawful S) (s : S.State) (user : Text) where
  get-write :
      (reader : Text) (fields : Fields)
      → S.get (write S s user fields) reader
        ≡ (if text_eq reader user then fields else S.get s reader)
  get-write reader [] = lawful.get-delete s user reader
  get-write reader (f ∷ fs) = lawful.get-put s user reader (f ∷ fs)

  get-own : (fields : Fields) → S.get (write S s user fields) user ≡ fields
  get-own fields = get-write user fields ∙ rw (text_eq_refl user) refl

-- What `execute_memory_commands` returns is what the store then has for that user, also when every
-- field is empty and the entry is deleted; every other user's entry is as before. The
-- store keeps its contract.
pub execute_memory_commands-get :
    (S : PreferenceStore) (s : S.State) (user reader : Text) (cs : List MemoryCommand)
    → IsLawful S
    → text_eq reader user ≡ false
    → let after = execute_memory_commands S s user cs in
      (record_of (S.get after.0 user) ≡ after.1) × (S.get after.0 reader ≡ S.get s reader)
unfolding execute_memory_commands
execute_memory_commands-get S s user reader cs lawful other =
    let current = update_all cs (record_of (S.get s user)) in
    (
      ap record_of (get-own S lawful s user (compact current))
          ∙ compact_fields current.material_preferences current.style_preferences
              current.soft_preferences current.avoid,
      get-write S lawful s user reader (compact current) ∙ rw other refl,
    )
