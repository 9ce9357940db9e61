-- ===== src/Memory/Words.antt =====
-- Which values are remembered after a list of commands.
use shopping_agent.Common.{
  ◌≡◌, refl, ap, subst, ◌∙◌, Bool, true, false, not, ◌&&◌, ◌||◌, Bool-cases, inl, inr, List, [],
  ◌∷◌, ◌++◌, Text, text_eq, text_eq_sound, text_mem, keep, if◌then◌else◌, arith,
}
use shopping_agent.Decision.Preferences.{Preferences, PreferenceField, once_each}
use shopping_agent.Memory.{
  MemoryAction, remember, forget, MemoryCommand, values_of, with_values, updated_values,
  update_record, update_all, if_forget, remembered_for_task, same_field,
}

-- The last command on the field that names the value decides; without one nothing changes.
abbrev pub word : MemoryAction → Bool
word remember = true
word forget = false

abbrev pub names : PreferenceField → Text → MemoryCommand → Bool
names f v c = same_field f c.field && text_mem v c.values

abbrev pub last_word : PreferenceField → Text → List MemoryCommand → Bool → Bool
last_word f v [] held = held
last_word f v (c ∷ cs) held = last_word f v cs (if names f v c then word c.action else held)

-- A command that forgets the value.
abbrev pub forgets : PreferenceField → Text → List MemoryCommand → Bool
forgets f v [] = false
forgets f v (c ∷ cs) = (names f v c && not (word c.action)) || forgets f v cs

text_mem-append :
    (v : Text) (xs ys : List Text) → text_mem v (xs ++ ys) ≡ (text_mem v xs || text_mem v ys)
unfolding text_mem
text_mem-append v [] ys = refl
text_mem-append v (x ∷ xs) ys = ground (arith, text_mem-append v xs ys)

same_mem : (v t : Text) (seen : List Text) → text_eq v t ≡ true → text_mem v seen ≡ text_mem t seen
same_mem v t seen h = ap (λ u. text_mem u seen) (text_eq_sound v t h)

text_mem-once_each :
    (v : Text) (seen ts : List Text)
    → text_mem v (once_each seen ts) ≡ (text_mem v ts && not (text_mem v seen))
unfolding text_mem once_each
text_mem-once_each v seen [] = refl
text_mem-once_each v seen (t ∷ ts) =
    ground
      (arith, text_mem-once_each v seen ts, text_mem-once_each v (t ∷ seen) ts, same_mem v t seen)

text_mem-keep :
    (v : Text) (given ts : List Text)
    → text_mem v (keep (λ u. not (text_mem u given)) ts) ≡ (text_mem v ts && not (text_mem v given))
unfolding text_mem
text_mem-keep v given [] = refl
text_mem-keep v given (t ∷ ts) = ground (arith, text_mem-keep v given ts, same_mem v t given)

values_of-with_values :
    (f g : PreferenceField) (values : List Text) (p : Preferences)
    → values_of f (with_values g values p) ≡ (if same_field f g then values else values_of f p)
unfolding values_of with_values
values_of-with_values f g values p = ground arith

same_field_sound : (f g : PreferenceField) → same_field f g ≡ true → f ≡ g
same_field_sound f g h = ground (arith, h)

mem-updated_values :
    (action : MemoryAction) (v : Text) (given values : List Text)
    → text_mem v (updated_values action given values)
      ≡ (if text_mem v given then word action else text_mem v values)
unfolding updated_values text_mem
mem-updated_values remember v given values =
    ground (arith, text_mem-once_each v [] (values ++ given), text_mem-append v values given)
mem-updated_values forget v given values = ground (arith, text_mem-keep v given values)

same_field_refl : (f : PreferenceField) → same_field f f ≡ true
same_field_refl f = ground arith

module _ (action : MemoryAction) (f : PreferenceField) (v : Text) (given : List Text)
    (p : Preferences) where
  -- The field after an update of the field `g`.
  abbrev Updates : PreferenceField → Type 0
  Updates g =
      text_mem v (values_of f (with_values g (updated_values action given (values_of g p)) p))
      ≡ (if same_field f g && text_mem v given then word action else text_mem v (values_of f p))

  own_field-Updates : Updates f
  own_field-Updates =
      ap (text_mem v) (values_of-with_values f f (updated_values action given (values_of f p)) p)
      ∙ rw (same_field_refl f) (mem-updated_values action v given (values_of f p))

  field-Updates : (g : PreferenceField) → Updates g
  field-Updates g = elim (Bool-cases (same_field f g)) [
    | inl same ↦ subst Updates (same_field_sound f g same) own_field-Updates
    | inr other ↦
        ap (text_mem v) (values_of-with_values f g (updated_values action given (values_of g p)) p)
        ∙ rw other refl
  ]

mem-update_record :
    (f : PreferenceField) (v : Text) (c : MemoryCommand) (p : Preferences)
    → text_mem v (values_of f (update_record c p))
      ≡ (if names f v c then word c.action else text_mem v (values_of f p))
unfolding update_record
mem-update_record f v c p = field-Updates c.action f v c.values p c.field

-- After any list of commands, a value is in a field exactly if the last command on that field that
-- names it remembers it, or no command names it and it was there before.
pub mem-update_all :
    (cs : List MemoryCommand) (f : PreferenceField) (v : Text) (p : Preferences)
    → text_mem v (values_of f (update_all cs p)) ≡ last_word f v cs (text_mem v (values_of f p))
unfolding update_all
mem-update_all [] f v p = refl
mem-update_all (c ∷ cs) f v p =
    mem-update_all cs f v (update_record c p) ∙ ap (last_word f v cs) (mem-update_record f v c p)

mem-if_forget :
    (action : MemoryAction) (f : PreferenceField) (v : Text) (c : MemoryCommand) (p : Preferences)
    → c.action ≡ action
    → text_mem v (values_of f (if_forget action (update_record c p) p))
      ≡ (text_mem v (values_of f p) && not (names f v c && not (word action)))
mem-if_forget remember f v c p h = ground arith
mem-if_forget forget f v c p h = mem-update_record f v c p ∙ ground (arith, ap word h)

-- For the current task, a field has exactly the remembered values that no command on that field
-- forgets: what the commands remember is not in it, and the order of the commands does not matter.
pub mem-remembered_for_task :
    (cs : List MemoryCommand) (f : PreferenceField) (v : Text) (p : Preferences)
    → text_mem v (values_of f (remembered_for_task cs p))
      ≡ (text_mem v (values_of f p) && not (forgets f v cs))
unfolding remembered_for_task
mem-remembered_for_task [] f v p = ground arith
mem-remembered_for_task (c ∷ cs) f v p = ground (
  arith,
  mem-remembered_for_task cs f v (if_forget c.action (update_record c p) p),
  mem-if_forget c.action f v c p refl,
)
