-- ===== src/Memory/Examples.antt =====
-- A shopper who remembers, forgets and meets a backend that is down.
use shopping_agent.Common.{
  ◌≡◌, refl, false, not, ◌&&◌, some, List, [], ◌∷◌, Text, codes, text_eq, text_mem,
}
use shopping_agent.Decision.Preferences.{Preferences, material_field, avoid_field}
use shopping_agent.Memory.{
  remember, forget, MemoryCommand, values_of, update_all, remembered_for_task, Fields, record_of,
  execute_memory_commands,
}
use shopping_agent.Memory.Words.{last_word, forgets, mem-update_all, mem-remembered_for_task}
use shopping_agent.Memory.Written.{execute_memory_commands-get}
use shopping_agent.Memory.Store.{Values, in_memory, in_memory-IsLawful}
use shopping_agent.Memory.Fallback.{
  works, raises, redis, built, get, put, delete, delete_resurfaces,
}

abbrev linen : Text
linen = codes "linen"

abbrev wool : Text
wool = codes "wool"

abbrev commands : List MemoryCommand
commands =
    record { action = remember; field = material_field; values = linen ∷ wool ∷ linen ∷ [] }
    ∷ record { action = forget; field = material_field; values = wool ∷ [] }
    ∷ record { action = remember; field = avoid_field; values = wool ∷ [] }
    ∷ []

abbrev woolly : Preferences
woolly = record {
  material_preferences = wool ∷ [];
  style_preferences = [];
  soft_preferences = [];
  avoid = [];
}

mem-update_all_example :
    text_mem wool (values_of material_field (update_all commands woolly))
    ≡ last_word material_field wool commands (text_mem wool (wool ∷ []))
unfolding values_of
mem-update_all_example = mem-update_all commands material_field wool woolly

mem-remembered_for_task_example :
    text_mem linen (values_of material_field (remembered_for_task commands woolly)) ≡ (
      text_mem linen (values_of material_field woolly)
      && not (forgets material_field linen commands))
mem-remembered_for_task_example = mem-remembered_for_task commands material_field linen woolly

-- Only linen is a material then, and wool is avoided.
updated : update_all commands woolly ≡ record {
  material_preferences = linen ∷ [];
  style_preferences = [];
  soft_preferences = [];
  avoid = wool ∷ [];
}
unfolding update_all
updated = refl

abbrev values : Values
values = (codes "bob", (material_field, linen ∷ []) ∷ []) ∷ []

execute_memory_commands-get_example :
    let after = execute_memory_commands in_memory values (codes "ada") commands in
    (record_of (in_memory.get after.0 (codes "ada")) ≡ after.1)
    × (in_memory.get after.0 (codes "bob") ≡ in_memory.get values (codes "bob"))
unfolding text_eq
execute_memory_commands-get_example =
    execute_memory_commands-get in_memory values (codes "ada") (codes "bob") commands
      in_memory-IsLawful refl

abbrev fields : Fields
fields = (avoid_field, wool ∷ []) ∷ []

delete_resurfaces_example :
    let r = built in_memory values in
    let stored =
      (put in_memory false redis (raises (codes "TimeoutError")) (codes "ada") fields r).1 in
    let deleted = (delete in_memory false redis works (codes "ada") stored).1 in
    ((get in_memory false redis works (codes "ada") deleted).0 ≡ some [])
    × ((get in_memory false redis (raises (codes "ConnectionError")) (codes "ada") deleted).0
        ≡ some fields)
delete_resurfaces_example =
    delete_resurfaces in_memory redis (built in_memory values) (codes "ada") (codes "TimeoutError")
      (codes "ConnectionError") fields in_memory-IsLawful
