-- ===== src/Compress/Examples.antt =====
-- A conversation with two tool results, of which the last is kept apart.
use shopping_agent.Common.{◌≡◌, refl, some, List, [], ◌∷◌, codes, text_eq}
use shopping_agent.Compress.{Message, dictionary, context_message, compute_breakpoint}
use shopping_agent.Compress.Bounded.{IsCompressed, compress_after_breakpoint-IsCompressed}

abbrev result : Message
result = record { shape = dictionary; role = codes "tool"; content = codes "a long list of offers" }

abbrev question : Message
question = record { shape = context_message; role = codes "user"; content = codes "shoes" }

abbrev conversation : List Message
conversation = question ∷ result ∷ question ∷ result ∷ []

last_result : compute_breakpoint conversation 1 ≡ some 3
unfolding compute_breakpoint text_eq
last_result = refl

compress_after_breakpoint-IsCompressed_example : IsCompressed conversation 3 20
compress_after_breakpoint-IsCompressed_example =
    compress_after_breakpoint-IsCompressed conversation 3 19
