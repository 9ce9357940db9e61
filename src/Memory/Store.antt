-- ===== src/Memory/Store.antt =====
-- app/memory/store.py: the store in memory, and the store that falls back to it. The primary backend is
-- a parameter, and whether a call of it succeeds is an argument; a call that fails leaves it.
use shopping_agent.Common.{
  ◌≡◌, refl, ap, true, List, [], ◌∷◌, Text, text_eq, text_eq_sound, if◌then◌else◌, arith,
}
use shopping_agent.Memory.{Fields, PreferenceStore, IsLawful}

-- `_values` of `InMemoryPreferenceStore`
abbrev pub Values : Type 0
Values = List (Text × Fields)

unfoldable pub get_values : Values → Text → Fields
unfolding text_eq
get_values [] user = []
get_values ((u, fields) ∷ rest) user = if text_eq user u then fields else get_values rest user

unfoldable pub put_values : Values → Text → Fields → Values
unfolding text_eq
put_values [] user fields = (user, fields) ∷ []
put_values ((u, old) ∷ rest) user fields =
    let kept = put_values rest user fields in
    if text_eq user u then (u, fields) ∷ rest else (u, old) ∷ kept

unfoldable pub delete_values : Values → Text → Values
unfolding text_eq
delete_values [] user = []
delete_values ((u, fields) ∷ rest) user =
    let kept = delete_values rest user in if text_eq user u then kept else (u, fields) ∷ kept

abbrev pub in_memory : PreferenceStore
in_memory = record { State = Values; get = get_values; put = put_values; delete = delete_values }

-- The reader is the user of an entry exactly if the written user is.
same_key : (reader user u : Text) → text_eq user u ≡ true → text_eq reader u ≡ text_eq reader user
same_key reader user u h = rw (text_eq_sound user u h) refl

same_reader :
    (reader user u : Text) → text_eq reader user ≡ true → text_eq reader u ≡ text_eq user u
same_reader reader user u h = ap (λ t. text_eq t u) (text_eq_sound reader user h)

get-put_values :
    (values : Values) (user reader : Text) (fields : Fields)
    → get_values (put_values values user fields) reader
      ≡ (if text_eq reader user then fields else get_values values reader)
unfolding get_values put_values
get-put_values [] user reader fields = ground arith
get-put_values ((u, old) ∷ rest) user reader fields = ground (
  arith,
  get-put_values rest user reader fields,
  same_key reader user u,
  same_reader reader user u,
)

get-delete_values :
    (values : Values) (user reader : Text)
    → get_values (delete_values values user) reader
      ≡ (if text_eq reader user then [] else get_values values reader)
unfolding get_values delete_values
get-delete_values [] user reader = ground arith
get-delete_values ((u, fields) ∷ rest) user reader =
    ground
      (arith, get-delete_values rest user reader, same_key reader user u, same_reader reader user u)

pub in_memory-IsLawful : IsLawful in_memory
in_memory-IsLawful = record { get-put = get-put_values; get-delete = get-delete_values }
