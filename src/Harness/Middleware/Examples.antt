-- ===== src/Harness/Middleware/Examples.antt =====
-- A hook that refuses tools, one that fails and one that adds a text, at one point.
use shopping_agent.Common.{◌≡◌, refl, false, some, List, [], ◌∷◌, Text, codes}
use shopping_agent.Harness.Middleware.{
  HookFn, returned, rejected, raised, other, errors, Middleware, init, completed, register,
  registers, clears, Operation, perform_all, run, registered,
}
use shopping_agent.Harness.Middleware.Refusal.{is_completed, spares, run-refused}

abbrev point : Text
point = codes "pre_tool_call"

abbrev refusing : HookFn
refusing context = rejected

abbrev failing : HookFn
failing context = raised (codes "ValueError") (codes "bad")

abbrev adding : HookFn
adding context = returned ((codes "query", other (codes "phone")) ∷ [])

abbrev later : List Operation
later =
    registers point (codes "add") adding 30
    ∷ registers point (codes "fail") failing 10
    ∷ registers (codes "pre_tool") (codes "unknown") adding 10
    ∷ registers point (codes " ") adding 10
    ∷ clears (some (codes "post_reflect"))
    ∷ []

names_in_order : registered (perform_all later init) point ≡ codes "fail" ∷ codes "add" ∷ []
unfolding perform_all
names_in_order = refl

-- The failure is noted, and the next hook runs.
noted :
    run (perform_all later init) point []
    ≡ completed (
        (
          codes "hook_errors",
          errors (
              record { name = codes "fail"; error = codes "ValueError"; message = codes "bad" }
              ∷ []),
        )
        ∷ (codes "hook_point", other point)
        ∷ (codes "query", other (codes "phone"))
        ∷ [])
unfolding perform_all run
noted = refl

abbrev refused : Middleware
refused = perform_all (registers point (codes "permission") refusing 20 ∷ []) init

accepted : register point (codes "permission") refusing 20 init ≡ some refused
unfolding register perform_all
accepted = refl

run-refused_example : is_completed (run (perform_all later refused) point []) ≡ false
unfolding spares
run-refused_example =
    run-refused point (codes "permission") refusing 20 (λ c. refl) init refused later [] accepted
      refl
