-- ===== src/Harness/Middleware/Refusal.antt =====
-- A hook that refuses is never passed over: not by the order of the hooks, nor by the failures of others.
use shopping_agent.Common.{
  ℕ, ◌≡◌, refl, sym, subst, Bool, true, false, not, Bool-cases, inl, inr, ◌⊎◌, Option, none, some,
  some-injective, List, [], ◌∷◌, ◌++◌, Text, text_eq, text_eq_refl, text_eq_sound, all, insert,
  sort, arith,
}
use shopping_agent.Harness.Middleware.{
  HookContext, HookFn, rejected, Entry, Middleware, entry_order, set_hooks, register, clear, RunEnd,
  completed, hook_rejected, run_cancelled, run_failed, settle, and_then, run_hooks, run, Operation,
  registers, clears, or_same, unless_invalid, enter, perform_all,
}

abbrev Refuses : Entry → Type 0
Refuses e = (c : HookContext) → e.hook c ≡ rejected

-- One of the entries refuses.
abbrev IsRefused : List Entry → Type 0
IsRefused [] = ⊥
IsRefused (e ∷ es) = Refuses e ⊎ IsRefused es

insert-first : (e : Entry) (es : List Entry) → Refuses e → IsRefused (insert entry_order e es)
unfolding insert
insert-first e [] h = inl h
insert-first e (x ∷ xs) h = elim (Bool-cases (entry_order.le e x)) [
  | inl le ↦ rw le (inl h)
  | inr gt ↦ rw gt (inr (insert-first e xs h))
]

insert-IsRefused :
    (e : Entry) (es : List Entry) → IsRefused es → IsRefused (insert entry_order e es)
unfolding insert
insert-IsRefused e [] h = absurd h
insert-IsRefused e (x ∷ xs) h = elim (Bool-cases (entry_order.le e x)) [
  | inl le ↦ rw le (inr h)
  | inr gt ↦
      rw gt (elim h [ inl first ↦ inl first | inr later ↦ inr (insert-IsRefused e xs later) ])
]

sort-IsRefused : (es : List Entry) → IsRefused es → IsRefused (sort entry_order es)
unfolding sort
sort-IsRefused [] h = h
sort-IsRefused (e ∷ es) (inl h) = insert-first e (sort entry_order es) h
sort-IsRefused (e ∷ es) (inr h) = insert-IsRefused e (sort entry_order es) (sort-IsRefused es h)

append-last : (es : List Entry) (e : Entry) → Refuses e → IsRefused (es ++ e ∷ [])
append-last [] e h = inl h
append-last (x ∷ xs) e h = inr (append-last xs e h)

append-IsRefused : (es : List Entry) (e : Entry) → IsRefused es → IsRefused (es ++ e ∷ [])
append-IsRefused [] e h = absurd h
append-IsRefused (x ∷ xs) e (inl h) = inl h
append-IsRefused (x ∷ xs) e (inr h) = inr (append-IsRefused xs e h)

set-same :
    (point : Text) (es : List Entry) (hooks : Text → List Entry)
    → IsRefused es
    → IsRefused (set_hooks point es hooks point)
unfolding set_hooks
set-same point es hooks h = rw (text_eq_refl point) h

set-IsRefused :
    (point p : Text) (es : List Entry) (hooks : Text → List Entry)
    → (text_eq p point ≡ true → IsRefused es)
    → IsRefused (hooks p)
    → IsRefused (set_hooks point es hooks p)
unfolding set_hooks
set-IsRefused point p es hooks k h = elim (Bool-cases (text_eq p point)) [
  | inl same ↦ rw same (k same)
  | inr others ↦ rw others h
]

abbrev IsGuarded : Text → Middleware → Type 0
IsGuarded p m = IsRefused (m.hooks p)

same-IsGuarded :
    (p : Text) (invalid : Bool) (n m : Middleware)
    → IsGuarded p n
    → IsGuarded p m
    → IsGuarded p (or_same (unless_invalid invalid n) m)
same-IsGuarded p true n m h k = k
same-IsGuarded p false n m h k = h

enter-IsGuarded :
    (p point name : Text) (fn : HookFn) (priority : ℕ) (m : Middleware)
    → IsGuarded p m
    → IsGuarded p (enter point name fn priority m)
enter-IsGuarded p point name fn priority m h =
    set-IsRefused point p _ m.hooks
      (λ same.
        sort-IsRefused _ (
          append-IsRefused _ _ (subst (λ q. IsRefused (m.hooks q)) (text_eq_sound p point same) h)))
      h

register-IsGuarded :
    (p point name : Text) (fn : HookFn) (priority : ℕ) (m : Middleware)
    → IsGuarded p m
    → IsGuarded p (or_same (register point name fn priority m) m)
unfolding register
register-IsGuarded p point name fn priority m h =
    same-IsGuarded p _ (enter point name fn priority m) m
      (enter-IsGuarded p point name fn priority m h) h

-- The operation does not clear the point.
unfoldable pub spares : Text → Operation → Bool
unfolding text_eq
spares p (registers point name fn priority) = true
spares p (clears none) = false
spares p (clears (some point)) = not (text_eq p point)

clear-IsGuarded :
    (p : Text) (point : Option Text) (m : Middleware)
    → spares p (clears point) ≡ true
    → IsGuarded p m
    → IsGuarded p (or_same (clear point m) m)
unfolding clear spares
clear-IsGuarded p none m spared h = cc
clear-IsGuarded p (some point) m spared h =
    same-IsGuarded p _ (record m { hooks = set_hooks point [] m.hooks }) m
      (set-IsRefused point p [] m.hooks (λ same. cc) h) h

perform_all-IsGuarded :
    (p : Text) (ops : List Operation) (m : Middleware)
    → all (spares p) ops ≡ true
    → IsGuarded p m
    → IsGuarded p (perform_all ops m)
unfolding perform_all
perform_all-IsGuarded p [] m spared h = h
perform_all-IsGuarded p (registers point name fn priority ∷ rest) m spared h =
    perform_all-IsGuarded p rest _ (ground (arith, spared))
      (register-IsGuarded p point name fn priority m h)
perform_all-IsGuarded p (clears point ∷ rest) m spared h =
    perform_all-IsGuarded p rest _ (ground (arith, spared))
      (clear-IsGuarded p point m (ground (arith, spared)) h)

unfoldable pub is_completed : RunEnd → Bool
is_completed (completed context) = true
is_completed hook_rejected = false
is_completed run_cancelled = false
is_completed run_failed = false

and_then-completed :
    (end : RunEnd) (next : HookContext → RunEnd)
    → ((c : HookContext) → is_completed (next c) ≡ false)
    → is_completed (and_then end next) ≡ false
unfolding is_completed
and_then-completed (completed context) next h = h context
and_then-completed hook_rejected next h = refl
and_then-completed run_cancelled next h = refl
and_then-completed run_failed next h = refl

refuse-completed :
    (es : List Entry) → IsRefused es → (c : HookContext) → is_completed (run_hooks es c) ≡ false
unfolding run_hooks settle is_completed
refuse-completed [] h c = absurd h
refuse-completed (e ∷ es) (inl h) c =
    subst (λ r. is_completed (and_then (settle e.name r c) (run_hooks es)) ≡ false) (sym (h c)) refl
refuse-completed (e ∷ es) (inr h) c =
    and_then-completed (settle e.name (e.hook c) c) (run_hooks es) (refuse-completed es h)

valid-same : (invalid : Bool) (m n : Middleware) → unless_invalid invalid m ≡ some n → m ≡ n
valid-same true m n h = cc
valid-same false m n h = some-injective _ _ h

module _ (point name : Text) (fn : HookFn) (priority : ℕ)
    (refuses : (c : HookContext) → fn c ≡ rejected) where
  registered-IsGuarded :
      (m n : Middleware) → register point name fn priority m ≡ some n → IsGuarded point n
  unfolding register
  registered-IsGuarded m n h =
      subst (IsGuarded point) (valid-same _ (enter point name fn priority m) n h)
        (set-same point _ m.hooks (sort-IsRefused _ (append-last (m.hooks point) _ refuses)))

  -- Once a hook that refuses every context is registered for a point, no run of that point completes, on
  -- any context, whatever hooks stood there before, whatever is registered afterwards and at whatever
  -- priority, and however the other hooks fail, as long as the point is not cleared.
  pub run-refused :
      (m n : Middleware) (ops : List Operation) (context : HookContext)
      → register point name fn priority m ≡ some n
      → all (spares point) ops ≡ true
      → is_completed (run (perform_all ops n) point context) ≡ false
  unfolding run
  run-refused m n ops context registered spared =
      refuse-completed ((perform_all ops n).hooks point)
        (perform_all-IsGuarded point ops n spared (registered-IsGuarded m n registered)) _
