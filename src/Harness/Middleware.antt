-- ===== src/Harness/Middleware.antt =====
-- app/harness/middleware.py: the hooks of each point in order of priority, and their run. A value of the
-- context that is not the list of errors is a text, a priority is not negative, and a hook returns what it
-- changes.
mod Refusal
mod Examples
use shopping_agent.Common.{
  ℕ, ◌+◌, ◌≡◌, Bool, true, false, not, Option, none, some, List, [], ◌∷◌, ◌++◌, Text, codes,
  text_eq, text_mem, map, take, all, is_empty, keep, leb, ltb, ◌&&◌, ◌||◌, Order, nat_order, by_key,
  ◌then_by◌, sort, if◌then◌else◌,
}

-- `HOOK_POINTS`
abbrev pub hook_points : List Text
hook_points =
    codes "on_session_start"
    ∷ codes "pre_think"
    ∷ codes "pre_tool_call"
    ∷ codes "post_tool_call"
    ∷ codes "post_reflect"
    ∷ codes "on_session_end"
    ∷ []

pub record HookError : Type 0 where
  pub name : Text
  pub error : Text
  pub message : Text

pub data ContextValue : Type 0 where
  errors : List HookError → ContextValue
  other : Text → ContextValue

-- A dict: its keys stand once.
abbrev pub HookContext : Type 0
HookContext = List (Text × ContextValue)

unfoldable pub lookup : Text → HookContext → Option ContextValue
unfolding text_eq
lookup key [] = none
lookup key (entry ∷ rest) =
    let later = lookup key rest in if text_eq key entry.0 then some entry.1 else later

unfoldable pub assign : Text → ContextValue → HookContext → HookContext
unfolding text_eq
assign key value [] = (key, value) ∷ []
assign key value (entry ∷ rest) =
    let later = assign key value rest in
    if text_eq key entry.0 then (key, value) ∷ rest else entry ∷ later

-- `dict.update`
unfoldable pub update : HookContext → HookContext → HookContext
unfolding assign
update [] context = context
update (entry ∷ rest) context = update rest (assign entry.0 entry.1 context)

-- What awaiting a hook does: it returns a dict, or raises HookRejectSignal, another exception with its
-- type and text, or a cancellation. None is an empty dict, which changes nothing.
pub data HookResult : Type 0 where
  returned : HookContext → HookResult
  rejected : HookResult
  raised : Text → Text → HookResult
  cancelled : HookResult

abbrev pub HookFn : Type 0
HookFn = HookContext → HookResult

pub record Entry : Type 0 where
  pub priority : ℕ
  pub sequence : ℕ
  pub name : Text
  pub hook : HookFn

-- `HarnessMiddleware`: the entries of each point.
pub record Middleware : Type 0 where
  pub hooks : Text → List Entry
  pub sequence : ℕ

abbrev pub init : Middleware
init = record { hooks = λ point. []; sequence = 0 }

-- `key=lambda item: (item[0], item[1])`
abbrev pub entry_order : Order Entry
entry_order = by_key (λ e. e.priority) nat_order then_by by_key (λ e. e.sequence) nat_order

unfoldable pub set_hooks : Text → List Entry → (Text → List Entry) → Text → List Entry
unfolding text_eq
set_hooks point entries hooks other_point =
    if text_eq other_point point then entries else hooks other_point

abbrev pub unless_invalid : Bool → Middleware → Option Middleware
unless_invalid true m = none
unless_invalid false m = some m

abbrev pub is_space : ℕ → Bool
is_space c = (leb 9 c && leb c 13) || (leb 28 c && leb c 32)

abbrev pub enter : Text → Text → HookFn → ℕ → Middleware → Middleware
enter point name fn priority m =
    let entry : Entry = record {
      priority = priority;
      sequence = m.sequence + 1;
      name = name;
      hook = fn;
    } in
    record {
      hooks = set_hooks point (sort entry_order (m.hooks point ++ entry ∷ [])) m.hooks;
      sequence = m.sequence + 1;
    }

-- `register`; none is a ValueError.
unfoldable pub register : Text → Text → HookFn → ℕ → Middleware → Option Middleware
unfolding text_mem sort set_hooks
register point name fn priority m =
    unless_invalid (not (text_mem point hook_points) || all is_space name)
      (enter point name fn priority m)

-- `clear`; none is a ValueError.
unfoldable pub clear : Option Text → Middleware → Option Middleware
unfolding text_mem set_hooks
clear none m = some (record m { hooks = λ point. [] })
clear (some point) m =
    unless_invalid (not (text_mem point hook_points))
      (record m { hooks = set_hooks point [] m.hooks })

-- `registered`
abbrev pub registered : Middleware → Text → List Text
registered m point = map (λ (e : Entry). e.name) (m.hooks point)

-- How a run ends: with the context, by a rejection, a cancellation, or an exception of its own.
pub data RunEnd : Type 0 where
  completed : HookContext → RunEnd
  hook_rejected : RunEnd
  run_cancelled : RunEnd
  run_failed : RunEnd

-- `current["hook_errors"].append`, which fails where a hook has put something else there.
abbrev pub append_error : HookError → Option ContextValue → HookContext → RunEnd
append_error e (some (errors es)) current =
    completed (assign (codes "hook_errors") (errors (es ++ e ∷ [])) current)
append_error e (some (other t)) current = run_failed
append_error e none current = run_failed

unfoldable pub settle : Text → HookResult → HookContext → RunEnd
unfolding lookup assign update
settle name (returned result) current = completed (update result current)
settle name rejected current = hook_rejected
settle name cancelled current = run_cancelled
settle name (raised kind message) current =
    append_error (record { name = name; error = kind; message = take 240 message })
      (lookup (codes "hook_errors") current) current

abbrev pub and_then : RunEnd → (HookContext → RunEnd) → RunEnd
and_then (completed current) next = next current
and_then hook_rejected next = hook_rejected
and_then run_cancelled next = run_cancelled
and_then run_failed next = run_failed

unfoldable pub run_hooks : List Entry → HookContext → RunEnd
unfolding settle
run_hooks [] current = completed current
run_hooks (e ∷ es) current = and_then (settle e.name (e.hook current) current) (run_hooks es)

abbrev pub set_default : Option ContextValue → HookContext → HookContext
set_default (some value) context = context
set_default none context = assign (codes "hook_errors") (errors []) context

-- `run`
unfoldable pub run : Middleware → Text → HookContext → RunEnd
unfolding lookup assign run_hooks
run m point context = run_hooks (m.hooks point) (
    assign (codes "hook_point") (other point)
      (set_default (lookup (codes "hook_errors") context) context))

-- A later call of `register` or `clear`; one that raises leaves the hooks as they are.
pub data Operation : Type 0 where
  registers : Text → Text → HookFn → ℕ → Operation
  clears : Option Text → Operation

abbrev pub or_same : Option Middleware → Middleware → Middleware
or_same none m = m
or_same (some n) m = n

unfoldable pub perform_all : List Operation → Middleware → Middleware
unfolding register clear
perform_all [] m = m
perform_all (registers point name fn priority ∷ rest) m =
    perform_all rest (or_same (register point name fn priority m) m)
perform_all (clears point ∷ rest) m = perform_all rest (or_same (clear point m) m)
