-- ===== src/Harness.antt =====
-- app/harness/phase.py and the gate of `_call_tool` in app/agent/main_agent.py: the phase of a task, the
-- tools that it permits, and the calls of tools one after the other. The context variables are the state.
mod Ordered
mod Middleware
mod Examples
use shopping_agent.Common.{
  ℕ, ◌≡◌, Bool, true, false, List, [], ◌∷◌, ◌++◌, Text, codes, text_eq, text_mem, last_n, Option,
  none, some, if◌then◌else◌,
}

pub data Phase : Type 0 where
  planning searching comparing concluding : Phase

-- `PHASE_TOOLS`
unfoldable pub phase_tools : Phase → List Text
phase_tools planning =
    codes "planner" ∷ codes "task_tool" ∷ codes "category_insight" ∷ codes "chat_fallback" ∷ []
phase_tools searching =
    codes "category_insight"
    ∷ codes "item_search"
    ∷ codes "recall"
    ∷ codes "task_tool"
    ∷ codes "web_search"
    ∷ []
phase_tools comparing =
    codes "item_search"
    ∷ codes "recall"
    ∷ codes "price_compare"
    ∷ codes "shipping_calc"
    ∷ codes "category_insight"
    ∷ []
phase_tools concluding = codes "item_picker" ∷ codes "shopping_summary" ∷ codes "chat_fallback" ∷ []

-- `_phase_var` and `_history_var`
pub record PhaseState : Type 0 where
  pub phase : Phase
  pub history : List Text

-- `reset`
abbrev pub reset : PhaseState
reset = record { phase = planning; history = [] }

-- `is_tool_allowed`
unfoldable pub is_tool_allowed : Text → PhaseState → Bool
unfolding phase_tools text_mem
is_tool_allowed tool state = text_mem tool (phase_tools state.phase)

unfoldable pub observed_phase : Text → Phase → Phase
unfolding text_eq
observed_phase tool current =
    if text_eq tool (codes "planner")
    then searching
    else if text_eq tool (codes "recall")
    then comparing
    else if text_eq tool (codes "shipping_calc")
    then concluding
    else current

-- `observe_tool`
unfoldable pub observe_tool : Text → PhaseState → PhaseState
unfolding observed_phase
observe_tool tool state = record {
  phase = observed_phase tool state.phase;
  history = last_n 32 (state.history ++ tool ∷ []);
}

pub data Signal : Type 0 where
  planner_output_ready candidates_available picks_ready search_more : Signal

-- The table of `transition`.
abbrev pub target_of : Phase → Signal → Option Phase
target_of planning planner_output_ready = some searching
target_of searching candidates_available = some comparing
target_of comparing picks_ready = some concluding
target_of comparing search_more = some searching
target_of _ _ = none

abbrev pub moved : Option Phase → PhaseState → PhaseState × Bool
moved none state = (state, false)
moved (some phase) state = (record state { phase = phase }, true)

-- `transition`
unfoldable pub transition : Signal → PhaseState → PhaseState × Bool
transition signal state = moved (target_of state.phase signal) state

-- A call of `_call_tool`, with whether the tool itself and the checks beside the phase succeed; or the
-- signal of a task that starts from a stored plan.
pub data Step : Type 0 where
  call : Text → Bool → Step
  planned : Step

-- The calls that were carried out, and the phases.
pub record Session : Type 0 where
  pub state : PhaseState
  pub log : List Text

-- The hook `phase_permission` rejects, or the tool is called and then observed.
abbrev pub call_tool : Text → Bool → Session → Session
call_tool tool false s = s
call_tool tool true s = record { state = observe_tool tool s.state; log = s.log ++ tool ∷ [] }

unfoldable pub step : Step → Session → Session
unfolding is_tool_allowed observe_tool transition
step (call tool succeeds) s = if is_tool_allowed tool s.state then call_tool tool succeeds s else s
step planned s = record s { state = (transition planner_output_ready s.state).0 }

unfoldable pub run : List Step → Session → Session
unfolding step
run [] s = s
run (a ∷ rest) s = run rest (step a s)

abbrev pub started : Session
started = record { state = reset; log = [] }
