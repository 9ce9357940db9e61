-- ===== src/Agent/Guard.antt =====
-- app/agent/guard.py: the limits on tool calls. The arguments of a call are given as `_stable_args`
-- renders them; the context variable is the state.
mod Limits
mod Examples
use shopping_agent.Common.{
  ℕ, ◌+◌, ◌≡◌, Bool, true, false, ◌&&◌, List, [], ◌∷◌, ◌++◌, Text, text_eq, count_if, leb,
  if◌then◌else◌,
}

-- The name of a tool and its rendered arguments.
abbrev pub Key : Type 0
Key = Text × Text

abbrev pub same_key : Key → Key → Bool
same_key a b = text_eq a.0 b.0 && text_eq a.1 b.1

-- `ToolGuardState`
pub record ToolGuardState : Type 0 where
  pub total_calls : ℕ
  pub calls : List Key

-- `reset_tool_guard`
abbrev pub unused : ToolGuardState
unused = record { total_calls = 0; calls = [] }

-- `agent_max_tool_calls` and `agent_loop_detection_threshold`.
pub record Policy : Type 0 where
  pub max_tool_calls : ℕ
  pub loop_threshold : ℕ

-- The new state, or the code of the AgentLoopGuardError.
pub data Verdict : Type 0 where
  recorded : ToolGuardState → Verdict
  tool_call_limit loop_detected : Verdict

module _ (policy : Policy) where
  unfoldable pub record_tool_call : Key → ToolGuardState → Verdict
  record_tool_call key state =
      let same_calls = count_if (same_key key) state.calls in
      if leb policy.max_tool_calls state.total_calls
      then tool_call_limit
      else if leb policy.loop_threshold same_calls
      then loop_detected
      else recorded
          (record { total_calls = state.total_calls + 1; calls = state.calls ++ key ∷ [] })

  -- An error leaves the stored state.
  abbrev pub stored : Verdict → ToolGuardState → ToolGuardState
  stored (recorded next) state = next
  stored tool_call_limit state = state
  stored loop_detected state = state

  -- The calls that a model asks for, one after the other.
  unfoldable pub record_all : List Key → ToolGuardState → ToolGuardState
  unfolding record_tool_call
  record_all [] state = state
  record_all (key ∷ keys) state = record_all keys (stored (record_tool_call key state) state)
