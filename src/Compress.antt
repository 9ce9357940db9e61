-- ===== src/Compress.antt =====
-- app/compress/breakpoint.py: the stable prefix of a conversation and the bound on tool results after it.
mod Prefix
mod Bounded
mod Examples
use shopping_agent.Common.{
  ℕ, zero, suc, ◌+◌, ◌-◌, min, ◌≡◌, Bool, true, false, not, ◌||◌, Option, none, some, List, [], ◌∷◌,
  ◌++◌, map, Text, codes, text_eq, length, take, drop, leb, if◌then◌else◌,
}

-- A ContextMessage, a dictionary, or another object.
pub data Shape : Type 0 where
  context_message dictionary foreign : Shape

-- A message by `_message_role` and `_message_content`.
pub record Message : Type 0 where
  pub shape : Shape
  pub role : Text
  pub content : Text

abbrev pub is_tool : Message → Bool
unfolding text_eq
is_tool m = text_eq m.role (codes "tool")

unfoldable pub tool_indices : ℕ → List Message → List ℕ
unfolding text_eq
tool_indices i [] = []
tool_indices i (m ∷ ms) = let rest = tool_indices (i + 1) ms in if is_tool m then i ∷ rest else rest

unfoldable pub nth : ℕ → List ℕ → Option ℕ
nth n [] = none
nth zero (i ∷ is) = some i
nth (suc n) (i ∷ is) = nth n is

-- `none` is the ValueError of a window that is not positive.
unfoldable pub compute_breakpoint : List Message → ℕ → Option ℕ
unfolding tool_indices nth
compute_breakpoint messages zero = none
compute_breakpoint messages (suc k) =
    let indices = tool_indices 0 messages in
    if leb (length indices) (suc k)
    then some (length messages)
    else nth (length indices - suc k) indices

abbrev pub suffix : Text
suffix = 10 ∷ codes "[...工具结果已精简]"

abbrev pub bounded : ℕ → Text → Text
bounded max_tool_chars content = take (max_tool_chars - length suffix) content ++ suffix

abbrev pub rewritten : ℕ → Shape → Message → Message
rewritten max_tool_chars foreign m = m
rewritten max_tool_chars context_message m = record m { content = bounded max_tool_chars m.content }
rewritten max_tool_chars dictionary m = record m { content = bounded max_tool_chars m.content }

unfoldable pub compress_message : ℕ → Message → Message
unfolding text_eq
compress_message max_tool_chars m =
    if not (is_tool m) || leb (length m.content) max_tool_chars
    then m
    else rewritten max_tool_chars m.shape m

-- A breakpoint is an index, so it is not negative.
unfoldable pub compress_after_breakpoint : List Message → ℕ → ℕ → Option (List Message)
unfolding compress_message
compress_after_breakpoint messages breakpoint zero = none
compress_after_breakpoint messages breakpoint (suc n) =
    let boundary = min (length messages) breakpoint in
    some (take boundary messages ++ map (compress_message (suc n)) (drop boundary messages))
