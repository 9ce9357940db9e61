-- ===== src/Tasks/Gate.antt =====
-- app/runtime.py: the gate that counts a task and the one that only answers.
use shopping_agent.Common.{ℕ, ◌≡◌, Bool, true, false, arith}
use shopping_agent.Tasks.Runtime.{Release, RuntimeControl, Begun, begun, selected_for, begin_task}

abbrev pub is_begun : Begun → Bool
is_begun (begun control) = true
is_begun _ = false

-- `begin_task` takes a task exactly if `selected_for` selects its request.
pub begin_task-selected_for :
    (release : Release) (bucket : ℕ) (control : RuntimeControl)
    → is_begun (begin_task release bucket control) ≡ selected_for release bucket control
unfolding begin_task selected_for
begin_task-selected_for release bucket control = ground arith
