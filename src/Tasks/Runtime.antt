-- ===== src/Tasks/Runtime.antt =====
-- app/runtime.py: the release gate of a worker and its count of running tasks. The bucket of a request,
-- a hash of its id modulo 100, is an argument.
use shopping_agent.Common.{
  ℕ, ◌+◌, ◌-◌, ◌==◌, Bool, true, false, not, ◌&&◌, ◌||◌, leb, ltb, if◌then◌else◌,
}

pub data Channel : Type 0 where
  stable canary : Channel

abbrev pub is_canary : Channel → Bool
is_canary stable = false
is_canary canary = true

-- The `release_` settings.
pub record Release : Type 0 where
  pub channel : Channel
  pub traffic_percent : ℕ
  pub rollback : Bool

-- `RuntimeControl`; `idle` is whether its idle events are set.
pub record RuntimeControl : Type 0 where
  pub draining : Bool
  pub active_tasks : ℕ
  pub idle : Bool

pub data Begun : Type 0 where
  begun : RuntimeControl → Begun
  rollback worker_draining not_selected : Begun

-- `selected_for`
unfoldable pub selected_for : Release → ℕ → RuntimeControl → Bool
selected_for release bucket control =
    if release.rollback || control.draining
    then false
    else if not (is_canary release.channel) || leb 100 release.traffic_percent
    then true
    else ltb bucket release.traffic_percent

-- `begin_task`
unfoldable pub begin_task : Release → ℕ → RuntimeControl → Begun
begin_task release bucket control =
    if release.rollback
    then rollback
    else if control.draining
    then worker_draining
    else if (is_canary release.channel && ltb release.traffic_percent 100)
        && leb release.traffic_percent bucket
    then not_selected
    else begun (record control { active_tasks = control.active_tasks + 1; idle = false })

-- `finish_task`
unfoldable pub finish_task : RuntimeControl → RuntimeControl
finish_task control = record control {
  active_tasks = control.active_tasks - 1;
  idle = if control.active_tasks - 1 == 0 then true else control.idle;
}
