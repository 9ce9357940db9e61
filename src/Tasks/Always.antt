-- ===== src/Tasks/Always.antt =====
-- app/api/server.py: the timelines of a thread after any sequence of actions.
use shopping_agent.Common.{
  ℕ, refl, Bool, Bool-cases, inl, inr, Option, none, some, List, [], ◌∷◌, Text,
}
use shopping_agent.Tasks.{TaskRecord, Worker, is_deleted}
use shopping_agent.Tasks.Timeline.Recorded.{record_event-Accepted}
use shopping_agent.Tasks.Runtime.{Release}
use shopping_agent.Tasks.Access.{Identity}
use shopping_agent.Tasks.Commands.{get_task, get_record, prune_records}
use shopping_agent.Tasks.Lifecycle.{Server, create_task}
use shopping_agent.Tasks.Deletion.{delete_task}
use shopping_agent.Tasks.Closed.{finish_entry-I, stop_entry-I}
use shopping_agent.Tasks.Cancelled.{cancel_task-I}
use shopping_agent.Tasks.Clarified.{clarify_task-I}
use shopping_agent.Tasks.Actions.{
  Action, emit, create, get, delete, cancel, clarify, prune, finish, lose, restart, perform,
  perform_all,
}
use shopping_agent.Tasks.Sound.{IsSound, unrecorded-IsSound, load-IsSound, IsSound-IsClosed}
use shopping_agent.Tasks.Kept.{kept-IsSound, prune-IsSound, create_as-After, delete_as-After}

get_record-IsSound :
    (now : ℕ) (writable : Bool) (identity : Identity) (entry : Option TaskRecord) (w : Worker)
    → IsSound w
    → IsSound (get_record now writable identity entry w).1
get_record-IsSound now writable identity none w sound = load-IsSound now writable w sound
get_record-IsSound now writable identity (some r) w sound = sound

get_task-IsSound :
    (now : ℕ) (writable : Bool) (identity : Identity) (w : Worker)
    → IsSound w
    → IsSound (get_task now writable identity w).1
unfolding get_task
get_task-IsSound now writable identity w sound = elim (Bool-cases (is_deleted w.disk)) [
  | inl gone ↦ rw gone sound
  | inr live ↦ rw live (get_record-IsSound now writable identity w.entry w sound)
]

module _ (normalize : Text → Text → Option Text) (strip : Text → Text) (release : Release) where
  perform-IsSound :
      (a : Action) (srv : Server)
      → IsSound srv.worker
      → IsSound (perform normalize strip release a srv).worker
  unfolding perform create_task delete_task prune_records
  perform-IsSound (emit e) srv sound =
      kept-IsSound normalize e srv.worker _ sound (record_event-Accepted normalize e srv.worker)
  perform-IsSound (create c) srv sound = create_as-After release c srv _ sound
  perform-IsSound (get now writable identity) srv sound =
      get_task-IsSound now writable identity srv.worker sound
  perform-IsSound (delete d) srv sound = delete_as-After d srv _ sound
  perform-IsSound (cancel c) srv sound =
      cancel_task-I normalize c IsSound (IsSound-IsClosed normalize) srv sound
  perform-IsSound (clarify c) srv sound =
      clarify_task-I normalize strip release c IsSound (IsSound-IsClosed normalize) srv sound
  perform-IsSound (prune cutoff) srv sound = prune-IsSound cutoff srv.worker.entry srv.worker sound
  perform-IsSound finish srv sound =
      finish_entry-I normalize IsSound (IsSound-IsClosed normalize) srv.worker.entry srv refl sound
  perform-IsSound lose srv sound =
      stop_entry-I normalize IsSound (IsSound-IsClosed normalize) srv.worker.entry srv sound
  perform-IsSound restart srv sound = unrecorded-IsSound _ sound.file

-- From a thread whose file and record are timelines, an unused one for example, whatever events are
-- emitted, whatever is asked of the server, and whenever a run ends or is lost or the server is restarted, whichever of it is refused or
-- cannot be written: the file and the record are timelines (the events are numbered from 1 without
-- a gap, end the task at most once, and give the status when they are replayed; a prompt, a result
-- and an error code are there exactly in the status for each), and the record is the file's unless
-- the task is deleted.
pub perform_all-IsSound :
    (normalize : Text → Text → Option Text) (strip : Text → Text) (release : Release)
    (actions : List Action) (srv : Server)
    → IsSound srv.worker
    → IsSound (perform_all normalize strip release actions srv).worker
unfolding perform_all
perform_all-IsSound normalize strip release [] srv sound = sound
perform_all-IsSound normalize strip release (a ∷ rest) srv sound =
    perform_all-IsSound normalize strip release rest _
      (perform-IsSound normalize strip release a srv sound)
