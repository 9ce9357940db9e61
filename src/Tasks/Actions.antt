-- ===== src/Tasks/Actions.antt =====
-- app/api/server.py: any sequence of what can happen to one thread of the registry.
use shopping_agent.Common.{ℕ, Bool, true, false, Option, none, some, List, [], ◌∷◌, Text}
use shopping_agent.Tasks.{Owner, TaskRecord, Worker}
use shopping_agent.Tasks.Timeline.{Emission, record_event, kept}
use shopping_agent.Tasks.Runtime.{Release, finish_task}
use shopping_agent.Tasks.Access.{Identity}
use shopping_agent.Tasks.Commands.{prune_records, get_task}
use shopping_agent.Tasks.Lifecycle.{Server, Creation, create_task, stop_previous}
use shopping_agent.Tasks.Deletion.{Deletion, delete_task}
use shopping_agent.Tasks.Cancellation.{Cancellation, cancel_task, end_run}
use shopping_agent.Tasks.Clarification.{Clarification, clarify_task}

-- What can happen to a thread. A run finishes, or is lost where its timeline cannot be written. A restart forgets the record and, its process gone, the owner lock.
pub data Action : Type 0 where
  emit : Emission → Action
  create : Creation → Action
  get : ℕ → Bool → Identity → Action
  delete : Deletion → Action
  cancel : Cancellation → Action
  clarify : Clarification → Action
  prune : ℕ → Action
  finish : Action
  lose : Action
  restart : Action

-- `_execute` ends, which releases the lock, and its callback counts the task off; a task that is done has
-- no run.
abbrev pub finished_unless : Bool → TaskRecord → Server → Server
finished_unless true r srv = srv
finished_unless false r srv = record {
  worker = end_run (some r) srv.worker;
  control = finish_task srv.control;
}

abbrev pub finish_entry : Option TaskRecord → Server → Server
finish_entry none srv = srv
finish_entry (some r) srv = finished_unless r.task_done r srv

abbrev pub restarted : Worker → Worker
restarted w = record { disk = record w.disk { owner = Owner.free }; entry = none }

module _ (normalize : Text → Text → Option Text) (strip : Text → Text) (release : Release) where
  unfoldable pub perform : Action → Server → Server
  unfolding record_event create_task get_task delete_task cancel_task clarify_task prune_records
      finish_task
  perform (emit e) srv = record srv {
    worker = kept srv.worker (record_event normalize e srv.worker);
  }
  perform (create c) srv = (create_task release c srv).1
  perform (get now writable identity) srv = record srv {
    worker = (get_task now writable identity srv.worker).1;
  }
  perform (delete d) srv = (delete_task d srv).1
  perform (cancel c) srv = (cancel_task normalize c srv).1
  perform (clarify c) srv = (clarify_task normalize strip release c srv).1
  perform (prune cutoff) srv = record srv { worker = prune_records cutoff srv.worker }
  perform finish srv = finish_entry srv.worker.entry srv
  perform lose srv = stop_previous srv
  perform restart srv = record srv { worker = restarted srv.worker }

  unfoldable pub perform_all : List Action → Server → Server
  unfolding perform
  perform_all [] srv = srv
  perform_all (a ∷ rest) srv = perform_all rest (perform a srv)
