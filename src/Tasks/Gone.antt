-- ===== src/Tasks/Gone.antt =====
-- app/api/server.py: what holds of a deleted task, whatever is asked of the server afterwards.
use shopping_agent.Common.{ℕ, ◌≡◌, refl, Bool, inr, Option, some, List, [], ◌∷◌, Text}
use shopping_agent.Tasks.{TaskSnapshot, TaskTombstone, Worker, is_deleted}
use shopping_agent.Tasks.Timeline.{Emission}
use shopping_agent.Tasks.Timeline.Recorded.{Accepted, record_event-Accepted}
use shopping_agent.Tasks.Actions.{
  Action, emit, create, get, delete, cancel, clarify, prune, finish, lose, restart, perform,
  perform_all,
}
use shopping_agent.Tasks.Buried.{
  IsGone, create_as-IsGone, delete_as-IsGone, deleted_by, get_task-IsGone, kept-IsGone,
  live_not_deleted, prune-IsGone,
}
use shopping_agent.Tasks.Closed.{IsClosed, finish_entry-I, stop_entry-I}
use shopping_agent.Tasks.Cancelled.{cancel_task-I}
use shopping_agent.Tasks.Clarified.{clarify_task-I}
use shopping_agent.Tasks.Commands.{load_snapshot}
use shopping_agent.Tasks.Runtime.{Release}
use shopping_agent.Tasks.Access.{Identity, Refusal, refused}
use shopping_agent.Tasks.Commands.{prune_records, get_task}
use shopping_agent.Tasks.Lifecycle.{Server, create_task}
use shopping_agent.Tasks.Deletion.{delete_task}

module _ (t : TaskTombstone) (before : Option TaskSnapshot) where
  load-IsGone :
      (now : ℕ) (writable : Bool) (w : Worker)
      → IsGone t before w.disk
      → IsGone t before (load_snapshot now writable w).1.disk
  unfolding load_snapshot
  load-IsGone now writable w gone = rw (deleted_by t before w.disk gone) gone

  Accepted-IsGone :
      (normalize : Text → Text → Option Text) (e : Emission) (w next : Worker)
      → IsGone t before w.disk
      → Accepted normalize e w next
      → IsGone t before next.disk
  Accepted-IsGone normalize e w next gone a = absurd (
      live_not_deleted a.entry.deleting (is_deleted w.disk) a.live
        (deleted_by t before w.disk gone))

  IsGone-IsClosed :
      (normalize : Text → Text → Option Text) → IsClosed normalize (λ w. IsGone t before w.disk)
  IsGone-IsClosed normalize = record {
    relock = λ w o gone. record { tombstone = gone.tombstone; file = gone.file };
    drop = λ w gone. gone;
    mark = λ w r handle finished held gone. gone;
    adopts = λ w s stored gone. gone;
    loads = load-IsGone;
    emits = Accepted-IsGone normalize;
  }

  module _ (normalize : Text → Text → Option Text) (strip : Text → Text) (release : Release) where
    perform-IsGone :
        (a : Action) (srv : Server)
        → IsGone t before srv.worker.disk
        → IsGone t before (perform normalize strip release a srv).worker.disk
    unfolding perform prune_records create_task delete_task
    perform-IsGone (emit e) srv gone =
        kept-IsGone t before normalize e srv.worker _ gone
          (record_event-Accepted normalize e srv.worker)
    perform-IsGone (create c) srv gone = create_as-IsGone t before release c srv _ gone
    perform-IsGone (get now writable identity) srv gone =
        rw (get_task-IsGone t before now writable identity srv.worker gone) gone
    perform-IsGone (delete d) srv gone = delete_as-IsGone t before d srv _ gone
    perform-IsGone (cancel c) srv gone =
        cancel_task-I normalize c (λ w. IsGone t before w.disk) (IsGone-IsClosed normalize) srv gone
    perform-IsGone (clarify c) srv gone =
        clarify_task-I normalize strip release c (λ w. IsGone t before w.disk)
          (IsGone-IsClosed normalize) srv gone
    perform-IsGone (prune cutoff) srv gone =
        prune-IsGone t before cutoff srv.worker.entry srv.worker gone
    perform-IsGone finish srv gone =
        finish_entry-I normalize (λ w. IsGone t before w.disk) (IsGone-IsClosed normalize)
          srv.worker.entry srv refl gone
    perform-IsGone lose srv gone =
        stop_entry-I normalize (λ w. IsGone t before w.disk) (IsGone-IsClosed normalize)
          srv.worker.entry srv gone
    perform-IsGone restart srv gone = record { tombstone = gone.tombstone; file = gone.file }

    perform_all-IsGone :
        (rest : List Action) (srv : Server)
        → IsGone t before srv.worker.disk
        → IsGone t before (perform_all normalize strip release rest srv).worker.disk
    unfolding perform_all
    perform_all-IsGone [] srv gone = gone
    perform_all-IsGone (a ∷ rest) srv gone = perform_all-IsGone rest _ (perform-IsGone a srv gone)

-- Once a thread has a tombstone, no sequence of emitted events, creations, reads, deletions, cancellations,
-- clarifications, prunings, ends and losses of a run
-- and restarts of the server takes it away or stores another snapshot (the file is the one from before or is removed), and afterwards every read is refused as not
-- found and changes nothing.
pub perform_all_deleted :
    (normalize : Text → Text → Option Text) (strip : Text → Text) (release : Release)
    (actions : List Action) (srv : Server) (t : TaskTombstone) (now : ℕ) (writable : Bool)
    (identity : Identity)
    → srv.worker.disk.tombstone ≡ some t
    → let after = (perform_all normalize strip release actions srv).worker in
      IsGone t srv.worker.disk.task_json after.disk
      × (get_task now writable identity after ≡ (refused Refusal.task_not_found, after))
perform_all_deleted normalize strip release actions srv t now writable identity marked =
    let gone =
      perform_all-IsGone t srv.worker.disk.task_json normalize strip release actions srv
        (record { tombstone = marked; file = inr refl }) in
    (gone, get_task-IsGone t srv.worker.disk.task_json now writable identity _ gone)
