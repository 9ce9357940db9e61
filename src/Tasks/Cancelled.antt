-- ===== src/Tasks/Cancelled.antt =====
-- app/api/server.py, `cancel_task`: it keeps every invariant that is closed under what it does.
use shopping_agent.Common.{
  ◌≡◌, refl, Bool, true, false, not, ◌||◌, Bool-cases, inl, inr, Option, none, some, Text,
}
use shopping_agent.Tasks.{
  Status, TaskSnapshot, TaskRecord, Worker, Failure, Result, ok, raised, is_deleted,
}
use shopping_agent.Tasks.Timeline.{Emission}
use shopping_agent.Tasks.Timeline.Contract.{Holds}
use shopping_agent.Tasks.Timeline.Recorded.{Accepted, record_event-Accepted}
use shopping_agent.Tasks.Access.{Principal, Reply, done, refused}
use shopping_agent.Tasks.Commands.{
  read_persisted, is_free, Loaded, found, missing, unreadable, load_snapshot, is_running,
}
use shopping_agent.Tasks.Lifecycle.{Server}
use shopping_agent.Tasks.Cancellation.{
  Cancellation, is_awaiting, cancelled_event, run_ended, emitted, emit_cancelled, authorized_emit,
  cancel_stored, told, cancel_loaded, cancel_held, told_loaded, emitted_late, cancel_awaited,
  cancel_run, cancel_authorized, cancel_unless, cancel_entry, cancel_task,
}
use shopping_agent.Tasks.Reading.{FoundOn, load_found-FoundOn}
use shopping_agent.Tasks.Closed.{IsClosed, unlocked-I, adopt-I, relocked-I, end_run-I}

module _ (normalize : Text → Text → Option Text) (c : Cancellation) (I : Worker → Type 0)
    (closed : IsClosed normalize I) where
  emitted-I :
      (srv : Server) (e : Emission) (m : Result Worker)
      → Holds (Accepted normalize e srv.worker) m
      → I srv.worker
      → I (emitted normalize c srv m).1.worker
  emitted-I srv e (ok next) a i =
      unlocked-I normalize I closed next (closed.emits e srv.worker next i a)
  emitted-I srv e (raised why) a i = unlocked-I normalize I closed srv.worker i

  emit-I :
      (run_id : Text) (srv : Server)
      → I srv.worker
      → I (emit_cancelled normalize c run_id srv).1.worker
  emit-I run_id srv i =
      emitted-I srv (cancelled_event c.now c.writable run_id) _
        (record_event-Accepted normalize _ srv.worker) i

  authorized_emit-I :
      (s : TaskSnapshot) (srv : Server) (reply : Reply (Option Principal))
      → I srv.worker
      → I (authorized_emit normalize c s srv reply).1.worker
  authorized_emit-I s srv (refused why) i = i
  authorized_emit-I s srv (done p) i = emit-I s.run_id srv i

  stored-I :
      (s : TaskSnapshot) (srv : Server)
      → srv.worker.disk.task_json ≡ some s
      → I srv.worker
      → I (cancel_stored normalize c s srv).1.worker
  stored-I s srv h i = elim (Bool-cases (is_free srv.worker.disk.owner)) [
    | inl free ↦ rw free (authorized_emit-I s _ _ (adopt-I normalize I closed s srv.worker h i))
    | inr held ↦ rw held i
  ]

  told-I :
      (status : Status) (srv : Server) (reply : Reply (Option Principal))
      → I srv.worker
      → I (told normalize c status srv reply).1.worker
  told-I status srv (refused why) i = i
  told-I status srv (done p) i = i

  loaded-I :
      (loaded : Loaded) (srv : Server)
      → FoundOn loaded srv.worker.disk
      → I srv.worker
      → I (cancel_loaded normalize c loaded srv).1.worker
  loaded-I missing srv h i = i
  loaded-I unreadable srv h i = i
  loaded-I (found s) srv h i = elim (Bool-cases (is_awaiting s.status)) [
    | inl awaiting ↦ rw awaiting (stored-I s srv h i)
    | inr other ↦ elim (Bool-cases (is_running s.status)) [
      | inl running ↦ rw (other, running) i
      | inr ended ↦ rw (other, ended) (told-I s.status srv _ i)
    ]
  ]

  held-I :
      (handle : Bool) (r : TaskRecord) (srv : Server)
      → srv.worker.entry ≡ some r
      → I srv.worker
      → I (cancel_held normalize c handle r srv).1.worker
  held-I true r srv h i = emit-I r.run_id srv i
  held-I false r srv h i = elim (Bool-cases (is_free srv.worker.disk.owner)) [
    | inl free ↦ rw free (emit-I r.run_id _ (relocked-I normalize I closed r srv.worker h i))
    | inr held ↦ rw held i
  ]

  told_loaded-I :
      (loaded : Loaded) (srv : Server)
      → I srv.worker
      → I (told_loaded normalize c loaded srv).1.worker
  told_loaded-I (found s) srv i = i
  told_loaded-I missing srv i = i
  told_loaded-I unreadable srv i = i

  late-I :
      (srv : Server) (e : Emission) (m : Result Worker)
      → Holds (Accepted normalize e srv.worker) m
      → I srv.worker
      → I (emitted_late normalize c srv m).1.worker
  late-I srv e (ok next) a i = closed.emits e srv.worker next i a
  late-I srv e (raised why) a i = i

  awaited-I :
      (entry : Option TaskRecord) (srv : Server)
      → I srv.worker
      → I (cancel_awaited normalize c entry srv).1.worker
  unfolding load_snapshot
  awaited-I none srv i = told_loaded-I _ _ (closed.loads c.now c.writable srv.worker i)
  awaited-I (some r) srv i = elim (Bool-cases (is_running r.snapshot.status)) [
    | inl running ↦ rw running (
        late-I srv (cancelled_event c.now c.writable r.run_id) _
          (record_event-Accepted normalize _ srv.worker) i)
    | inr ended ↦ rw ended i
  ]

  run_ended-I :
      (e : Emission) (w : Worker) (m : Result Worker)
      → Holds (Accepted normalize e w) m
      → I w
      → I (run_ended w m)
  run_ended-I e w (ok next) a i =
      end_run-I normalize I closed next.entry next refl (closed.emits e w next i a)
  run_ended-I e w (raised Failure.not_persisted) a i =
      closed.drop _ (unlocked-I normalize I closed w i)
  run_ended-I e w (raised _) a i = end_run-I normalize I closed w.entry w refl i

  run-I : (r : TaskRecord) (srv : Server) → I srv.worker → I (cancel_run normalize c r srv).1.worker
  run-I r srv i = awaited-I _ _ (
      run_ended-I (cancelled_event c.now c.run_writable r.run_id) srv.worker _
        (record_event-Accepted normalize _ srv.worker) i)

  authorized-I :
      (r : TaskRecord) (srv : Server) (reply : Reply (Option Principal))
      → srv.worker.entry ≡ some r
      → I srv.worker
      → I (cancel_authorized normalize c r srv reply).1.worker
  authorized-I r srv (refused why) h i = i
  authorized-I r srv (done p) h i = elim (Bool-cases (is_awaiting r.snapshot.status)) [
    | inl awaiting ↦ rw awaiting (held-I r.owner_handle r srv h i)
    | inr other ↦ elim (Bool-cases (not (is_running r.snapshot.status) || r.task_done)) [
      | inl over ↦ rw (other, over) i
      | inr runs ↦ rw (other, runs) (run-I r srv i)
    ]
  ]

  unless-I :
      (deleting : Bool) (r : TaskRecord) (srv : Server)
      → srv.worker.entry ≡ some r
      → I srv.worker
      → I (cancel_unless normalize c deleting r srv).1.worker
  unless-I true r srv h i = i
  unless-I false r srv h i = authorized-I r srv _ h i

  entry-I :
      (entry : Option TaskRecord) (srv : Server)
      → srv.worker.entry ≡ entry
      → I srv.worker
      → I (cancel_entry normalize c entry srv).1.worker
  unfolding load_snapshot
  entry-I none srv h i =
      loaded-I _ _
        (load_found-FoundOn c.now c.writable srv.worker.entry (read_persisted srv.worker.disk)
          srv.worker.disk refl)
        (closed.loads c.now c.writable srv.worker i)
  entry-I (some r) srv h i = unless-I r.deleting r srv h i

  pub cancel_task-I : (srv : Server) → I srv.worker → I (cancel_task normalize c srv).1.worker
  unfolding cancel_task
  cancel_task-I srv i = elim (Bool-cases (is_deleted srv.worker.disk)) [
    | inl gone ↦ rw gone i
    | inr live ↦ rw live (entry-I srv.worker.entry srv refl i)
  ]
