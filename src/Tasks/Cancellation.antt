-- ===== src/Tasks/Cancellation.antt =====
-- app/api/server.py: the endpoint that cancels a task. The lock of the thread id is held and the id is
-- well formed. A run that is cancelled reaches its handler, as `_execute_task` and `_execute` end it.
use shopping_agent.Common.{
  ℕ, Bool, true, false, not, ◌||◌, Option, none, some, Text, codes, if◌then◌else◌,
}
use shopping_agent.Tasks.{
  Status, EventName, Payload, TaskSnapshot, TaskRecord, Worker, Failure, Result, ok, raised,
  is_deleted,
}
use shopping_agent.Tasks.Timeline.{Emission, record_event}
use shopping_agent.Tasks.Runtime.{finish_task}
use shopping_agent.Tasks.Access.{
  Principal, Identity, Refusal, Reply, done, refused, authorize_snapshot,
}
use shopping_agent.Tasks.Commands.{
  release_owner, is_free, Loaded, found, missing, unreadable, load_snapshot, is_running,
}
use shopping_agent.Tasks.Lifecycle.{Server, owned}

-- The request, and whether the file can be written by the run's handler and by the endpoint.
pub record Cancellation : Type 0 where
  pub identity : Identity
  pub now : ℕ
  pub run_writable : Bool
  pub writable : Bool

abbrev pub is_awaiting : Status → Bool
is_awaiting Status.awaiting_clarification = true
is_awaiting _ = false

abbrev pub cancelled_event : ℕ → Bool → Text → Emission
cancelled_event now writable run_id = record {
  event = EventName.task_cancelled;
  message = codes "购物任务已取消";
  data_of = Payload.details (codes "thread_id");
  timestamp = now;
  emitted_run_id = some run_id;
  valid = true;
  reports_ready = false;
  writable = writable;
}

abbrev pub unlock : Option TaskRecord → Worker → Worker
unlock none w = w
unlock (some r) w = record {
  disk = release_owner r.owner_handle w.disk;
  entry = some (record r { owner_handle = false });
}

-- The record of the entry without its owner handle, which is released.
abbrev pub unlocked : Worker → Worker
unlocked w = unlock w.entry w

-- The record of a snapshot that was read: its task is the request's own.
abbrev pub adopted : TaskSnapshot → TaskRecord
adopted s = record {
  run_id = s.run_id;
  snapshot = s;
  owner_handle = true;
  task_done = true;
  deleting = false;
}

abbrev pub adopt : TaskSnapshot → Worker → Worker
adopt s w = record { disk = owned w.disk; entry = some (adopted s) }

-- `record.task` is done after its cancellation, and its lock is released.
abbrev pub end_run : Option TaskRecord → Worker → Worker
end_run none w = w
end_run (some r) w = record {
  disk = release_owner r.owner_handle w.disk;
  entry = some (record r { owner_handle = false; task_done = true });
}

-- `_execute` when the handler's event was recorded, or could not be written; it is not refused
-- otherwise, the task being the running one.
abbrev pub run_ended : Worker → Result Worker → Worker
run_ended w (ok next) = end_run next.entry next
run_ended w (raised Failure.not_persisted) = record { disk = (unlocked w).disk; entry = none }
run_ended w (raised _) = end_run w.entry w

module _ (normalize_response : Text → Text → Option Text) (c : Cancellation) where
  -- The emission between taking the lock and releasing it.
  abbrev pub emitted : Server → Result Worker → Reply Status × Server
  emitted srv (ok next) = (done Status.cancelled, record srv { worker = unlocked next })
  emitted srv (raised why) =
      (refused Refusal.recording_failed, record srv { worker = unlocked srv.worker })

  abbrev pub emit_cancelled : Text → Server → Reply Status × Server
  emit_cancelled run_id srv =
      emitted srv
        (record_event normalize_response (cancelled_event c.now c.writable run_id) srv.worker)

  abbrev pub authorized_emit :
      TaskSnapshot → Server → Reply (Option Principal) → Reply Status × Server
  authorized_emit s srv (refused why) = (refused why, srv)
  authorized_emit s srv (done principal) = emit_cancelled s.run_id srv

  -- A stored task that awaits a clarification: the record is there before the authorization.
  abbrev pub cancel_stored : TaskSnapshot → Server → Reply Status × Server
  cancel_stored s srv =
      if is_free srv.worker.disk.owner
      then authorized_emit s (record srv { worker = adopt s srv.worker })
          (authorize_snapshot s c.identity none)
      else (refused Refusal.task_active_elsewhere, srv)

  abbrev pub told : Status → Server → Reply (Option Principal) → Reply Status × Server
  told status srv (refused why) = (refused why, srv)
  told status srv (done principal) = (done status, srv)

  abbrev pub cancel_loaded : Loaded → Server → Reply Status × Server
  cancel_loaded missing srv = (refused Refusal.task_not_found, srv)
  cancel_loaded unreadable srv = (refused Refusal.storage_failed, srv)
  cancel_loaded (found s) srv =
      if is_awaiting s.status
      then cancel_stored s srv
      else if is_running s.status
      then (refused Refusal.task_active_elsewhere, srv)
      else told s.status srv (authorize_snapshot s c.identity none)

  -- The handle of the record, or a new one.
  abbrev pub cancel_held : Bool → TaskRecord → Server → Reply Status × Server
  cancel_held true r srv = emit_cancelled r.run_id srv
  cancel_held false r srv =
      if is_free srv.worker.disk.owner
      then emit_cancelled r.run_id (record srv {
        worker = record {
          disk = owned srv.worker.disk;
          entry = some (record r { owner_handle = true });
        };
      })
      else (refused Refusal.task_active_elsewhere, srv)

  abbrev pub cancel_awaiting : TaskRecord → Server → Reply Status × Server
  cancel_awaiting r srv = cancel_held r.owner_handle r srv

  abbrev pub told_loaded : Loaded → Server → Reply Status × Server
  told_loaded (found s) srv = (done s.status, srv)
  told_loaded missing srv = (refused Refusal.task_state_unavailable, srv)
  told_loaded unreadable srv = (refused Refusal.storage_failed, srv)

  abbrev pub loaded_after : Server → Loaded × Worker → Reply Status × Server
  loaded_after srv (loaded, w) = told_loaded loaded (record srv { worker = w })

  abbrev pub emitted_late : Server → Result Worker → Reply Status × Server
  emitted_late srv (ok next) = (done Status.cancelled, record srv { worker = next })
  emitted_late srv (raised why) = (refused Refusal.recording_failed, srv)

  abbrev pub cancel_again : TaskRecord → Server → Reply Status × Server
  cancel_again r srv =
      if is_running r.snapshot.status
      then emitted_late srv
          (record_event normalize_response (cancelled_event c.now c.writable r.run_id) srv.worker)
      else (done r.snapshot.status, srv)

  -- After the cancelled run was awaited.
  abbrev pub cancel_awaited : Option TaskRecord → Server → Reply Status × Server
  cancel_awaited none srv = loaded_after srv (load_snapshot c.now c.writable srv.worker)
  cancel_awaited (some r) srv = cancel_again r srv

  abbrev pub await_cancelled : Server → Reply Status × Server
  await_cancelled srv = cancel_awaited srv.worker.entry srv

  abbrev pub cancel_run : TaskRecord → Server → Reply Status × Server
  cancel_run r srv = await_cancelled (record {
    worker = run_ended srv.worker (
        record_event normalize_response (cancelled_event c.now c.run_writable r.run_id) srv.worker);
    control = finish_task srv.control;
  })

  abbrev pub cancel_authorized :
      TaskRecord → Server → Reply (Option Principal) → Reply Status × Server
  cancel_authorized r srv (refused why) = (refused why, srv)
  cancel_authorized r srv (done principal) =
      if is_awaiting r.snapshot.status
      then cancel_awaiting r srv
      else if not (is_running r.snapshot.status) || r.task_done
      then (done r.snapshot.status, srv)
      else cancel_run r srv

  abbrev pub cancel_unless : Bool → TaskRecord → Server → Reply Status × Server
  cancel_unless true r srv = (refused Refusal.task_not_found, srv)
  cancel_unless false r srv =
      cancel_authorized r srv (authorize_snapshot r.snapshot c.identity none)

  abbrev pub cancel_record : TaskRecord → Server → Reply Status × Server
  cancel_record r srv = cancel_unless r.deleting r srv

  abbrev pub cancel_found : Server → Loaded × Worker → Reply Status × Server
  cancel_found srv (loaded, w) = cancel_loaded loaded (record srv { worker = w })

  abbrev pub cancel_entry : Option TaskRecord → Server → Reply Status × Server
  cancel_entry none srv = cancel_found srv (load_snapshot c.now c.writable srv.worker)
  cancel_entry (some r) srv = cancel_record r srv

  -- `cancel_task`
  unfoldable pub cancel_task : Server → Reply Status × Server
  unfolding record_event load_snapshot authorize_snapshot finish_task
  cancel_task srv =
      if is_deleted srv.worker.disk
      then (refused Refusal.task_not_found, srv)
      else cancel_entry srv.worker.entry srv
