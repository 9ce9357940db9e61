-- ===== src/Tasks/Clarification.antt =====
-- app/api/server.py: the answer to a clarification, which resumes the task. The locks of the thread id and
-- of its commands are held, and the id is well formed. `strip` is Python's.
use shopping_agent.Common.{
  ℕ, Bool, true, false, ◌&&◌, Option, none, some, List, [], ◌∷◌, ◌++◌, Text, codes, text_eq,
  if◌then◌else◌,
}
use shopping_agent.Tasks.{
  EventName, ClarificationPrompt, Payload, MonitorEvent, TaskSnapshot, TaskRecord, Worker, Result,
  ok, raised,
}
use shopping_agent.Tasks.Timeline.{Emission, or_else, record_event}
use shopping_agent.Tasks.Runtime.{Release, Begun, begun, begin_task}
use shopping_agent.Tasks.Access.{
  Principal, Identity, Refusal, Reply, done, refused, authorize_snapshot,
}
use shopping_agent.Tasks.Commands.{is_free, read_persisted}
use shopping_agent.Tasks.Lifecycle.{Server, owned}
use shopping_agent.Tasks.Cancellation.{is_awaiting, adopt, unlocked}

-- The command, the bucket of the run's id and whether the file can be written.
pub record Clarification : Type 0 where
  pub response : Text
  pub identity : Identity
  pub now : ℕ
  pub bucket : ℕ
  pub writable : Bool

-- `ClarificationCommandResponse`
pub record Answered : Type 0 where
  pub field : Text
  pub idempotent : Bool

abbrev pub same_answer : Option Text → Option Text → Bool
same_answer (some a) (some b) = text_eq a b
same_answer _ _ = false

abbrev pub concerns : Option Text → Text → Bool
concerns none field = true
concerns (some wanted) field = text_eq field wanted

abbrev pub first_of : Option Text → Option Text → Option Text
first_of none later = later
first_of (some t) later = some t

-- The answer is read, and the record of the entry; `created` is whether it was made here.
abbrev pub resolved_event : Clarification → Text → ClarificationPrompt → Text → Emission
resolved_event c run_id pending value = record {
  event = EventName.clarification_resolved;
  message = codes "已补充" ++ (pending.field ++ codes "信息，继续研究");
  data_of = Payload.answer pending.field c.response (some value);
  timestamp = c.now;
  emitted_run_id = some run_id;
  valid = true;
  reports_ready = false;
  writable = c.writable;
}

abbrev pub abandoned_answer : Bool → Worker → Worker
abandoned_answer true w = record { disk = (unlocked w).disk; entry = none }
abandoned_answer false w = unlocked w

abbrev pub resume_entry : Option TaskRecord → Worker → Worker
resume_entry none w = w
resume_entry (some r) w = record w { entry = some (record r { task_done = false }) }

-- The record of the task that goes on.
abbrev pub resumed : Worker → Worker
resumed w = resume_entry w.entry w

abbrev pub snapshot_of : Option TaskRecord → Option TaskSnapshot
snapshot_of none = none
snapshot_of (some r) = some r.snapshot

abbrev pub or_entry : Option TaskSnapshot → Option TaskRecord → Option TaskSnapshot
or_entry none entry = snapshot_of entry
or_entry (some s) entry = some s

-- The stored snapshot, or else the record's.
abbrev pub known : Worker → Option TaskSnapshot
known w = or_entry (read_persisted w.disk) w.entry

module _ (normalize_response : Text → Text → Option Text) (strip : Text → Text) (release : Release)
    (c : Clarification) where
  -- The field, if the event is the recorded answer with this value.
  abbrev pub answered_by : Option Text → MonitorEvent → Option Text
  answered_by wanted event = elim event.data_of [
    | Payload.answer field response value ↦
        if concerns wanted field
          && same_answer (normalize_response field (strip c.response))
              (or_else value (normalize_response field response))
        then some field
        else none
    | _ ↦ none
  ]

  abbrev pub resolved_answer : Option Text → MonitorEvent → Option Text
  resolved_answer wanted event = elim event.event [
    | EventName.clarification_resolved ↦ answered_by wanted event
    | _ ↦ none
  ]

  -- `_is_duplicate_clarification_response`: the last such event.
  abbrev pub duplicate_field : Option Text → List MonitorEvent → Option Text
  duplicate_field wanted [] = none
  duplicate_field wanted (event ∷ events) =
      first_of (duplicate_field wanted events) (resolved_answer wanted event)

  abbrev pub repeated : Refusal → Option Text → Server → Reply Answered × Server
  repeated otherwise none srv = (refused otherwise, srv)
  repeated otherwise (some field) srv = (done (record { field = field; idempotent = true }), srv)

  -- The event is recorded; the task is counted and started, or the attempt is taken back.
  abbrev pub begun_again : Bool → Text → Server → Begun → Reply Answered × Server
  begun_again created field srv (begun control) = (
    done (record { field = field; idempotent = false }),
    record { worker = resumed srv.worker; control = control },
  )
  begun_again created field srv _ = (
    refused Refusal.runtime_not_accepting,
    record srv { worker = abandoned_answer created srv.worker },
  )

  abbrev pub recorded_answer : Bool → Text → Server → Result Worker → Reply Answered × Server
  recorded_answer created field srv (ok next) =
      begun_again created field (record srv { worker = next })
        (begin_task release c.bucket srv.control)
  recorded_answer created field srv (raised why) = (
    refused Refusal.recording_failed,
    record srv { worker = abandoned_answer created srv.worker },
  )

  abbrev pub submit : Bool → Text → ClarificationPrompt → Text → Server → Reply Answered × Server
  submit created run_id pending value srv =
      recorded_answer created pending.field srv
        (record_event normalize_response (resolved_event c run_id pending value) srv.worker)

  -- Without a handle, the lock is taken.
  abbrev pub submit_held :
      Bool → TaskRecord → ClarificationPrompt → Text → Server → Reply Answered × Server
  submit_held true r pending value srv = submit false r.run_id pending value srv
  submit_held false r pending value srv =
      if is_free srv.worker.disk.owner
      then submit false r.run_id pending value (record srv {
        worker = record {
          disk = owned srv.worker.disk;
          entry = some (record r { owner_handle = true });
        };
      })
      else (refused Refusal.task_active_elsewhere, srv)

  -- Without a record, one is made of the snapshot.
  abbrev pub submit_locked :
      Option TaskRecord
      → TaskSnapshot
      → ClarificationPrompt
      → Text
      → Server
      → Reply Answered × Server
  submit_locked none s pending value srv =
      if is_free srv.worker.disk.owner
      then submit true s.run_id pending value (record srv { worker = adopt s srv.worker })
      else (refused Refusal.task_active_elsewhere, srv)
  submit_locked (some r) s pending value srv = submit_held r.owner_handle r pending value srv

  abbrev pub answer_normalized :
      TaskSnapshot → ClarificationPrompt → Option Text → Server → Reply Answered × Server
  answer_normalized s pending none srv = (refused Refusal.clarification_invalid_response, srv)
  answer_normalized s pending (some value) srv = submit_locked srv.worker.entry s pending value srv

  abbrev pub answer_fresh :
      TaskSnapshot → ClarificationPrompt → Option Text → Server → Reply Answered × Server
  answer_fresh s pending (some field) srv =
      (done (record { field = pending.field; idempotent = true }), srv)
  answer_fresh s pending none srv =
      answer_normalized s pending (normalize_response pending.field c.response) srv

  abbrev pub answer_pending :
      TaskSnapshot → Option ClarificationPrompt → Server → Reply Answered × Server
  answer_pending s none srv = (refused Refusal.clarification_state_missing, srv)
  answer_pending s (some pending) srv =
      answer_fresh s pending (duplicate_field (some pending.field) s.events) srv

  abbrev pub clarify_authorized :
      TaskSnapshot → Server → Reply (Option Principal) → Reply Answered × Server
  clarify_authorized s srv (refused why) = (refused why, srv)
  clarify_authorized s srv (done principal) =
      if is_awaiting s.status
      then answer_pending s s.clarification srv
      else repeated Refusal.clarification_not_awaiting (duplicate_field none s.events) srv

  abbrev pub clarify_snapshot : Option TaskSnapshot → Server → Reply Answered × Server
  clarify_snapshot none srv = (refused Refusal.task_not_found, srv)
  clarify_snapshot (some s) srv = clarify_authorized s srv (authorize_snapshot s c.identity none)

  -- `_clarify_task_locked`
  unfoldable pub clarify_task : Server → Reply Answered × Server
  unfolding record_event begin_task authorize_snapshot text_eq
  clarify_task srv = clarify_snapshot (known srv.worker) srv
