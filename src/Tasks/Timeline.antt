-- ===== src/Tasks/Timeline.antt =====
-- app/api/server.py: how an emitted event becomes an event of the stored timeline.
pub mod Contract
pub mod Advance
pub mod Recorded
pub mod Final
pub mod Ending
use shopping_agent.Common.{
  ℕ, ◌+◌, ◌≡◌, Bool, true, false, not, ◌&&◌, ◌||◌, Option, none, some, List, [], ◌∷◌, ◌++◌, Text,
  codes, text_eq, keep, if◌then◌else◌,
}
use shopping_agent.Tasks.{
  Status, EventName, DataMode, ClarificationPrompt, Summary, Payload, MonitorEvent, TaskSnapshot,
  Disk, TaskRecord, Worker, Failure, Result, ok, raised, is_terminal, is_deleted, persist_snapshot,
  same_mode,
}

-- The arguments of `_record_event`, with what the environment answers: whether the data meets its model,
-- whether the reports can be generated and whether the snapshot can be written.
pub record Emission : Type 0 where
  pub event : EventName
  pub message : Text
  pub data_of : Payload
  pub timestamp : ℕ
  pub emitted_run_id : Option Text
  pub valid : Bool
  pub reports_ready : Bool
  pub writable : Bool

-- `allowed_statuses`
unfoldable pub allowed : EventName → Status → Bool
allowed EventName.report_generated Status.completed = true
allowed EventName.report_generated _ = false
allowed EventName.task_cancelled Status.running = true
allowed EventName.task_cancelled Status.awaiting_clarification = true
allowed EventName.task_cancelled _ = false
allowed EventName.clarification_resolved Status.awaiting_clarification = true
allowed EventName.clarification_resolved _ = false
allowed _ Status.running = true
allowed _ _ = false

-- `events[-1].sequence`, from the number before the first event.
abbrev pub last_sequence : ℕ → List MonitorEvent → ℕ
last_sequence before [] = before
last_sequence before (e ∷ es) = last_sequence e.sequence es

-- `text or fallback`, the empty text being false.
abbrev pub or_else : Option Text → Option Text → Option Text
or_else none fallback = fallback
or_else (some []) fallback = fallback
or_else (some (c ∷ cs)) fallback = some (c ∷ cs)

-- `str(data.get("code") or "task_failed")`
abbrev pub error_code_of : Payload → Text
error_code_of (Payload.failure (some (c ∷ cs))) = c ∷ cs
error_code_of _ = codes "task_failed"

-- `{**answers, field: value}`
abbrev pub answer_field : Text → Text → List (Text × Text) → List (Text × Text)
answer_field field value [] = (field, value) ∷ []
answer_field field value ((f, v) ∷ rest) =
    if text_eq field f then (f, value) ∷ rest else (f, v) ∷ answer_field field value rest

abbrev pub envelope : Emission → Text → ℕ → EventName → TaskSnapshot → MonitorEvent
envelope e run_id sequence event snapshot = record {
  run_id = run_id;
  sequence = sequence;
  event = event;
  message = e.message;
  data_of = e.data_of;
  data_mode = snapshot.data_mode;
  timestamp = e.timestamp;
}

-- The snapshot with a status and no result, prompt or error.
abbrev pub turned : Status → TaskSnapshot → TaskSnapshot
turned status s = record s {
  status = status;
  result = none;
  clarification = none;
  error_code = none;
  error_message = none;
}

abbrev pub resume : Text → Option Text → TaskSnapshot → Option TaskSnapshot
resume field none s = none
resume field (some value) s = some (record s {
  status = Status.running;
  clarification = none;
  clarification_answers = answer_field field value s.clarification_answers;
  error_code = none;
  error_message = none;
})

abbrev pub append_event : MonitorEvent → TaskSnapshot → TaskSnapshot
append_event event s = record s { events = s.events ++ event ∷ []; updated_at = event.timestamp }

abbrev pub report_message : Text
report_message = codes "研究报告已生成"

-- The links of the reports are left out.
abbrev pub report_event : Emission → Text → ℕ → TaskSnapshot → MonitorEvent
report_event e run_id sequence s = record {
  run_id = run_id;
  sequence = sequence;
  event = EventName.report_generated;
  message = report_message;
  data_of = Payload.details [];
  data_mode = s.data_mode;
  timestamp = e.timestamp;
}

-- What `_record_task_result` makes of the snapshot: `report_generated` and then `task_result`.
abbrev pub completed_with : Emission → Text → Summary → TaskSnapshot → TaskSnapshot
completed_with e run_id result s =
    let previous = last_sequence 0 s.events in
    record s {
      status = Status.completed;
      updated_at = e.timestamp;
      result = some result;
      resolved_query = or_else result.resolved_query s.resolved_query;
      error_code = none;
      error_message = none;
      events =
          s.events
          ++ (report_event e run_id (previous + 1) s
              ∷ envelope e run_id (previous + 2) EventName.task_result s
              ∷ []);
    }

-- The data modes have been compared, and then whether the reports are there.
abbrev pub conclude : Emission → Text → Summary → TaskSnapshot → Result TaskSnapshot
conclude e run_id result s =
    if not (same_mode result.data_mode s.data_mode)
    then raised Failure.mode_mismatch
    else if e.reports_ready
    then ok (completed_with e run_id result s)
    else raised Failure.report_failed

abbrev pub record_task_result : Emission → Text → Payload → TaskSnapshot → Result TaskSnapshot
record_task_result e run_id (Payload.summary result) s =
    if e.valid then conclude e run_id result s else raised Failure.invalid_data
record_task_result e run_id _ s = raised Failure.invalid_data

abbrev pub or_invalid : Option TaskSnapshot → Result TaskSnapshot
or_invalid none = raised Failure.invalid_data
or_invalid (some s) = ok s

-- The snapshot is written before the record has it.
abbrev pub published : TaskRecord → TaskSnapshot → Result Disk → Result Worker
published r s (raised why) = raised why
published r s (ok disk) = ok (record { disk = disk; entry = some (record r { snapshot = s }) })

abbrev pub commit : Bool → TaskRecord → Disk → Result TaskSnapshot → Result Worker
commit writable r disk (raised why) = raised why
commit writable r disk (ok s) = published r s (persist_snapshot writable s disk)

abbrev pub superseded : Option Text → Text → Bool
superseded none run_id = false
superseded (some emitted) run_id = not (text_eq emitted run_id)

-- An exception leaves the record and the file.
abbrev pub kept : Worker → Result Worker → Worker
kept w (ok next) = next
kept w (raised why) = w

module _ (normalize_response : Text → Text → Option Text) where
  -- The branches on the event; none is data that its model refuses.
  unfoldable pub changes : EventName → Payload → Text → TaskSnapshot → Option TaskSnapshot
  changes EventName.intent_resolved (Payload.resolved_intent query) message s =
      some (record s { resolved_query = some query })
  changes EventName.intent_resolved _ message s = none
  changes EventName.task_cancelled data_of message s = some (turned Status.cancelled s)
  changes EventName.clarification_required (Payload.prompt prompt) message s =
      some (record (turned Status.awaiting_clarification s) { clarification = some prompt })
  changes EventName.clarification_required _ message s = none
  changes EventName.clarification_resolved (Payload.answer field response value) message s =
      resume field (or_else value (normalize_response field response)) s
  changes EventName.clarification_resolved _ message s = none
  changes EventName.error data_of message s = some (record (turned Status.error s) {
    error_code = some (error_code_of data_of);
    error_message = some message;
  })
  changes _ data_of message s = some s

  abbrev pub record_change : EventName → Emission → Text → TaskSnapshot → Result TaskSnapshot
  record_change name e run_id s =
      let event = envelope e run_id (last_sequence 0 s.events + 1) name s in
      if e.valid
      then or_invalid (changes name e.data_of e.message (append_event event s))
      else raised Failure.invalid_data

  abbrev pub apply_event : EventName → Emission → Text → TaskSnapshot → Result TaskSnapshot
  apply_event EventName.task_result e run_id s = record_task_result e run_id e.data_of s
  apply_event name e run_id s = record_change name e run_id s

  -- The snapshot that an event leads to.
  unfoldable pub advance : Emission → Text → TaskSnapshot → Result TaskSnapshot
  unfolding allowed changes
  advance e run_id s =
      if allowed e.event s.status
      then apply_event e.event e run_id s
      else raised (if is_terminal s.status then Failure.terminal_task else Failure.wrong_transition)

  abbrev pub record_on : Emission → Disk → TaskRecord → Result Worker
  record_on e disk r =
      if r.deleting || is_deleted disk
      then raised Failure.task_deleted
      else if superseded e.emitted_run_id r.run_id
      then raised Failure.superseded_run
      else commit e.writable r disk (advance e r.run_id r.snapshot)

  -- `_record_event`. What it returns is the end of the snapshot's events.
  unfoldable pub record_event : Emission → Worker → Result Worker
  unfolding advance persist_snapshot text_eq
  record_event e w = elim w.entry [
    | none ↦ raised Failure.task_deleted
    | some r ↦ record_on e w.disk r
  ]

  -- The events that the agent, the queue and the endpoints emit, in the order of their locks.
  unfoldable pub record_all : List Emission → Worker → Worker
  unfolding record_event
  record_all [] w = w
  record_all (e ∷ es) w = record_all es (kept w (record_event e w))
