-- ===== src/Tasks.antt =====
-- app/api/server.py: the registry of research tasks, one thread id at a time. A thread's directory is the
-- snapshot in its `task.json` and the tombstone beside it; the operations of a thread hold its lock. The
-- fields of a snapshot that no operation here reads are left out, and instants are numbers.
pub mod Timeline
pub mod Runtime
pub mod Access
pub mod Commands
pub mod Lifecycle
pub mod Deletion
pub mod Cancellation
pub mod Clarification
pub mod Closed
pub mod Clarified
pub mod Reading
pub mod Cancelled
pub mod Actions
pub mod Sound
pub mod Kept
pub mod Always
pub mod Buried
pub mod Gone
pub mod Recovery
pub mod Gate
pub mod Created
pub mod Counted
mod Examples
use shopping_agent.Common.{
  ℕ, ◌+◌, ◌≡◌, Bool, true, false, ◌||◌, Option, none, some, List, [], ◌∷◌, Text, if◌then◌else◌,
}

pub data Status : Type 0 where
  running awaiting_clarification completed cancelled error : Status

pub data EventName : Type 0 where
  session_created queue_status intent_resolved assistant_call context_compression : EventName
  tool_start tool_end fork report_generated task_result task_cancelled : EventName
  clarification_required clarification_resolved error : EventName

pub data DataMode : Type 0 where
  live sandbox mixed : DataMode

abbrev pub same_mode : DataMode → DataMode → Bool
same_mode live live = true
same_mode sandbox sandbox = true
same_mode mixed mixed = true
same_mode _ _ = false

pub record ClarificationPrompt : Type 0 where
  pub field : Text
  pub reason_code : Text
  pub question : Text

-- `ShoppingSummaryOutput`: its mode and query, and the rest of it rendered.
pub record Summary : Type 0 where
  pub data_mode : DataMode
  pub resolved_query : Option Text
  pub body : Text

-- The data of an event: what the recorder reads of it.
pub data Payload : Type 0 where
  details : Text → Payload
  resolved_intent : Text → Payload
  prompt : ClarificationPrompt → Payload
  answer : Text → Text → Option Text → Payload
  failure : Option Text → Payload
  summary : Summary → Payload

-- `data_mode` is the entry that the recorder adds to the data.
pub record MonitorEvent : Type 0 where
  pub run_id : Text
  pub sequence : ℕ
  pub event : EventName
  pub message : Text
  pub data_of : Payload
  pub data_mode : DataMode
  pub timestamp : ℕ

pub record TaskSnapshot : Type 0 where
  pub run_id : Text
  pub generation : ℕ
  pub status : Status
  pub user_id : Text
  pub tenant_id : Text
  pub data_mode : DataMode
  pub updated_at : ℕ
  pub resolved_query : Option Text
  pub events : List MonitorEvent
  pub result : Option Summary
  pub clarification : Option ClarificationPrompt
  pub clarification_answers : List (Text × Text)
  pub error_code : Option Text
  pub error_message : Option Text

-- The user is missing from a tombstone that cannot be read.
pub record TaskTombstone : Type 0 where
  pub user_id : Option Text
  pub tenant_id : Text
  pub generation : ℕ

-- Who holds `.research-owner.lock`.
pub data Owner : Type 0 where
  free here elsewhere : Owner

pub record Disk : Type 0 where
  pub task_json : Option TaskSnapshot
  pub tombstone : Option TaskTombstone
  pub owner : Owner

-- `owner_handle` is whether the record holds one, `task_done` is `task.done()`.
pub record TaskRecord : Type 0 where
  pub run_id : Text
  pub snapshot : TaskSnapshot
  pub owner_handle : Bool
  pub task_done : Bool
  pub deleting : Bool

-- The thread's files and its entry in `records`.
pub record Worker : Type 0 where
  pub disk : Disk
  pub entry : Option TaskRecord

-- The exceptions of the recorder.
pub data Failure : Type 0 where
  task_deleted superseded_run terminal_task wrong_transition : Failure
  invalid_data mode_mismatch report_failed not_persisted : Failure

pub data Result {ℓ} (A : Type ℓ) : Type ℓ where
  ok : A → Result A
  raised : Failure → Result A

-- `_task_is_deleted`
abbrev pub is_deleted : Disk → Bool
is_deleted disk = elim disk.tombstone [ none ↦ false | some tombstone ↦ true ]

-- `_persist_snapshot`; whether the file can be written is an argument.
unfoldable pub persist_snapshot : Bool → TaskSnapshot → Disk → Result Disk
persist_snapshot writable snapshot disk =
    if is_deleted disk
    then raised Failure.task_deleted
    else if writable
    then ok (record disk { task_json = some snapshot })
    else raised Failure.not_persisted

abbrev pub is_terminal : Status → Bool
is_terminal running = false
is_terminal awaiting_clarification = false
is_terminal completed = true
is_terminal cancelled = true
is_terminal error = true
