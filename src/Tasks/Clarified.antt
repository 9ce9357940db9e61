-- ===== src/Tasks/Clarified.antt =====
-- app/api/server.py, `_clarify_task_locked`: it keeps every invariant that is closed under what it does.
use shopping_agent.Common.{
  ◌≡◌, refl, Bool, true, false, Bool-cases, inl, inr, Option, none, some, Text,
}
use shopping_agent.Tasks.{
  TaskSnapshot, TaskRecord, Disk, Worker, Result, ok, raised, ClarificationPrompt, is_deleted,
}
use shopping_agent.Tasks.Timeline.{Emission}
use shopping_agent.Tasks.Timeline.Contract.{Holds}
use shopping_agent.Tasks.Timeline.Recorded.{Accepted, record_event-Accepted}
use shopping_agent.Tasks.Runtime.{Release, Begun, begun, begin_task}
use shopping_agent.Tasks.Access.{Principal, Refusal, Reply, done, refused}
use shopping_agent.Tasks.Commands.{read_persisted, is_free}
use shopping_agent.Tasks.Lifecycle.{Server}
use shopping_agent.Tasks.Cancellation.{is_awaiting}
use shopping_agent.Tasks.Clarification.{
  Clarification, or_entry, known, begun_again, recorded_answer, submit, submit_held, submit_locked,
  answer_normalized, answer_fresh, answer_pending, clarify_authorized, clarify_snapshot,
  clarify_task, resolved_event, repeated,
}
use shopping_agent.Tasks.Closed.{IsClosed, abandoned-I, adopt-I, relocked-I, resume_entry-I}

-- A snapshot that is known without a record is the stored one.
abbrev Stored : TaskSnapshot → Worker → Type 0
Stored s w = w.entry ≡ none → w.disk.task_json ≡ some s

pub read_stored :
    (disk : Disk) (s : TaskSnapshot) → read_persisted disk ≡ some s → disk.task_json ≡ some s
read_stored disk s = elim (Bool-cases (is_deleted disk)) [
  | inl gone ↦ rw gone (λ h. cc)
  | inr live ↦ rw live (λ h. h)
]

known_stored :
    (stored : Option TaskSnapshot) (entry : Option TaskRecord) (s : TaskSnapshot)
    → or_entry stored entry ≡ some s
    → entry ≡ none
    → stored ≡ some s
known_stored none none s h k = h
known_stored none (some r) s h k = cc
known_stored (some t) entry s h k = h

module _ (normalize : Text → Text → Option Text) (strip : Text → Text) (release : Release)
    (c : Clarification) (I : Worker → Type 0) (closed : IsClosed normalize I) where
  begun-I :
      (created : Bool) (field : Text) (srv : Server) (b : Begun)
      → I srv.worker
      → I (begun_again normalize strip release c created field srv b).1.worker
  begun-I created field srv (begun control) i =
      resume_entry-I normalize I closed srv.worker.entry srv.worker refl i
  begun-I created field srv _ i = abandoned-I normalize I closed created srv.worker i

  recorded-I :
      (created : Bool) (field : Text) (srv : Server) (e : Emission) (m : Result Worker)
      → Holds (Accepted normalize e srv.worker) m
      → I srv.worker
      → I (recorded_answer normalize strip release c created field srv m).1.worker
  recorded-I created field srv e (raised why) a i =
      abandoned-I normalize I closed created srv.worker i
  recorded-I created field srv e (ok next) a i =
      begun-I created field (record srv { worker = next }) (begin_task release c.bucket srv.control)
        (closed.emits e srv.worker next i a)

  submit-I :
      (created : Bool) (run_id : Text) (pending : ClarificationPrompt) (value : Text) (srv : Server)
      → I srv.worker
      → I (submit normalize strip release c created run_id pending value srv).1.worker
  submit-I created run_id pending value srv i =
      recorded-I created pending.field srv (resolved_event c run_id pending value) _
        (record_event-Accepted normalize (resolved_event c run_id pending value) srv.worker) i

  submit_held-I :
      (handle : Bool) (r : TaskRecord) (pending : ClarificationPrompt) (value : Text) (srv : Server)
      → srv.worker.entry ≡ some r
      → I srv.worker
      → I (submit_held normalize strip release c handle r pending value srv).1.worker
  submit_held-I true r pending value srv h i = submit-I false r.run_id pending value srv i
  submit_held-I false r pending value srv h i = elim (Bool-cases (is_free srv.worker.disk.owner)) [
    | inl free ↦
        rw free
          (submit-I false r.run_id pending value _ (relocked-I normalize I closed r srv.worker h i))
    | inr held ↦ rw held i
  ]

  submit_locked-I :
      (entry : Option TaskRecord) (s : TaskSnapshot) (pending : ClarificationPrompt) (value : Text)
      (srv : Server)
      → srv.worker.entry ≡ entry
      → Stored s srv.worker
      → I srv.worker
      → I (submit_locked normalize strip release c entry s pending value srv).1.worker
  submit_locked-I none s pending value srv h stored i =
      elim (Bool-cases (is_free srv.worker.disk.owner)) [
        | inl free ↦ rw free (
            submit-I true s.run_id pending value _
              (adopt-I normalize I closed s srv.worker (stored h) i))
        | inr held ↦ rw held i
      ]
  submit_locked-I (some r) s pending value srv h stored i =
      submit_held-I r.owner_handle r pending value srv h i

  normalized-I :
      (s : TaskSnapshot) (pending : ClarificationPrompt) (value : Option Text) (srv : Server)
      → Stored s srv.worker
      → I srv.worker
      → I (answer_normalized normalize strip release c s pending value srv).1.worker
  normalized-I s pending none srv stored i = i
  normalized-I s pending (some value) srv stored i =
      submit_locked-I srv.worker.entry s pending value srv refl stored i

  fresh-I :
      (s : TaskSnapshot) (pending : ClarificationPrompt) (repeats : Option Text) (srv : Server)
      → Stored s srv.worker
      → I srv.worker
      → I (answer_fresh normalize strip release c s pending repeats srv).1.worker
  fresh-I s pending (some field) srv stored i = i
  fresh-I s pending none srv stored i = normalized-I s pending _ srv stored i

  pending-I :
      (s : TaskSnapshot) (pending : Option ClarificationPrompt) (srv : Server)
      → Stored s srv.worker
      → I srv.worker
      → I (answer_pending normalize strip release c s pending srv).1.worker
  pending-I s none srv stored i = i
  pending-I s (some pending) srv stored i = fresh-I s pending _ srv stored i

  repeated-I :
      (why : Refusal) (repeats : Option Text) (srv : Server)
      → I srv.worker
      → I (repeated normalize strip release c why repeats srv).1.worker
  repeated-I why none srv i = i
  repeated-I why (some field) srv i = i

  authorized-I :
      (s : TaskSnapshot) (srv : Server) (reply : Reply (Option Principal))
      → Stored s srv.worker
      → I srv.worker
      → I (clarify_authorized normalize strip release c s srv reply).1.worker
  authorized-I s srv (refused why) stored i = i
  authorized-I s srv (done p) stored i = elim (Bool-cases (is_awaiting s.status)) [
    | inl awaiting ↦ rw awaiting (pending-I s s.clarification srv stored i)
    | inr other ↦ rw other (repeated-I Refusal.clarification_not_awaiting _ srv i)
  ]

  snapshot-I :
      (found : Option TaskSnapshot) (srv : Server)
      → known srv.worker ≡ found
      → I srv.worker
      → I (clarify_snapshot normalize strip release c found srv).1.worker
  snapshot-I none srv h i = i
  snapshot-I (some s) srv h i =
      authorized-I s srv _
        (λ k.
          read_stored srv.worker.disk s
            (known_stored (read_persisted srv.worker.disk) srv.worker.entry s h k))
        i

  pub clarify_task-I :
      (srv : Server) → I srv.worker → I (clarify_task normalize strip release c srv).1.worker
  unfolding clarify_task
  clarify_task-I srv i = snapshot-I _ srv refl i
