-- ===== src/Tasks/Timeline/Final.antt =====
-- app/api/server.py, `_record_event`: what a task that has ended can still change, and that a running
-- task can be ended.
use shopping_agent.Common.{
  ℕ, ◌+◌, length, length-append, ◌≡◌, refl, sym, ap, subst, ◌∙◌, some-injective, Bool, true, false,
  ◌||◌, Bool-cases, inl, inr, Option, some, List, [], ◌∷◌, Text, arith,
}
use shopping_agent.Tasks.{
  Status, EventName, Payload, Summary, ClarificationPrompt, TaskSnapshot, TaskRecord, Worker,
  Result, ok, raised, is_terminal, is_deleted, persist_snapshot,
}
use shopping_agent.Tasks.Timeline.{
  Emission, allowed, changes, advance, record_event, record_all, apply_event, envelope,
  append_event, turned, kept, superseded, last_sequence,
}
use shopping_agent.Tasks.Timeline.Contract.{Holds}
use shopping_agent.Tasks.Timeline.Recorded.{Accepted, Holds-at, record_event-Accepted}

-- How the task ended, and everything a client is told of it but the events.
abbrev pub Outcome : Type 0
Outcome =
    Status
    × Option Summary
    × Option ClarificationPrompt
    × List (Text × Text)
    × Option Text
    × Option Text
    × Option Text

abbrev pub outcome : TaskSnapshot → Outcome
outcome s = (
  s.status, s.result, s.clarification, s.clarification_answers, s.error_code, s.error_message,
  s.resolved_query,
)

ended_report :
    (name : EventName) (status : Status)
    → is_terminal status ≡ true
    → allowed name status ≡ true
    → name ≡ EventName.report_generated
unfolding allowed
ended_report name status done fits = ground (arith, done, fits)

module _ (normalize : Text → Text → Option Text) (e : Emission) (run_id : Text)
    (s : TaskSnapshot) where
  report-final :
      Holds
        (λ t. outcome t ≡ outcome s)
        (apply_event normalize EventName.report_generated e run_id s)
  unfolding changes
  report-final = elim (Bool-cases e.valid) [
    | inl valid ↦ rw valid refl
    | inr refused ↦ rw refused tt
  ]

  advance-final :
      is_terminal s.status ≡ true
      → Holds (λ t. outcome t ≡ outcome s) (advance normalize e run_id s)
  unfolding advance
  advance-final done = elim (Bool-cases (allowed e.event s.status)) [
    | inr barred ↦ rw barred tt
    | inl fits ↦ rw fits (
        subst (λ n. Holds (λ t. outcome t ≡ outcome s) (apply_event normalize n e run_id s))
          (sym (ended_report e.event s.status done fits)) report-final)
  ]

-- The task of the entry has this outcome.
abbrev pub EndedAs : Outcome → Worker → Type 0
EndedAs o w = (r : TaskRecord) × (w.entry ≡ some r) × (outcome r.snapshot ≡ o)

module _ (normalize : Text → Text → Option Text) (o : Outcome) (done : is_terminal o.0 ≡ true) where
  pub kept-EndedAs :
      (e : Emission) (w : Worker) (m : Result Worker)
      → EndedAs o w
      → Holds (Accepted normalize e w) m
      → EndedAs o (kept w m)
  kept-EndedAs e w (raised why) ended a = ended
  kept-EndedAs e w (ok next) (r, held, same) a =
      let from : a.entry ≡ r = some-injective _ _ (sym a.held ∙ held) in
      let before : outcome a.entry.snapshot ≡ o = rw from same in
      let after : outcome a.snapshot ≡ outcome a.entry.snapshot =
        Holds-at _ _ a.snapshot
          (advance-final normalize e a.entry.run_id a.entry.snapshot
            (rw (ap (λ p. p.0) before) done))
          a.advanced in
      rw a.recorded (_, refl, after ∙ before)

-- Once a task is completed, cancelled or in error, no sequence of emitted events changes its status, its result, its prompt, its answers, its
-- error or its resolved query, and its record stays.
pub record_all-final :
    (normalize : Text → Text → Option Text) (es : List Emission) (w : Worker) (o : Outcome)
    → is_terminal o.0 ≡ true
    → EndedAs o w
    → EndedAs o (record_all normalize es w)
unfolding record_all
record_all-final normalize [] w o done ended = ended
record_all-final normalize (e ∷ es) w o done ended =
    record_all-final normalize es _ o done
      (kept-EndedAs normalize o done e w _ ended (record_event-Accepted normalize e w))

-- What the endpoint `cancel_task` emits, on a disk that can be written.
abbrev pub cancellation : Text → ℕ → Payload → Option Text → Emission
cancellation message timestamp data_of emitted_run_id = record {
  event = EventName.task_cancelled;
  message = message;
  data_of = data_of;
  timestamp = timestamp;
  emitted_run_id = emitted_run_id;
  valid = true;
  reports_ready = false;
  writable = true;
}

open_cancellable :
    (status : Status) → is_terminal status ≡ false → allowed EventName.task_cancelled status ≡ true
unfolding allowed
open_cancellable status h = ground (arith, h)

not_deleted : (a b : Bool) → (a || b) ≡ false → b ≡ false
not_deleted a b h = ground (arith, h)

-- An emission of the current run that cancels a task which has not ended and is not deleted is recorded if the disk can be written: the
-- record and the file have the same snapshot, with status cancelled and one event more.
pub record_event-cancels :
    (normalize : Text → Text → Option Text) (w : Worker) (r : TaskRecord) (message : Text)
    (timestamp : ℕ) (data_of : Payload) (emitted : Option Text)
    → w.entry ≡ some r
    → (r.deleting || is_deleted w.disk) ≡ false
    → superseded emitted r.run_id ≡ false
    → is_terminal r.snapshot.status ≡ false
    → (next : Worker) × (t : TaskSnapshot) × (record_event normalize
          (cancellation message timestamp data_of emitted)
          w
        ≡ ok next)
      × (next.entry ≡ some (record r { snapshot = t }))
      × (next.disk.task_json ≡ some t)
      × (t.status ≡ Status.cancelled)
      × (length t.events ≡ length r.snapshot.events + 1)
unfolding record_event advance changes persist_snapshot
record_event-cancels normalize w r message timestamp data_of emitted held live current unfinished =
    let e = cancellation message timestamp data_of emitted in
    let event =
      envelope e r.run_id (last_sequence 0 r.snapshot.events + 1) EventName.task_cancelled
        r.snapshot in
    let t = turned Status.cancelled (append_event event r.snapshot) in
    (
      record {
        disk = record w.disk { task_json = some t };
        entry = some (record r { snapshot = t });
      },
      t,
      rw
          (
            held,
            live,
            current,
            open_cancellable r.snapshot.status unfinished,
            not_deleted r.deleting (is_deleted w.disk) live,
          )
          refl,
      refl,
      refl,
      refl,
      length-append r.snapshot.events (event ∷ []),
    )
