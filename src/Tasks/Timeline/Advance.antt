-- ===== src/Tasks/Timeline/Advance.antt =====
-- app/api/server.py, `_record_event` and `_record_task_result`: one event keeps the contract of a timeline.
use shopping_agent.Common.{
  ℕ, ◌+◌, ◌≡◌, refl, ap, ◌∙◌, true, false, Bool-cases, inl, inr, Option, none, some, List, [], ◌∷◌,
  ◌++◌, Text, Ensures, arith,
}
use shopping_agent.Tasks.{
  Status, EventName, Payload, Summary, MonitorEvent, TaskSnapshot, same_mode,
}
use shopping_agent.Tasks.Timeline.{
  Emission, allowed, last_sequence, apply_event, advance, record_change, envelope, append_event,
  or_invalid, report_event, record_task_result, conclude, completed_with,
}
use shopping_agent.Tasks.Timeline.Contract.{
  IsTimeline, Holds, Follows, extend-IsTimeline, unchanged-IsSettled, changes-Follows,
  result_running, next_ends, is_result, replay_step, ends,
}

append_assoc : {A : Type 0} (xs : List A) (a b : A) → xs ++ (a ∷ b ∷ []) ≡ (xs ++ a ∷ []) ++ b ∷ []
append_assoc [] a b = refl
append_assoc (x ∷ xs) a b = ap (λ t. x ∷ t) (append_assoc xs a b)

last_sequence-append :
    (n : ℕ) (es : List MonitorEvent) (e : MonitorEvent)
    → last_sequence n (es ++ e ∷ []) ≡ e.sequence
last_sequence-append n [] e = refl
last_sequence-append n (x ∷ es) e = last_sequence-append x.sequence es e

module _ (s : TaskSnapshot) (timeline : IsTimeline s) where
  completed-IsTimeline :
      (e : Emission) (run_id : Text) (result : Summary)
      → s.status ≡ Status.running
      → IsTimeline (completed_with e run_id result s)
  unfolding replay_step ends
  completed-IsTimeline e run_id result running =
      let report = report_event e run_id (last_sequence 0 s.events + 1) s in
      let reported = append_event report s in
      let between : IsTimeline reported =
        extend-IsTimeline s timeline report reported (ground arith) refl
          (refl, refl, unchanged-IsSettled s timeline report) in
      extend-IsTimeline reported between
        (envelope e run_id (last_sequence 0 s.events + 2) EventName.task_result s)
        (completed_with e run_id result s) (rw running refl)
        (omega (arith, last_sequence-append 0 s.events report))
        (
          append_assoc s.events _ _,
          refl,
          record {
            prompted = timeline.settled.prompted ∙ rw running refl;
            resulted = refl;
            failed = refl;
          },
        )

  module _ (normalize : Text → Text → Option Text) (e : Emission) (run_id : Text) where
    conclude-IsTimeline :
        (result : Summary)
        → s.status ≡ Status.running
        → Holds IsTimeline (conclude e run_id result s)
    conclude-IsTimeline result running =
        elim (Bool-cases (same_mode result.data_mode s.data_mode)) [
          | inr other ↦ rw other tt
          | inl same ↦ elim (Bool-cases e.reports_ready) [
            | inl ready ↦ rw (same, ready) (completed-IsTimeline e run_id result running)
            | inr missing ↦ rw (same, missing) tt
          ]
        ]

    record_task_result-IsTimeline :
        (data_of : Payload)
        → s.status ≡ Status.running
        → Holds IsTimeline (record_task_result e run_id data_of s)
    record_task_result-IsTimeline (Payload.summary result) running = elim (Bool-cases e.valid) [
      | inl valid ↦ rw valid (conclude-IsTimeline result running)
      | inr refused ↦ rw refused tt
    ]
    record_task_result-IsTimeline _ running = tt

    or_invalid-IsTimeline :
        (name : EventName) (m : Option TaskSnapshot)
        → allowed name s.status ≡ true
        → Ensures (Follows s (envelope e run_id (last_sequence 0 s.events + 1) name s)) m
        → Holds IsTimeline (or_invalid m)
    or_invalid-IsTimeline name none h k = tt
    or_invalid-IsTimeline name (some t) h k =
        let event = envelope e run_id (last_sequence 0 s.events + 1) name s in
        extend-IsTimeline s timeline event t (next_ends s.status event h) refl k

    record_change-IsTimeline :
        (name : EventName)
        → allowed name s.status ≡ true
        → is_result name ≡ false
        → Holds IsTimeline (record_change normalize name e run_id s)
    record_change-IsTimeline name h k = elim (Bool-cases e.valid) [
      | inr refused ↦ rw refused tt
      | inl valid ↦ rw valid (
          or_invalid-IsTimeline name _ h
            (changes-Follows s timeline normalize e run_id _ e.message name e.data_of h k))
    ]

    apply_event-IsTimeline :
        (name : EventName)
        → allowed name s.status ≡ true
        → Holds IsTimeline (apply_event normalize name e run_id s)
    apply_event-IsTimeline EventName.task_result h =
        record_task_result-IsTimeline e.data_of (result_running s.status h)
    apply_event-IsTimeline _ h = record_change-IsTimeline _ h refl

    pub advance-IsTimeline : Holds IsTimeline (advance normalize e run_id s)
    unfolding advance
    advance-IsTimeline = elim (Bool-cases (allowed e.event s.status)) [
      | inl fits ↦ rw fits (apply_event-IsTimeline e.event fits)
      | inr barred ↦ rw barred tt
    ]
