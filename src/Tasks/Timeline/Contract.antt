-- ===== src/Tasks/Timeline/Contract.antt =====
-- What a timeline promises its readers: numbered events, from which the status can be replayed.
use shopping_agent.Common.{
  ℕ, ◌+◌, ◌≡◌, refl, sym, ◌∙◌, Bool, true, false, Option, none, some, List, [], ◌∷◌, ◌++◌, Text,
  Ensures, count_if, count_if-append, if◌then◌else◌, arith,
}
use shopping_agent.Tasks.{
  Status, EventName, Payload, MonitorEvent, TaskSnapshot, Result, ok, raised, is_terminal,
}
use shopping_agent.Tasks.Timeline.{
  Emission, allowed, last_sequence, changes, envelope, append_event, turned, resume,
}

abbrev pub Numbered : ℕ → List MonitorEvent → Type 0
Numbered n [] = Unit
Numbered n (e ∷ es) = (e.sequence ≡ n) × Numbered (n + 1) es

-- What an event does to the status, for a reader of the events alone.
unfoldable pub replay_step : Status → EventName → Status
replay_step status EventName.task_result = Status.completed
replay_step status EventName.task_cancelled = Status.cancelled
replay_step status EventName.clarification_required = Status.awaiting_clarification
replay_step status EventName.clarification_resolved = Status.running
replay_step status EventName.error = Status.error
replay_step status _ = status

unfoldable pub replay : Status → List MonitorEvent → Status
unfolding replay_step
replay status [] = status
replay status (e ∷ es) = replay (replay_step status e.event) es

-- The events that end a task.
unfoldable pub ends : MonitorEvent → Bool
ends e = elim e.event [
  | EventName.task_result ↦ true
  | EventName.task_cancelled ↦ true
  | EventName.error ↦ true
  | _ ↦ false
]

abbrev pub is_some {ℓ} : {A : Type ℓ} → Option A → Bool
is_some none = false
is_some (some a) = true

abbrev pub is_awaiting : Status → Bool
is_awaiting Status.awaiting_clarification = true
is_awaiting _ = false

abbrev pub is_completed : Status → Bool
is_completed Status.completed = true
is_completed _ = false

abbrev pub is_error : Status → Bool
is_error Status.error = true
is_error _ = false

-- A prompt is pending, a result is there and an error is there exactly in the status for it.
pub record IsSettled (s : TaskSnapshot) : Type 0 where
  pub prompted : is_some s.clarification ≡ is_awaiting s.status
  pub resulted : is_some s.result ≡ is_completed s.status
  pub failed : is_some s.error_code ≡ is_error s.status

-- The events are numbered from 1, end at most once and give the status.
pub record IsTimeline (s : TaskSnapshot) : Type 0 where
  pub numbered : Numbered 1 s.events
  pub replayed : s.status ≡ replay Status.running s.events
  pub ended : count_if ends s.events ≡ (if is_terminal s.status then 1 else 0)
  pub settled : IsSettled s

abbrev pub Holds {ℓ κ} : {A : Type ℓ} → (A → Type κ) → Result A → Type κ
Holds P (ok a) = P a
Holds P (raised why) = Unit

pub Numbered-append :
    (n : ℕ) (es : List MonitorEvent) (e : MonitorEvent)
    → Numbered (n + 1) es
    → e.sequence ≡ last_sequence n es + 1
    → Numbered (n + 1) (es ++ e ∷ [])
Numbered-append n [] e h k = (k, tt)
Numbered-append n (x ∷ es) e h k = (h.0, Numbered-append (n + 1) es e h.1 (rw (sym h.0) k))

pub replay-append :
    (status : Status) (xs ys : List MonitorEvent)
    → replay status (xs ++ ys) ≡ replay (replay status xs) ys
unfolding replay
replay-append status [] ys = refl
replay-append status (x ∷ xs) ys = replay-append (replay_step status x.event) xs ys

-- The event ends the task exactly if the task was not ended and is then.
abbrev pub Balances : Status → MonitorEvent → Type 0
Balances status e =
    (if is_terminal status then 1 else 0) + (if ends e then 1 else 0)
    ≡ (if is_terminal (replay_step status e.event) then 1 else 0)

pub next_ends :
    (status : Status) (e : MonitorEvent) → allowed e.event status ≡ true → Balances status e
unfolding allowed replay_step ends
next_ends status e h = ground (arith, h)

resolved_awaiting :
    (status : Status)
    → allowed EventName.clarification_resolved status ≡ true
    → status ≡ Status.awaiting_clarification
unfolding allowed
resolved_awaiting status h = ground (arith, h)

pub result_running :
    (status : Status) → allowed EventName.task_result status ≡ true → status ≡ Status.running
unfolding allowed
result_running status h = ground (arith, h)

abbrev pub is_result : EventName → Bool
is_result EventName.task_result = true
is_result _ = false

-- The snapshot has one more event, and the status that the event gives.
abbrev pub Follows : TaskSnapshot → MonitorEvent → TaskSnapshot → Type 0
Follows s e t =
    (t.events ≡ s.events ++ e ∷ []) × (t.status ≡ replay_step s.status e.event) × IsSettled t

module _ (s : TaskSnapshot) (timeline : IsTimeline s) where
  -- One more event that the status allows.
  pub extend-IsTimeline :
      (e : MonitorEvent) (t : TaskSnapshot)
      → Balances s.status e
      → e.sequence ≡ last_sequence 0 s.events + 1
      → Follows s e t
      → IsTimeline t
  unfolding replay
  extend-IsTimeline e t h k (events, status, settled) = record {
    numbered = rw events (Numbered-append 0 s.events e timeline.numbered k);
    replayed =
        rw (status, events, replay-append Status.running s.events (e ∷ []), timeline.replayed) refl;
    ended = rw (events, status, count_if-append ends s.events (e ∷ []), timeline.ended, sym h) refl;
    settled = settled;
  }

  pub unchanged-IsSettled : (e : MonitorEvent) → IsSettled (append_event e s)
  unchanged-IsSettled e = record {
    prompted = timeline.settled.prompted;
    resulted = timeline.settled.resulted;
    failed = timeline.settled.failed;
  }

  turned-IsSettled :
      (status : Status)
      → is_awaiting status ≡ false
      → is_completed status ≡ false
      → is_error status ≡ false
      → (e : MonitorEvent) → IsSettled (turned status (append_event e s))
  turned-IsSettled status a c f e = record { prompted = sym a; resulted = sym c; failed = sym f }

  resume-Follows :
      (e : MonitorEvent) (field : Text) (value : Option Text)
      → e.event ≡ EventName.clarification_resolved
      → s.status ≡ Status.awaiting_clarification
      → Ensures (Follows s e) (resume field value (append_event e s))
  unfolding replay_step
  resume-Follows e field none name awaiting = tt
  resume-Follows e field (some value) name awaiting = (
    refl,
    rw name refl,
    record {
      prompted = refl;
      resulted = timeline.settled.resulted ∙ rw awaiting refl;
      failed = refl;
    },
  )

  module _ (normalize : Text → Text → Option Text) (emission : Emission) (run_id : Text) (n : ℕ)
      (message : Text) where
    pub changes-Follows :
        (name : EventName) (data_of : Payload)
        → allowed name s.status ≡ true
        → is_result name ≡ false
        → let e = envelope emission run_id n name s in
          Ensures (Follows s e) (changes normalize name data_of message (append_event e s))
    unfolding changes replay_step allowed
    changes-Follows EventName.session_created d h k = (refl, refl, unchanged-IsSettled _)
    changes-Follows EventName.queue_status d h k = (refl, refl, unchanged-IsSettled _)
    changes-Follows EventName.assistant_call d h k = (refl, refl, unchanged-IsSettled _)
    changes-Follows EventName.context_compression d h k = (refl, refl, unchanged-IsSettled _)
    changes-Follows EventName.tool_start d h k = (refl, refl, unchanged-IsSettled _)
    changes-Follows EventName.tool_end d h k = (refl, refl, unchanged-IsSettled _)
    changes-Follows EventName.fork d h k = (refl, refl, unchanged-IsSettled _)
    changes-Follows EventName.report_generated d h k = (refl, refl, unchanged-IsSettled _)
    changes-Follows EventName.task_result d h k = cc
    changes-Follows EventName.task_cancelled d h k =
        (refl, refl, turned-IsSettled Status.cancelled refl refl refl _)
    changes-Follows EventName.error d h k =
        (refl, refl, record { prompted = refl; resulted = refl; failed = refl })
    changes-Follows EventName.intent_resolved (Payload.resolved_intent q) h k = (
      refl,
      refl,
      record {
        prompted = timeline.settled.prompted;
        resulted = timeline.settled.resulted;
        failed = timeline.settled.failed;
      },
    )
    changes-Follows EventName.clarification_required (Payload.prompt p) h k =
        (refl, refl, record { prompted = refl; resulted = refl; failed = refl })
    changes-Follows EventName.clarification_resolved (Payload.answer f r v) h k =
        resume-Follows _ f _ refl (resolved_awaiting s.status h)
    changes-Follows EventName.intent_resolved _ h k = tt
    changes-Follows EventName.clarification_required _ h k = tt
    changes-Follows EventName.clarification_resolved _ h k = tt
