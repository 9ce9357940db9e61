-- ===== src/Tasks/Timeline/Ending.antt =====
-- app/api/server.py, `_record_event`: whatever a task has recorded, it can be brought to an end.
use shopping_agent.Common.{
  ◌≡◌, refl, sym, ap, subst, ◌∙◌, some-injective, true, false, ◌||◌, Bool-cases, inl, inr, some, ℕ,
  List, [], ◌∷◌, Option, Text,
}
use shopping_agent.Tasks.{
  Payload, TaskSnapshot, TaskRecord, Worker, Result, ok, raised, is_terminal, is_deleted,
}
use shopping_agent.Tasks.Timeline.{Emission, record_event, record_all, kept, superseded}
use shopping_agent.Tasks.Timeline.Contract.{Holds}
use shopping_agent.Tasks.Timeline.Recorded.{Accepted, record_event-Accepted}
use shopping_agent.Tasks.Timeline.Final.{outcome, kept-EndedAs, cancellation, record_event-cancels}

-- The worker holds this record, but for its snapshot, and the thread is not deleted.
record IsLive (r : TaskRecord) (w : Worker) : Type 0 where
  snapshot : TaskSnapshot
  held : w.entry ≡ some (record r { snapshot = snapshot })
  live : (r.deleting || is_deleted w.disk) ≡ false

same_record :
    (p r : TaskRecord) (s t : TaskSnapshot)
    → p ≡ record r { snapshot = s }
    → record p { snapshot = t } ≡ record r { snapshot = t }
same_record p r s t h = ap (λ (q : TaskRecord). record q { snapshot = t }) h

module _ (normalize : Text → Text → Option Text) (r : TaskRecord) where
  kept-IsLive :
      (e : Emission) (w : Worker) (m : Result Worker)
      → IsLive r w
      → Holds (Accepted normalize e w) m
      → IsLive r (kept w m)
  kept-IsLive e w (raised why) l a = l
  kept-IsLive e w (ok next) l a =
      let same = some-injective _ _ (sym a.held ∙ l.held) in
      subst (IsLive r) (sym a.recorded) (record {
        snapshot = a.snapshot;
        held = ap some (same_record a.entry r l.snapshot a.snapshot same);
        live = l.live;
      })

  record_all-IsLive :
      (es : List Emission) (w : Worker) → IsLive r w → IsLive r (record_all normalize es w)
  unfolding record_all
  record_all-IsLive [] w l = l
  record_all-IsLive (e ∷ es) w l =
      record_all-IsLive es _ (kept-IsLive e w _ l (record_event-Accepted normalize e w))

-- The task of the worker's record has ended.
abbrev pub HasEnded : Worker → Type 0
HasEnded w = (q : TaskRecord) × (w.entry ≡ some q) × (is_terminal q.snapshot.status ≡ true)

module _ (normalize : Text → Text → Option Text) (r : TaskRecord) (message : Text) (timestamp : ℕ)
    (data_of : Payload) (emitted : Option Text)
    (current : superseded emitted r.run_id ≡ false) where
  ended-HasEnded :
      (w : Worker) (l : IsLive r w)
      → is_terminal l.snapshot.status ≡ true
      → HasEnded
          (kept w (record_event normalize (cancellation message timestamp data_of emitted) w))
  ended-HasEnded w l done =
      let e = cancellation message timestamp data_of emitted in
      let (q, held, same) =
        kept-EndedAs normalize (outcome l.snapshot) done e w (record_event normalize e w)
          (_, l.held, refl) (record_event-Accepted normalize e w) in
      (q, held, ap (λ o. is_terminal o.0) same ∙ done)

  open-HasEnded :
      (w : Worker) (l : IsLive r w)
      → is_terminal l.snapshot.status ≡ false
      → HasEnded
          (kept w (record_event normalize (cancellation message timestamp data_of emitted) w))
  open-HasEnded w l unfinished =
      let (next, t, recorded, held, _, status, _) =
        record_event-cancels normalize w (record r { snapshot = l.snapshot }) message timestamp
          data_of emitted l.held l.live current unfinished in
      subst (λ m. HasEnded (kept w m)) (sym recorded) (_, held, ap is_terminal status)

  live-HasEnded :
      (w : Worker) (l : IsLive r w)
      → HasEnded
          (kept w (record_event normalize (cancellation message timestamp data_of emitted) w))
  live-HasEnded w l = elim (Bool-cases (is_terminal l.snapshot.status)) [
    | inl done ↦ ended-HasEnded w l done
    | inr unfinished ↦ open-HasEnded w l unfinished
  ]

-- Whatever sequence of events is emitted for a task that the worker holds and that is not deleted, accepted
-- or not, the task can still be ended: after a cancellation of its run, with data that meets its model and
-- on a disk that can be written, the status is completed, cancelled or error.
pub record_all-endable :
    (normalize : Text → Text → Option Text) (es : List Emission) (w : Worker) (r : TaskRecord)
    (message : Text) (timestamp : ℕ) (data_of : Payload) (emitted : Option Text)
    → w.entry ≡ some r
    → (r.deleting || is_deleted w.disk) ≡ false
    → superseded emitted r.run_id ≡ false
    → let after = record_all normalize es w in
      HasEnded
        (kept after (record_event normalize (cancellation message timestamp data_of emitted) after))
record_all-endable normalize es w r message timestamp data_of emitted held live current =
    live-HasEnded normalize r message timestamp data_of emitted current (record_all normalize es w)
      (record_all-IsLive normalize r es w
        (record { snapshot = r.snapshot; held = held; live = live }))
