-- ===== src/Tasks/Timeline/Recorded.antt =====
-- app/api/server.py, `_record_event`: what an event that was recorded has met, and what it did.
use shopping_agent.Common.{
  ◌≡◌, refl, subst, Bool, true, false, ◌||◌, Bool-cases, inl, inr, Option, none, some, Text,
  if◌then◌else◌,
}
use shopping_agent.Tasks.{
  TaskSnapshot, TaskRecord, Failure, Worker, Result, ok, raised, persist_snapshot, is_deleted,
}
use shopping_agent.Tasks.Timeline.{
  Emission, advance, record_event, commit, record_on, published, superseded,
}
use shopping_agent.Tasks.Timeline.Contract.{Holds}

-- The record that took an event, the snapshot it led to, and what let the event through.
pub record Accepted (normalize : Text → Text → Option Text) (e : Emission) (w next : Worker)
    : Type 0 where
  pub entry : TaskRecord
  pub snapshot : TaskSnapshot
  pub held : w.entry ≡ some entry
  pub live : (entry.deleting || is_deleted w.disk) ≡ false
  pub current : superseded e.emitted_run_id entry.run_id ≡ false
  pub advanced : advance normalize e entry.run_id entry.snapshot ≡ ok snapshot
  pub recorded : next ≡ record {
    disk = record w.disk { task_json = some snapshot };
    entry = some (record entry { snapshot = snapshot });
  }

module _ (normalize : Text → Text → Option Text) (e : Emission) (w : Worker) (r : TaskRecord)
    (held : w.entry ≡ some r) (live : (r.deleting || is_deleted w.disk) ≡ false)
    (current : superseded e.emitted_run_id r.run_id ≡ false) where
  written :
      (writable : Bool) (s : TaskSnapshot)
      → advance normalize e r.run_id r.snapshot ≡ ok s
      → Holds (Accepted normalize e w) (
          published r s (
            if writable
            then ok (record w.disk { task_json = some s })
            else raised Failure.not_persisted))
  written false s k = tt
  written true s k = record {
    entry = r;
    snapshot = s;
    held = held;
    live = live;
    current = current;
    advanced = k;
    recorded = refl;
  }

  commit-Accepted :
      (writable : Bool) (m : Result TaskSnapshot)
      → advance normalize e r.run_id r.snapshot ≡ m
      → Holds (Accepted normalize e w) (commit writable r w.disk m)
  unfolding persist_snapshot
  commit-Accepted writable (raised why) k = tt
  commit-Accepted writable (ok s) k = elim (Bool-cases (is_deleted w.disk)) [
    | inl deleted ↦ rw deleted tt
    | inr here ↦ rw here (written writable s k)
  ]

module _ (normalize : Text → Text → Option Text) (e : Emission) (w : Worker) where
  record_on-Accepted :
      (r : TaskRecord)
      → w.entry ≡ some r
      → Holds (Accepted normalize e w) (record_on normalize e w.disk r)
  record_on-Accepted r held = elim (Bool-cases (r.deleting || is_deleted w.disk)) [
    | inl gone ↦ rw gone tt
    | inr live ↦ elim (Bool-cases (superseded e.emitted_run_id r.run_id)) [
      | inl old ↦ rw (live, old) tt
      | inr current ↦
          rw (live, current) (commit-Accepted normalize e w r held live current e.writable _ refl)
    ]
  ]

  entry-Accepted :
      (entry : Option TaskRecord)
      → w.entry ≡ entry
      → Holds (Accepted normalize e w) (elim entry [
        | none ↦ raised Failure.task_deleted
        | some r ↦ record_on normalize e w.disk r
      ])
  entry-Accepted none h = tt
  entry-Accepted (some r) h = record_on-Accepted r h

  pub record_event-Accepted : Holds (Accepted normalize e w) (record_event normalize e w)
  unfolding record_event
  record_event-Accepted = entry-Accepted w.entry refl

pub Holds-at : {A : Type 0} (P : A → Type 0) (m : Result A) (a : A) → Holds P m → m ≡ ok a → P a
Holds-at P m a h e = subst (Holds P) e h
