-- ===== src/Tasks/Sound.antt =====
-- app/api/server.py: the timelines in memory and on disk, whatever happens to the thread.
use shopping_agent.Common.{
  ℕ, ◌≡◌, refl, sym, ◌∙◌, some-injective, Bool, true, false, Bool-cases, inl, inr, Option, none,
  some, Text, if◌then◌else◌, arith,
}
use shopping_agent.Tasks.{
  Status, Owner, TaskSnapshot, TaskRecord, Disk, Worker, Failure, ok, raised, is_deleted,
  persist_snapshot,
}
use shopping_agent.Tasks.Timeline.{Emission}
use shopping_agent.Tasks.Timeline.Contract.{IsTimeline}
use shopping_agent.Tasks.Timeline.Advance.{advance-IsTimeline}
use shopping_agent.Tasks.Timeline.Recorded.{Accepted, Holds-at}
use shopping_agent.Tasks.Recovery.{interrupted-IsTimeline}
use shopping_agent.Tasks.Closed.{IsClosed}
use shopping_agent.Tasks.Clarified.{read_stored}
use shopping_agent.Tasks.Commands.{
  read_persisted, recovered, recover, load_found, load_snapshot, interrupted, is_running, is_free,
}

-- The file and the record have timelines, and the same one unless the task is deleted.
pub record IsSound (w : Worker) : Type 0 where
  pub file : (s : TaskSnapshot) → w.disk.task_json ≡ some s → IsTimeline s
  pub entry : (r : TaskRecord) → w.entry ≡ some r → IsTimeline r.snapshot
  pub synced :
      (r : TaskRecord)
      → w.entry ≡ some r
      → is_deleted w.disk ≡ false
      → w.disk.task_json ≡ some r.snapshot

pub drop-IsSound : (w : Worker) → IsSound w → IsSound (record w { entry = none })
drop-IsSound w sound = record { file = sound.file; entry = λ r h. cc; synced = λ r h. cc }

pub relock-IsSound :
    (w : Worker) (o : Owner) → IsSound w → IsSound (record w { disk = record w.disk { owner = o } })
relock-IsSound w o sound = record { file = sound.file; entry = sound.entry; synced = sound.synced }

-- Another record of the same snapshot.
same-IsSound :
    (w : Worker) (r q : TaskRecord)
    → q.snapshot ≡ r.snapshot
    → w.entry ≡ some r
    → IsSound w
    → IsSound (record w { entry = some q })
same-IsSound w r q same held sound = record {
  file = sound.file;
  entry = λ p h. rw (sym (some-injective _ _ h), same) (sound.entry r held);
  synced = λ p h live. rw (sym (some-injective _ _ h), same) (sound.synced r held live);
}

-- A record of the file's snapshot.
pub stored-IsSound :
    (w : Worker) (s : TaskSnapshot) (q : TaskRecord)
    → q.snapshot ≡ s
    → w.disk.task_json ≡ some s
    → IsTimeline s
    → (file : (t : TaskSnapshot) → w.disk.task_json ≡ some t → IsTimeline t)
    → IsSound (record w { entry = some q })
stored-IsSound w s q same stored timeline file = record {
  file = file;
  entry = λ p h. rw (sym (some-injective _ _ h), same) timeline;
  synced = λ p h live. rw (sym (some-injective _ _ h), same) stored;
}

pub Accepted-IsSound :
    (normalize : Text → Text → Option Text) (e : Emission) (w next : Worker)
    → IsSound w
    → Accepted normalize e w next
    → IsSound next
Accepted-IsSound normalize e w next sound a =
    let timeline : IsTimeline a.snapshot =
      Holds-at IsTimeline _ a.snapshot
        (advance-IsTimeline a.entry.snapshot (sound.entry a.entry a.held) normalize e
          a.entry.run_id)
        a.advanced in
    rw a.recorded (
      stored-IsSound (record w { disk = record w.disk { task_json = some a.snapshot } }) a.snapshot
        _ refl refl timeline (λ t h. rw (sym (some-injective _ _ h)) timeline))

-- A disk whose file, if it changed, is a timeline, without a record.
pub unrecorded-IsSound :
    (disk : Disk)
    → ((s : TaskSnapshot) → disk.task_json ≡ some s → IsTimeline s)
    → IsSound (record { disk = disk; entry = none })
unrecorded-IsSound disk file = record { file = file; entry = λ r h. cc; synced = λ r h. cc }

if_writable-file :
    (s : TaskSnapshot) (disk : Disk) (writable : Bool)
    → IsTimeline s
    → ((t : TaskSnapshot) → disk.task_json ≡ some t → IsTimeline t)
    → (t : TaskSnapshot)
    → (recovered s disk (
        if writable
        then ok (record disk { task_json = some s })
        else raised Failure.not_persisted)).1.task_json
      ≡ some t
    → IsTimeline t
if_writable-file s disk true timeline file t h = rw (sym (some-injective _ _ h)) timeline
if_writable-file s disk false timeline file t h = file t h

recovered-file :
    (s : TaskSnapshot) (disk : Disk) (writable : Bool)
    → IsTimeline s
    → ((t : TaskSnapshot) → disk.task_json ≡ some t → IsTimeline t)
    → (t : TaskSnapshot)
    → (recovered s disk (persist_snapshot writable s disk)).1.task_json ≡ some t
    → IsTimeline t
unfolding persist_snapshot
recovered-file s disk writable timeline file = elim (Bool-cases (is_deleted disk)) [
  | inl gone ↦ rw gone file
  | inr live ↦ rw live (if_writable-file s disk writable timeline file)
]

none≢some : {r : TaskRecord} → none ≡ some r → ⊥
none≢some h = cc

recordless-IsSound :
    (w : Worker) (disk : Disk)
    → w.entry ≡ none
    → ((s : TaskSnapshot) → disk.task_json ≡ some s → IsTimeline s)
    → IsSound (record w { disk = disk })
recordless-IsSound w disk free file = record {
  file = file;
  entry = λ r h. absurd (none≢some (sym free ∙ h));
  synced = λ r h. absurd (none≢some (sym free ∙ h));
}

recover-IsSound :
    (now : ℕ) (writable : Bool) (s : TaskSnapshot) (w : Worker)
    → w.entry ≡ none
    → IsTimeline s
    → s.status ≡ Status.running
    → IsSound w
    → IsSound (record w { disk = (recover now writable s w.disk).1 })
recover-IsSound now writable s w free timeline running sound =
    recordless-IsSound w _ free (elim (Bool-cases (is_free w.disk.owner)) [
      | inl idle ↦ rw idle (
          recovered-file (interrupted now s) w.disk writable
            (interrupted-IsTimeline now s timeline running) sound.file)
      | inr held ↦ rw held sound.file
    ])

running_status : (status : Status) → is_running status ≡ true → status ≡ Status.running
running_status status h = ground (arith, h)

load_found-IsSound :
    (now : ℕ) (writable : Bool) (entry : Option TaskRecord) (stored : Option TaskSnapshot)
    (w : Worker)
    → w.entry ≡ entry
    → read_persisted w.disk ≡ stored
    → IsSound w
    → IsSound (record w { disk = (load_found now writable entry stored w.disk).1 })
load_found-IsSound now writable entry none w held read sound = sound
load_found-IsSound now writable (some r) (some s) w held read sound = sound
load_found-IsSound now writable none (some s) w held read sound =
    elim (Bool-cases (is_running s.status)) [
      | inr still ↦ rw still sound
      | inl running ↦ rw running (
          recover-IsSound now writable s w held (sound.file s (read_stored w.disk s read))
            (running_status s.status running) sound)
    ]

pub load-IsSound :
    (now : ℕ) (writable : Bool) (w : Worker) → IsSound w → IsSound (load_snapshot now writable w).1
unfolding load_snapshot
load-IsSound now writable w sound =
    load_found-IsSound now writable w.entry (read_persisted w.disk) w refl refl sound

pub IsSound-IsClosed : (normalize : Text → Text → Option Text) → IsClosed normalize IsSound
IsSound-IsClosed normalize = record {
  relock = relock-IsSound;
  drop = drop-IsSound;
  mark = λ w r handle finished held sound. same-IsSound w r _ refl held sound;
  adopts = λ w s stored sound. stored-IsSound w s _ refl stored (sound.file s stored) sound.file;
  loads = load-IsSound;
  emits = Accepted-IsSound normalize;
}
