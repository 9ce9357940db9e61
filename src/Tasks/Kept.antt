-- ===== src/Tasks/Kept.antt =====
-- app/api/server.py: every action keeps the timelines sound.
use shopping_agent.Common.{
  ℕ, ◌≡◌, refl, sym, ◌∙◌, some-injective, Bool, true, false, Bool-cases, inl, inr, Option, none,
  some, Text, if◌then◌else◌,
}
use shopping_agent.Tasks.{
  Owner, TaskSnapshot, TaskTombstone, TaskRecord, Disk, Worker, Failure, Result, ok, raised,
  is_deleted, persist_snapshot,
}
use shopping_agent.Tasks.Timeline.{Emission, kept}
use shopping_agent.Tasks.Timeline.Contract.{IsTimeline, Holds}
use shopping_agent.Tasks.Timeline.Recorded.{Accepted}
use shopping_agent.Tasks.Runtime.{Release, Begun, begun}
use shopping_agent.Tasks.Access.{Principal, Reply, done, refused}
use shopping_agent.Tasks.Commands.{release_owner, drop_if, prune_entry, prune_records, is_free}
use shopping_agent.Tasks.Lifecycle.{
  Server, Creation, new_snapshot, stop_unless, stop_entry, stop_previous, owned, started, start,
  meanwhile, claim, create_locked, create_begun, create_pruned, create_ready, create_as, immutable,
}
use shopping_agent.Tasks.Deletion.{
  Deletion, TaskDeleteResponse, unowned, erase, buried, bury, if_owner, delete_live, delete_marked,
  delete_as, target, new_tombstone,
}
use shopping_agent.Tasks.Created.{new-IsTimeline}
use shopping_agent.Tasks.Sound.{
  IsSound, drop-IsSound, relock-IsSound, stored-IsSound, unrecorded-IsSound, Accepted-IsSound,
}

release-IsSound :
    (b : Bool) (w : Worker) → IsSound w → IsSound (record w { disk = release_owner b w.disk })
release-IsSound true w sound = relock-IsSound w Owner.free sound
release-IsSound false w sound = sound

drop_if-IsSound : (b : Bool) (r : TaskRecord) (w : Worker) → IsSound w → IsSound (drop_if b r w)
drop_if-IsSound true r w sound = drop-IsSound _ (release-IsSound r.owner_handle w sound)
drop_if-IsSound false r w sound = sound

pub prune-IsSound :
    (cutoff : ℕ) (entry : Option TaskRecord) (w : Worker)
    → IsSound w
    → IsSound (prune_entry cutoff entry w)
prune-IsSound cutoff none w sound = sound
prune-IsSound cutoff (some r) w sound = drop_if-IsSound _ r w sound

pub kept-IsSound :
    (normalize : Text → Text → Option Text) (e : Emission) (w : Worker) (m : Result Worker)
    → IsSound w
    → Holds (Accepted normalize e w) m
    → IsSound (kept w m)
kept-IsSound normalize e w (raised why) sound a = sound
kept-IsSound normalize e w (ok next) sound a = Accepted-IsSound normalize e w next sound a

-- The worker after an operation.
abbrev pub After : {A : Type 0} → Reply A × Server → Type 0
After result = IsSound result.1.worker

-- A tombstone forgets that record and file agree.
meanwhile-IsSound :
    (t : Option TaskTombstone) (srv : Server)
    → IsSound srv.worker
    → IsSound (meanwhile t srv).worker
meanwhile-IsSound none srv sound = sound
meanwhile-IsSound (some t) srv sound = record {
  file = sound.file;
  entry = sound.entry;
  synced = λ r h live. absurd cc;
}

module _ (s : TaskSnapshot) (timeline : IsTimeline s) where
  if_writable-After :
      (writable : Bool) (srv : Server) (disk : Disk)
      → IsSound srv.worker
      → After (
          started s srv (
            if writable
            then ok (record disk { task_json = some s })
            else raised Failure.not_persisted))
  if_writable-After false srv disk sound = sound
  if_writable-After true srv disk sound =
      stored-IsSound (record { disk = record disk { task_json = some s }; entry = none }) s _ refl
        refl timeline (λ t h. rw (sym (some-injective _ _ h)) timeline)

  started-After :
      (writable : Bool) (srv : Server) (disk : Disk)
      → IsSound srv.worker
      → After (started s srv (persist_snapshot writable s disk))
  unfolding persist_snapshot
  started-After writable srv disk sound = elim (Bool-cases (is_deleted disk)) [
    | inl gone ↦ rw gone sound
    | inr live ↦ rw live (if_writable-After writable srv disk sound)
  ]

  start-After : (c : Creation) (srv : Server) → IsSound srv.worker → After (start c s srv)
  start-After c srv sound = elim (Bool-cases (is_deleted srv.worker.disk)) [
    | inl gone ↦ rw gone sound
    | inr live ↦ elim (Bool-cases c.images_bound) [
      | inr lost ↦ rw (live, lost) sound
      | inl bound ↦ rw (live, bound) (started-After c.writable srv (owned srv.worker.disk) sound)
    ]
  ]

  claim-After : (c : Creation) (srv : Server) → IsSound srv.worker → After (claim c s srv)
  claim-After c srv sound = elim (Bool-cases (is_free srv.worker.disk.owner)) [
    | inr held ↦ rw held sound
    | inl idle ↦ rw idle (
        start-After c (meanwhile c.deleted_meanwhile srv)
          (meanwhile-IsSound c.deleted_meanwhile srv sound))
  ]

stop_unless-IsSound :
    (finished : Bool) (r : TaskRecord) (srv : Server)
    → IsSound srv.worker
    → IsSound (stop_unless finished r srv).worker
stop_unless-IsSound true r srv sound = sound
stop_unless-IsSound false r srv sound =
    drop-IsSound _ (release-IsSound r.owner_handle srv.worker sound)

stop_entry-IsSound :
    (entry : Option TaskRecord) (srv : Server)
    → IsSound srv.worker
    → IsSound (stop_entry entry srv).worker
stop_entry-IsSound none srv sound = sound
stop_entry-IsSound (some r) srv sound = stop_unless-IsSound r.task_done r srv sound

module _ (c : Creation) (p : Option Principal) where
  locked-After : (srv : Server) → IsSound srv.worker → After (create_locked c p srv)
  locked-After srv sound = elim (Bool-cases (is_deleted srv.worker.disk)) [
    | inl gone ↦ rw gone sound
    | inr live ↦ elim (Bool-cases (immutable srv.worker)) [
      | inl ended ↦ rw (live, ended) sound
      | inr fresh ↦
          rw (live, fresh)
            (claim-After (new_snapshot c p) (new-IsTimeline c p) c (stop_previous srv)
              (stop_entry-IsSound srv.worker.entry srv sound))
    ]
  ]

  begun-After : (srv : Server) (b : Begun) → IsSound srv.worker → After (create_begun c p srv b)
  begun-After srv (begun control) sound = locked-After (record srv { control = control }) sound
  begun-After srv _ sound = sound

  pruned-After :
      (release : Release) (uploads : Bool) (srv : Server)
      → IsSound srv.worker
      → After (create_pruned release c p uploads srv)
  pruned-After release false srv sound = sound
  pruned-After release true srv sound = begun-After srv _ sound

  ready-After :
      (release : Release) (ready : Bool) (srv : Server)
      → IsSound srv.worker
      → After (create_ready release c p ready srv)
  unfolding prune_records
  ready-After release false srv sound = sound
  ready-After release true srv sound =
      pruned-After release c.uploads_found _
        (prune-IsSound c.cutoff srv.worker.entry srv.worker sound)

pub create_as-After :
    (release : Release) (c : Creation) (srv : Server) (reply : Reply (Option Principal))
    → IsSound srv.worker
    → After (create_as release c srv reply)
create_as-After release c srv (refused why) sound = sound
create_as-After release c srv (done p) sound = ready-After c p release c.task_ready srv sound

released_file : (b : Bool) (disk : Disk) → (release_owner b disk).task_json ≡ disk.task_json
released_file true disk = refl
released_file false disk = refl

unowned_file :
    (entry : Option TaskRecord) (disk : Disk) → (unowned entry disk).task_json ≡ disk.task_json
unowned_file none disk = refl
unowned_file (some r) disk = released_file r.owner_handle disk

erase-After :
    (removable : Bool) (srv : Server)
    → ((s : TaskSnapshot) → srv.worker.disk.task_json ≡ some s → IsTimeline s)
    → After (erase removable srv)
erase-After true srv file = unrecorded-IsSound _ (λ s h. cc)
erase-After false srv file =
    unrecorded-IsSound _ (λ s h. file s (sym (unowned_file srv.worker.entry srv.worker.disk) ∙ h))

bury-After :
    (d : Deletion) (s : TaskSnapshot) (srv : Server) → IsSound srv.worker → After (bury d s srv)
bury-After d s srv sound = elim (Bool-cases d.tombstone_writable) [
  | inl writable ↦ rw writable (erase-After d.removable (buried (new_tombstone s) srv) sound.file)
  | inr full ↦ rw full sound
]

if_owner-After :
    (reply : Reply (Option Principal)) (owner : Bool) (srv : Server)
    (next : Reply TaskDeleteResponse × Server)
    → IsSound srv.worker
    → After next
    → After (if_owner reply owner srv next)
if_owner-After (refused why) owner srv next sound after = sound
if_owner-After (done p) true srv next sound after = after
if_owner-After (done p) false srv next sound after = sound

live-After :
    (d : Deletion) (found : Option TaskSnapshot) (srv : Server)
    → IsSound srv.worker
    → After (delete_live d found srv)
live-After d (some s) srv sound = if_owner-After _ _ srv _ sound (bury-After d s srv sound)
live-After d none srv sound = elim (Bool-cases d.directory_exists) [
  | inl there ↦ rw there sound
  | inr absent ↦ rw absent sound
]

marked-After :
    (d : Deletion) (mark : Option TaskTombstone) (srv : Server)
    → IsSound srv.worker
    → After (delete_marked d mark srv)
marked-After d none srv sound = live-After d (target srv.worker) srv sound
marked-After d (some t) srv sound =
    if_owner-After _ _ srv _ sound (erase-After d.removable srv sound.file)

pub delete_as-After :
    (d : Deletion) (srv : Server) (reply : Reply (Option Principal))
    → IsSound srv.worker
    → After (delete_as d srv reply)
delete_as-After d srv (refused why) sound = sound
delete_as-After d srv (done p) sound = marked-After d srv.worker.disk.tombstone srv sound
