-- ===== src/Tasks/Buried.antt =====
-- app/api/server.py: the tombstone and the file of a deleted task are kept by every endpoint.
use shopping_agent.Common.{
  ℕ, ◌≡◌, refl, Bool, true, false, ◌||◌, inl, ◌⊎◌, Option, none, some, Text, if◌then◌else◌, arith,
}
use shopping_agent.Tasks.{
  TaskSnapshot, TaskTombstone, TaskRecord, Disk, Worker, Result, ok, raised, is_deleted,
}
use shopping_agent.Tasks.Timeline.{Emission, kept}
use shopping_agent.Tasks.Timeline.Contract.{Holds}
use shopping_agent.Tasks.Timeline.Recorded.{Accepted}
use shopping_agent.Tasks.Runtime.{Release, Begun, begun}
use shopping_agent.Tasks.Access.{Principal, Identity, Refusal, Reply, done, refused}
use shopping_agent.Tasks.Commands.{prune_records, get_task, release_owner, drop_if, prune_entry}
use shopping_agent.Tasks.Lifecycle.{
  Server, Creation, create_as, create_begun, create_ready, create_pruned,
}
use shopping_agent.Tasks.Deletion.{
  Deletion, TaskDeleteResponse, delete_as, delete_marked, unowned, if_owner, erase,
}

-- The task is deleted by this tombstone, and its file is the one from before or is not there.
pub record IsGone (t : TaskTombstone) (before : Option TaskSnapshot) (disk : Disk) : Type 0 where
  pub tombstone : disk.tombstone ≡ some t
  pub file : (disk.task_json ≡ none) ⊎ (disk.task_json ≡ before)

pub live_not_deleted : (a b : Bool) → (a || b) ≡ false → b ≡ true → ⊥
live_not_deleted a b h k = ground (arith, h, k)

module _ (t : TaskTombstone) (before : Option TaskSnapshot) where
  pub release-IsGone :
      (b : Bool) (disk : Disk) → IsGone t before disk → IsGone t before (release_owner b disk)
  release-IsGone true disk gone = record { tombstone = gone.tombstone; file = gone.file }
  release-IsGone false disk gone = gone

  pub deleted_by : (disk : Disk) → IsGone t before disk → is_deleted disk ≡ true
  deleted_by disk gone = rw (gone.tombstone) refl

  pub if_deleted :
      {A : Type 0} (disk : Disk)
      → IsGone t before disk
      → (x y : A) → (if is_deleted disk then x else y) ≡ x
  if_deleted disk gone x y = rw (deleted_by disk gone) refl

  pub drop_if-IsGone :
      (b : Bool) (r : TaskRecord) (w : Worker)
      → IsGone t before w.disk
      → IsGone t before (drop_if b r w).disk
  drop_if-IsGone true r w gone = release-IsGone r.owner_handle w.disk gone
  drop_if-IsGone false r w gone = gone

  pub prune-IsGone :
      (cutoff : ℕ) (entry : Option TaskRecord) (w : Worker)
      → IsGone t before w.disk
      → IsGone t before (prune_entry cutoff entry w).disk
  prune-IsGone cutoff none w gone = gone
  prune-IsGone cutoff (some r) w gone = drop_if-IsGone _ r w gone

  pub unowned-IsGone :
      (entry : Option TaskRecord) (disk : Disk)
      → IsGone t before disk
      → IsGone t before (unowned entry disk)
  unowned-IsGone none disk gone = gone
  unowned-IsGone (some r) disk gone = release-IsGone r.owner_handle disk gone

  pub erase-IsGone :
      (removable : Bool) (srv : Server)
      → IsGone t before srv.worker.disk
      → IsGone t before (erase removable srv).1.worker.disk
  erase-IsGone true srv gone =
      let before_removal = unowned-IsGone srv.worker.entry srv.worker.disk gone in
      record { tombstone = before_removal.tombstone; file = inl refl }
  erase-IsGone false srv gone = unowned-IsGone srv.worker.entry srv.worker.disk gone

  pub create_begun-IsGone :
      (c : Creation) (principal : Option Principal) (srv : Server) (b : Begun)
      → IsGone t before srv.worker.disk
      → IsGone t before (create_begun c principal srv b).1.worker.disk
  create_begun-IsGone c principal srv (begun control) gone =
      rw (deleted_by srv.worker.disk gone) gone
  create_begun-IsGone c principal srv _ gone = gone

  pub create_pruned-IsGone :
      (release : Release) (c : Creation) (principal : Option Principal) (uploads : Bool)
      (srv : Server)
      → IsGone t before srv.worker.disk
      → IsGone t before (create_pruned release c principal uploads srv).1.worker.disk
  create_pruned-IsGone release c principal false srv gone = gone
  create_pruned-IsGone release c principal true srv gone =
      create_begun-IsGone c principal srv _ gone

  pub create_ready-IsGone :
      (release : Release) (c : Creation) (principal : Option Principal) (ready : Bool)
      (srv : Server)
      → IsGone t before srv.worker.disk
      → IsGone t before (create_ready release c principal ready srv).1.worker.disk
  unfolding prune_records
  create_ready-IsGone release c principal false srv gone = gone
  create_ready-IsGone release c principal true srv gone =
      create_pruned-IsGone release c principal c.uploads_found _
        (prune-IsGone c.cutoff srv.worker.entry srv.worker gone)

  pub create_as-IsGone :
      (release : Release) (c : Creation) (srv : Server) (reply : Reply (Option Principal))
      → IsGone t before srv.worker.disk
      → IsGone t before (create_as release c srv reply).1.worker.disk
  create_as-IsGone release c srv (refused why) gone = gone
  create_as-IsGone release c srv (done principal) gone =
      create_ready-IsGone release c principal c.task_ready srv gone

  pub if_owner-IsGone :
      (reply : Reply (Option Principal)) (owner : Bool) (srv : Server)
      (next : Reply TaskDeleteResponse × Server)
      → IsGone t before srv.worker.disk
      → IsGone t before next.1.worker.disk
      → IsGone t before (if_owner reply owner srv next).1.worker.disk
  if_owner-IsGone (refused why) owner srv next gone kept = gone
  if_owner-IsGone (done principal) true srv next gone kept = kept
  if_owner-IsGone (done principal) false srv next gone kept = gone

  pub delete_marked-IsGone :
      (d : Deletion) (mark : Option TaskTombstone) (srv : Server)
      → mark ≡ some t
      → IsGone t before srv.worker.disk
      → IsGone t before (delete_marked d mark srv).1.worker.disk
  delete_marked-IsGone d none srv marked gone = cc
  delete_marked-IsGone d (some u) srv marked gone =
      if_owner-IsGone _ _ srv _ gone (erase-IsGone d.removable srv gone)

  pub delete_as-IsGone :
      (d : Deletion) (srv : Server) (reply : Reply (Option Principal))
      → IsGone t before srv.worker.disk
      → IsGone t before (delete_as d srv reply).1.worker.disk
  delete_as-IsGone d srv (refused why) gone = gone
  delete_as-IsGone d srv (done principal) gone =
      delete_marked-IsGone d srv.worker.disk.tombstone srv gone.tombstone gone

  pub get_task-IsGone :
      (now : ℕ) (writable : Bool) (identity : Identity) (w : Worker)
      → IsGone t before w.disk
      → get_task now writable identity w ≡ (refused Refusal.task_not_found, w)
  unfolding get_task
  get_task-IsGone now writable identity w gone = rw (deleted_by w.disk gone) refl

  pub kept-IsGone :
      (normalize : Text → Text → Option Text) (e : Emission) (w : Worker) (m : Result Worker)
      → IsGone t before w.disk
      → Holds (Accepted normalize e w) m
      → IsGone t before (kept w m).disk
  kept-IsGone normalize e w (raised why) gone a = gone
  kept-IsGone normalize e w (ok next) gone a =
      absurd (live_not_deleted a.entry.deleting (is_deleted w.disk) a.live (deleted_by w.disk gone))
