-- ===== src/Tasks/Commands.antt =====
-- app/api/server.py: reading a task, with the recovery of one whose worker was restarted. The lock of the
-- thread id is held and the id is well formed.
use shopping_agent.Common.{
  ℕ, ◌+◌, Bool, true, false, ◌&&◌, Option, none, some, [], ◌∷◌, ◌++◌, Text, codes, ltb,
  if◌then◌else◌,
}
use shopping_agent.Tasks.{
  Status, EventName, Payload, MonitorEvent, TaskSnapshot, Owner, Disk, TaskRecord, Worker, Failure,
  Result, ok, raised, is_deleted, persist_snapshot,
}
use shopping_agent.Tasks.Timeline.{last_sequence}
use shopping_agent.Tasks.Access.{
  Principal, Identity, Refusal, Reply, done, refused, authorize_snapshot,
}

-- `_release_lock_handle`, if there is a handle.
abbrev pub release_owner : Bool → Disk → Disk
release_owner false disk = disk
release_owner true disk = record disk { owner = Owner.free }

-- `_try_acquire_owner_lock`; another handle of the same process excludes it, too.
abbrev pub is_free : Owner → Bool
is_free Owner.free = true
is_free _ = false

abbrev pub drop_if : Bool → TaskRecord → Worker → Worker
drop_if true r w = record { disk = release_owner r.owner_handle w.disk; entry = none }
drop_if false r w = w

abbrev pub prune_entry : ℕ → Option TaskRecord → Worker → Worker
prune_entry cutoff none w = w
prune_entry cutoff (some r) w = drop_if (r.task_done && ltb r.snapshot.updated_at cutoff) r w

-- `_prune_records`: drops the record of a task that is done and older than the cutoff.
unfoldable pub prune_records : ℕ → Worker → Worker
prune_records cutoff w = prune_entry cutoff w.entry w

-- `_read_persisted_snapshot`
abbrev pub read_persisted : Disk → Option TaskSnapshot
read_persisted disk = if is_deleted disk then none else disk.task_json

abbrev pub interrupted_message : Text
interrupted_message = codes "研究服务已重启，这次任务未能继续，请重新提交"

abbrev pub interrupted_event : ℕ → TaskSnapshot → MonitorEvent
interrupted_event now s = record {
  run_id = s.run_id;
  sequence = last_sequence 0 s.events + 1;
  event = EventName.error;
  message = interrupted_message;
  data_of = Payload.failure (some (codes "task_interrupted"));
  data_mode = s.data_mode;
  timestamp = now;
}

-- A running snapshot that no worker owns any more.
abbrev pub interrupted : ℕ → TaskSnapshot → TaskSnapshot
interrupted now s = record s {
  status = Status.error;
  updated_at = now;
  events = s.events ++ interrupted_event now s ∷ [];
  error_code = some (codes "task_interrupted");
  error_message = some interrupted_message;
}

-- What was read, or that the recovery could not be written.
pub data Loaded : Type 0 where
  found : TaskSnapshot → Loaded
  missing unreadable : Loaded

abbrev pub recovered : TaskSnapshot → Disk → Result Disk → Loaded × Disk
recovered s disk (ok next) = (found s, next)
recovered s disk (raised Failure.task_deleted) = (missing, disk)
recovered s disk (raised _) = (unreadable, disk)

abbrev pub recover : ℕ → Bool → TaskSnapshot → Disk → Loaded × Disk
recover now writable s disk =
    if is_free disk.owner
    then recovered (interrupted now s) disk (persist_snapshot writable (interrupted now s) disk)
    else (found s, disk)

abbrev pub is_running : Status → Bool
is_running Status.running = true
is_running _ = false

abbrev pub load_found : ℕ → Bool → Option TaskRecord → Option TaskSnapshot → Disk → Loaded × Disk
load_found now writable entry none disk = (missing, disk)
load_found now writable none (some s) disk =
    if is_running s.status then recover now writable s disk else (found s, disk)
load_found now writable (some r) (some s) disk = (found s, disk)

-- `_load_snapshot`: the snapshot or the SnapshotPersistenceError, and the disk. The owner lock is taken and released inside.
unfoldable pub load_snapshot : ℕ → Bool → Worker → Loaded × Worker
unfolding persist_snapshot
load_snapshot now writable w =
    let loaded = load_found now writable w.entry (read_persisted w.disk) w.disk in
    (loaded.0, record w { disk = loaded.1 })

abbrev pub shown_to : TaskSnapshot → Reply (Option Principal) → Reply TaskSnapshot
shown_to s (refused why) = refused why
shown_to s (done principal) = done s

abbrev pub shown : Identity → TaskSnapshot → Reply TaskSnapshot
shown identity s = shown_to s (authorize_snapshot s identity none)

abbrev pub shown_loaded : Identity → Loaded → Reply TaskSnapshot
shown_loaded identity missing = refused Refusal.task_not_found
shown_loaded identity unreadable = refused Refusal.storage_failed
shown_loaded identity (found s) = shown identity s

abbrev pub get_loaded : Identity → Loaded × Worker → Reply TaskSnapshot × Worker
get_loaded identity (loaded, w) = (shown_loaded identity loaded, w)

abbrev pub get_record :
    ℕ → Bool → Identity → Option TaskRecord → Worker → Reply TaskSnapshot × Worker
get_record now writable identity none w = get_loaded identity (load_snapshot now writable w)
get_record now writable identity (some r) w =
    (if r.deleting then refused Refusal.task_not_found else shown identity r.snapshot, w)

-- `get_task`
unfoldable pub get_task : ℕ → Bool → Identity → Worker → Reply TaskSnapshot × Worker
unfolding load_snapshot authorize_snapshot
get_task now writable identity w =
    if is_deleted w.disk
    then (refused Refusal.task_not_found, w)
    else get_record now writable identity w.entry w
