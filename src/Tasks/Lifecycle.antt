-- ===== src/Tasks/Lifecycle.antt =====
-- app/api/server.py: the endpoints that create and delete a task. The lock of the thread id is held and
-- the id is well formed.
use shopping_agent.Common.{ℕ, Bool, true, false, Option, none, some, [], Text, codes, if◌then◌else◌}
use shopping_agent.Tasks.{
  Status, DataMode, TaskSnapshot, TaskTombstone, Owner, Disk, TaskRecord, Worker, Result, ok,
  raised, is_terminal, is_deleted, persist_snapshot,
}
use shopping_agent.Tasks.Runtime.{Release, RuntimeControl, Begun, begun, begin_task, finish_task}
use shopping_agent.Tasks.Access.{
  Principal, Identity, Refusal, Reply, done, refused, request_principal,
}
use shopping_agent.Tasks.Commands.{release_owner, is_free, prune_records, read_persisted}

pub record Server : Type 0 where
  pub worker : Worker
  pub control : RuntimeControl

-- A `TaskRequest` and what the environment answers: the readiness, the uploads, the images' copies, the
-- writing of the snapshot, and the tombstone that another worker writes between the two tests for one.
pub record Creation : Type 0 where
  pub user_id : Text
  pub identity : Identity
  pub data_mode : DataMode
  pub run_id : Text
  pub bucket : ℕ
  pub cutoff : ℕ
  pub now : ℕ
  pub task_ready : Bool
  pub uploads_found : Bool
  pub images_bound : Bool
  pub deleted_meanwhile : Option TaskTombstone
  pub writable : Bool

abbrev pub tenant_of : Option Principal → Text
tenant_of none = codes "default"
tenant_of (some principal) = principal.tenant_id

abbrev pub new_snapshot : Creation → Option Principal → TaskSnapshot
new_snapshot c principal = record {
  run_id = c.run_id;
  generation = 0;
  status = Status.running;
  user_id = c.user_id;
  tenant_id = tenant_of principal;
  data_mode = c.data_mode;
  updated_at = c.now;
  resolved_query = none;
  events = [];
  result = none;
  clarification = none;
  clarification_answers = [];
  error_code = none;
  error_message = none;
}

abbrev pub is_ended : Option TaskSnapshot → Bool
is_ended none = false
is_ended (some s) = is_terminal s.status

-- The snapshot that must not be replaced, if it is terminal: the record's, or the stored one.
abbrev pub immutable : Worker → Bool
immutable w = elim w.entry [
  | none ↦ is_ended (read_persisted w.disk)
  | some r ↦ is_terminal r.snapshot.status
]

-- The cancelled task of the popped record finds no record, releases its lock and is counted off.
abbrev pub stop : TaskRecord → Server → Server
stop r srv = record {
  worker = record { disk = release_owner r.owner_handle srv.worker.disk; entry = none };
  control = finish_task srv.control;
}

abbrev pub stop_unless : Bool → TaskRecord → Server → Server
stop_unless true r srv = srv
stop_unless false r srv = stop r srv

abbrev pub stop_entry : Option TaskRecord → Server → Server
stop_entry none srv = srv
stop_entry (some r) srv = stop_unless r.task_done r srv

-- The previous run is stopped unless it is done.
abbrev pub stop_previous : Server → Server
stop_previous srv = stop_entry srv.worker.entry srv

abbrev pub owned : Disk → Disk
owned disk = record disk { owner = Owner.here }

-- What another worker has done to the thread.
abbrev pub meanwhile : Option TaskTombstone → Server → Server
meanwhile none srv = srv
meanwhile (some t) srv = record srv {
  worker = record srv.worker { disk = record srv.worker.disk { tombstone = some t } };
}

-- The `except Exception` of the inner block. A directory that it removes was made there and has no
-- snapshot; the owner lock is released.
abbrev pub failed : Refusal → Server → Reply Text × Server
failed why srv = (refused why, record srv { control = finish_task srv.control })

-- What follows the writing of the snapshot.
abbrev pub started : TaskSnapshot → Server → Result Disk → Reply Text × Server
started s srv (raised why) = failed Refusal.storage_failed srv
started s srv (ok disk) =
    let entry : TaskRecord = record {
      run_id = s.run_id;
      snapshot = s;
      owner_handle = true;
      task_done = false;
      deleting = false;
    } in
    (done s.run_id, record srv { worker = record { disk = disk; entry = some entry } })

-- The inner block, under the owner lock.
abbrev pub start : Creation → TaskSnapshot → Server → Reply Text × Server
start c s srv =
    if is_deleted srv.worker.disk
    then failed Refusal.task_deleted srv
    else if c.images_bound
    then started s srv (persist_snapshot c.writable s (owned srv.worker.disk))
    else failed Refusal.images_not_bound srv

abbrev pub claim : Creation → TaskSnapshot → Server → Reply Text × Server
claim c s srv =
    if is_free srv.worker.disk.owner
    then start c s (meanwhile c.deleted_meanwhile srv)
    else (refused Refusal.task_active_elsewhere, srv)

-- The body under the lock of the thread, `begin_task` having counted the task.
abbrev pub create_locked : Creation → Option Principal → Server → Reply Text × Server
create_locked c principal srv =
    if is_deleted srv.worker.disk
    then (refused Refusal.task_deleted, srv)
    else if immutable srv.worker
    then (refused Refusal.thread_id_immutable, srv)
    else claim c (new_snapshot c principal) (stop_previous srv)

abbrev pub create_begun : Creation → Option Principal → Server → Begun → Reply Text × Server
create_begun c principal srv (begun control) =
    create_locked c principal (record srv { control = control })
create_begun c principal srv _ = (refused Refusal.runtime_not_accepting, srv)

abbrev pub create_pruned :
    Release → Creation → Option Principal → Bool → Server → Reply Text × Server
create_pruned release c principal false srv = (refused Refusal.upload_not_found, srv)
create_pruned release c principal true srv =
    create_begun c principal srv (begin_task release c.bucket srv.control)

abbrev pub create_ready :
    Release → Creation → Option Principal → Bool → Server → Reply Text × Server
create_ready release c principal false srv = (refused Refusal.runtime_not_ready, srv)
create_ready release c principal true srv =
    create_pruned release c principal c.uploads_found
      (record srv { worker = prune_records c.cutoff srv.worker })

abbrev pub create_as : Release → Creation → Server → Reply (Option Principal) → Reply Text × Server
create_as release c srv (refused why) = (refused why, srv)
create_as release c srv (done principal) = create_ready release c principal c.task_ready srv

-- `create_task`. The reply's thread id is fixed here, and the run's id is given in its place.
unfoldable pub create_task : Release → Creation → Server → Reply Text × Server
unfolding begin_task finish_task prune_records persist_snapshot request_principal
create_task release c srv = create_as release c srv (request_principal c.identity (some c.user_id))
