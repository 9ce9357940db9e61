-- ===== src/Tasks/Deletion.antt =====
-- app/api/server.py: the endpoint that deletes a task. The lock of the thread id is held and the id is
-- well formed.
use shopping_agent.Common.{◌+◌, Bool, false, Option, none, some, Text, text_eq, max, if◌then◌else◌}
use shopping_agent.Tasks.{TaskSnapshot, TaskTombstone, Owner, Disk, TaskRecord, Worker}
use shopping_agent.Tasks.Runtime.{RuntimeControl, finish_task}
use shopping_agent.Tasks.Access.{
  Principal, Identity, Refusal, Reply, done, refused, request_principal, authorize_snapshot,
  authorize_tombstone,
}
use shopping_agent.Tasks.Commands.{release_owner, read_persisted}
use shopping_agent.Tasks.Lifecycle.{Server}

-- The command, and what the environment answers: whether the directory exists, the tombstone can be
-- written and the directory can be removed.
pub record Deletion : Type 0 where
  pub user_id : Text
  pub identity : Identity
  pub directory_exists : Bool
  pub tombstone_writable : Bool
  pub removable : Bool

pub data TaskDeleteResponse : Type 0 where
  deleted : TaskDeleteResponse

-- `_write_tombstone`, of a task without one.
abbrev pub new_tombstone : TaskSnapshot → TaskTombstone
new_tombstone s = record {
  user_id = some s.user_id;
  tenant_id = s.tenant_id;
  generation = max 1 (s.generation + 1);
}

abbrev pub is_owner : Text → Option Text → Bool
is_owner requested none = false
is_owner requested (some owner) = text_eq requested owner

-- The snapshot that the deletion is about.
abbrev pub target : Worker → Option TaskSnapshot
target w = elim w.entry [ none ↦ read_persisted w.disk | some r ↦ some r.snapshot ]

-- The run is cancelled unless it is done, and its callback counts it off.
abbrev pub stopped : Option TaskRecord → RuntimeControl → RuntimeControl
stopped none control = control
stopped (some r) control = if r.task_done then control else finish_task control

abbrev pub unowned : Option TaskRecord → Disk → Disk
unowned none disk = disk
unowned (some r) disk = release_owner r.owner_handle disk

abbrev pub removed : Disk → Disk
removed disk = record disk { task_json = none; owner = Owner.free }

-- After the tombstone is there: the run is stopped, the record dropped, the directory removed and then
-- the control files.
abbrev pub erase : Bool → Server → Reply TaskDeleteResponse × Server
erase removable srv =
    let disk = unowned srv.worker.entry srv.worker.disk in
    let control = stopped srv.worker.entry srv.control in
    if removable
    then (
      done deleted,
      record { worker = record { disk = removed disk; entry = none }; control = control },
    )
    else (
      refused Refusal.task_deletion_failed,
      record { worker = record { disk = disk; entry = none }; control = control },
    )

abbrev pub buried : TaskTombstone → Server → Server
buried t srv = record srv {
  worker = record srv.worker { disk = record srv.worker.disk { tombstone = some t } };
}

abbrev pub bury : Deletion → TaskSnapshot → Server → Reply TaskDeleteResponse × Server
bury d s srv =
    if d.tombstone_writable
    then erase d.removable (buried (new_tombstone s) srv)
    else (refused Refusal.storage_failed, srv)

-- The authorization and then the comparison with the declared user.
abbrev pub if_owner :
    Reply (Option Principal)
    → Bool
    → Server
    → Reply TaskDeleteResponse × Server
    → Reply TaskDeleteResponse × Server
if_owner (refused why) owner srv next = (refused why, srv)
if_owner (done principal) owner srv next =
    if owner then next else (refused Refusal.task_not_found, srv)

abbrev pub delete_live : Deletion → Option TaskSnapshot → Server → Reply TaskDeleteResponse × Server
delete_live d (some s) srv =
    if_owner (authorize_snapshot s d.identity (some d.user_id)) (text_eq d.user_id s.user_id) srv
      (bury d s srv)
delete_live d none srv =
    if d.directory_exists then (refused Refusal.task_not_found, srv) else (done deleted, srv)

abbrev pub delete_marked :
    Deletion → Option TaskTombstone → Server → Reply TaskDeleteResponse × Server
delete_marked d (some t) srv =
    if_owner (authorize_tombstone t d.identity (some d.user_id)) (is_owner d.user_id t.user_id) srv
      (erase d.removable srv)
delete_marked d none srv = delete_live d (target srv.worker) srv

abbrev pub delete_as :
    Deletion → Server → Reply (Option Principal) → Reply TaskDeleteResponse × Server
delete_as d srv (refused why) = (refused why, srv)
delete_as d srv (done principal) = delete_marked d srv.worker.disk.tombstone srv

-- `delete_task`
unfoldable pub delete_task : Deletion → Server → Reply TaskDeleteResponse × Server
unfolding finish_task request_principal authorize_snapshot authorize_tombstone text_eq
delete_task d srv = delete_as d srv (request_principal d.identity (some d.user_id))
