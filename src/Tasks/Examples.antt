-- ===== src/Tasks/Examples.antt =====
-- A task that is created, asks a question, is completed, cancelled, deleted and found again after a restart.
use shopping_agent.Common.{
  ℕ, ◌+◌, ◌≡◌, refl, true, false, Option, none, some, List, [], ◌∷◌, ◌++◌, map, Text, codes,
  text_eq, length,
}
use shopping_agent.Tasks.{
  Status, EventName, DataMode, Payload, Summary, TaskSnapshot, TaskTombstone, Owner, TaskRecord,
  Worker,
}
use shopping_agent.Tasks.Timeline.{Emission, record_event, record_all, kept}
use shopping_agent.Tasks.Timeline.Contract.{IsTimeline, replay}
use shopping_agent.Tasks.Sound.{IsSound}
use shopping_agent.Tasks.Always.{perform_all-IsSound}
use shopping_agent.Tasks.Timeline.Final.{outcome, EndedAs, record_all-final, cancellation}
use shopping_agent.Tasks.Timeline.Ending.{HasEnded, record_all-endable}
use shopping_agent.Tasks.Runtime.{Channel, Release, selected_for, begin_task}
use shopping_agent.Tasks.Access.{Identity, Refusal, done, refused}
use shopping_agent.Tasks.Commands.{found, load_snapshot, get_task}
use shopping_agent.Tasks.Lifecycle.{Server, Creation, new_snapshot, create_task}
use shopping_agent.Tasks.Deletion.{TaskDeleteResponse, delete_task}
use shopping_agent.Tasks.Actions.{emit, create, restart, perform_all}
use shopping_agent.Tasks.Buried.{IsGone}
use shopping_agent.Tasks.Gone.{perform_all_deleted}
use shopping_agent.Tasks.Recovery.{abandoned, load_snapshot-recovers}
use shopping_agent.Tasks.Created.{create_task-get_task}
use shopping_agent.Tasks.Counted.{create_task-counted}
use shopping_agent.Tasks.Gate.{is_begun, begin_task-selected_for}

abbrev release : Release
release = record { channel = Channel.canary; traffic_percent = 50; rollback = false }

abbrev ada : Identity
ada = record {
  auth_enabled = true;
  principal = some (record { user_id = codes "ada"; tenant_id = codes "lab" });
}

abbrev request : Creation
request = record {
  user_id = codes "ada";
  identity = ada;
  data_mode = DataMode.sandbox;
  run_id = codes "r1";
  bucket = 7;
  cutoff = 0;
  now = 10;
  task_ready = true;
  uploads_found = true;
  images_bound = true;
  deleted_meanwhile = none;
  writable = true;
}

abbrev empty_server : Server
empty_server = record {
  worker = record {
    disk = record { task_json = none; tombstone = none; owner = Owner.free };
    entry = none;
  };
  control = record { draining = false; active_tasks = 0; idle = true };
}

abbrev snapshot : TaskSnapshot
snapshot = new_snapshot request ada.principal

abbrev task : TaskRecord
task = record {
  run_id = codes "r1";
  snapshot = snapshot;
  owner_handle = true;
  task_done = false;
  deleting = false;
}

abbrev busy : Worker
busy = record {
  disk = record { task_json = some snapshot; tombstone = none; owner = Owner.here };
  entry = some task;
}

-- The request starts the task.
created : create_task release request empty_server ≡ (
  done (codes "r1"),
  record { worker = busy; control = record { draining = false; active_tasks = 1; idle = false } },
)
unfolding create_task
created = refl

create_task-get_task_example :
    (s : TaskSnapshot) × (get_task 11 true ada busy ≡ (done s, busy))
    × (busy.disk.task_json ≡ some s)
    × (s.user_id ≡ codes "ada")
    × (s.run_id ≡ codes "r1")
    × IsTimeline s
create_task-get_task_example =
    create_task-get_task release request empty_server
      (record {
        worker = busy;
        control = record { draining = false; active_tasks = 1; idle = false };
      })
      (codes "r1") 11 true created

abbrev no_normal_form : Text → Text → Option Text
no_normal_form field response = none

abbrev same_text : Text → Text
same_text t = t

abbrev said : EventName → Payload → Emission
said event data_of = record {
  event = event;
  message = codes "";
  data_of = data_of;
  timestamp = 12;
  emitted_run_id = some (codes "r1");
  valid = true;
  reports_ready = true;
  writable = true;
}

abbrev answer : Summary
answer = record { data_mode = DataMode.sandbox; resolved_query = none; body = codes "best" }

abbrev run : List Emission
run =
    said EventName.session_created (Payload.details [])
    ∷ said EventName.clarification_required (
        Payload.prompt
          (record { field = codes "budget"; reason_code = codes "missing"; question = codes "?" }))
    ∷ said EventName.tool_start (Payload.details [])
    ∷ said EventName.clarification_resolved
        (Payload.answer (codes "budget") (codes "5") (some (codes "5")))
    ∷ said EventName.task_result (Payload.summary answer)
    ∷ said EventName.task_cancelled (Payload.details [])
    ∷ []

snapshot-IsTimeline : IsTimeline snapshot
unfolding replay
snapshot-IsTimeline = record {
  numbered = tt;
  replayed = refl;
  ended = refl;
  settled = record { prompted = refl; resulted = refl; failed = refl };
}

none≢some : {A : Type 0} {a : A} → none ≡ some a → ⊥
none≢some h = cc

empty-IsSound : IsSound empty_server.worker
empty-IsSound = record {
  file = λ s h. absurd (none≢some h);
  entry = λ r h. absurd (none≢some h);
  synced = λ r h. absurd (none≢some h);
}

perform_all-IsSound_example :
    IsSound
      (perform_all no_normal_form same_text release
        (create request ∷ map emit run ++ restart ∷ [])
        empty_server).worker
perform_all-IsSound_example =
    perform_all-IsSound no_normal_form same_text release
      (create request ∷ map emit run ++ restart ∷ []) empty_server empty-IsSound

abbrev length_of : Worker → ℕ
length_of w = elim w.entry [ none ↦ 0 | some r ↦ length r.snapshot.events ]

-- The tool and the cancellation are refused, and five events are recorded.
run_recorded : length_of (record_all no_normal_form run busy) ≡ 5
unfolding record_all
run_recorded = refl

abbrev failed : TaskSnapshot
failed = record snapshot { status = Status.error; error_code = some (codes "task_failed") }

abbrev failed_task : TaskRecord
failed_task = record task { snapshot = failed }

abbrev failed_worker : Worker
failed_worker = record busy { entry = some failed_task }

record_all-final_example : EndedAs (outcome failed) (record_all no_normal_form run failed_worker)
record_all-final_example =
    record_all-final no_normal_form run failed_worker (outcome failed) refl
      (failed_task, refl, refl)

record_all-endable_example : HasEnded (
    kept (record_all no_normal_form run busy) (
      record_event no_normal_form
        (cancellation (codes "") 13 (Payload.details []) (some (codes "r1")))
        (record_all no_normal_form run busy)))
unfolding text_eq
record_all-endable_example =
    record_all-endable no_normal_form run busy task (codes "") 13 (Payload.details [])
      (some (codes "r1")) refl refl refl

abbrev tombstone : TaskTombstone
tombstone = record { user_id = some (codes "ada"); tenant_id = codes "lab"; generation = 1 }

abbrev deleted_server : Server
deleted_server = record {
  worker = record {
    disk = record { task_json = none; tombstone = some tombstone; owner = Owner.free };
    entry = none;
  };
  control = record { draining = false; active_tasks = 0; idle = true };
}

-- The owner deletes the running task.
erased :
    delete_task
      (record {
        user_id = codes "ada";
        identity = ada;
        directory_exists = true;
        tombstone_writable = true;
        removable = true;
      })
      (record {
        worker = busy;
        control = record { draining = false; active_tasks = 1; idle = false };
      })
    ≡ (done TaskDeleteResponse.deleted, deleted_server)
unfolding delete_task
erased = refl

perform_all_deleted_example :
    let actions =
      create request ∷ emit (said EventName.error (Payload.failure none)) ∷ restart ∷ [] in
    let after = (perform_all no_normal_form same_text release actions deleted_server).worker in
    IsGone tombstone none after.disk
    × (get_task 20 true ada after ≡ (refused Refusal.task_not_found, after))
perform_all_deleted_example =
    perform_all_deleted no_normal_form same_text release
      (create request ∷ emit (said EventName.error (Payload.failure none)) ∷ restart ∷ [])
      deleted_server tombstone 20 true ada refl

load_snapshot-recovers_example :
    (t : TaskSnapshot) × (load_snapshot 30 true (abandoned snapshot) ≡ (found t, abandoned t))
    × (load_snapshot 40 false (abandoned t) ≡ (found t, abandoned t))
    × (t.status ≡ Status.error)
    × IsTimeline t
    × (length t.events ≡ 1)
load_snapshot-recovers_example =
    load_snapshot-recovers snapshot 30 40 false snapshot-IsTimeline refl

abbrev leaked_server : Server
leaked_server = record deleted_server {
  control = record { draining = false; active_tasks = 1; idle = false };
}

-- The new task on a deleted thread is refused, and one task is counted as running.
refused_deleted :
    create_task release request deleted_server ≡ (refused Refusal.task_deleted, leaked_server)
unfolding create_task
refused_deleted = refl

-- A thread that another worker deletes in between is refused, and is not counted.
deleted_in_between :
    (create_task release
      (record request { deleted_meanwhile = some tombstone })
      empty_server).1.control.active_tasks
    ≡ 0
unfolding create_task
deleted_in_between = refl

create_task-counted_example :
    leaked_server.control.active_tasks ≡ deleted_server.control.active_tasks + 1
create_task-counted_example =
    create_task-counted release request deleted_server leaked_server Refusal.task_deleted refl
      refused_deleted refl

begin_task-selected_for_example :
    is_begun (begin_task release 7 (record { draining = false; active_tasks = 3; idle = false }))
    ≡ selected_for release 7 (record { draining = false; active_tasks = 3; idle = false })
begin_task-selected_for_example =
    begin_task-selected_for release 7 (record { draining = false; active_tasks = 3; idle = false })
