-- ===== src/Tasks/Recovery.antt =====
-- app/api/server.py, `_load_snapshot`: a task whose worker went away while it ran.
use shopping_agent.Common.{ℕ, ◌+◌, ◌≡◌, refl, ◌∙◌, Bool, true, none, some, length, length-append}
use shopping_agent.Tasks.{Status, TaskSnapshot, Owner, Worker, persist_snapshot}
use shopping_agent.Tasks.Timeline.Contract.{IsTimeline, extend-IsTimeline, replay_step, ends}
use shopping_agent.Tasks.Commands.{found, load_snapshot, interrupted, interrupted_event}

-- A stored task that no worker has.
abbrev pub abandoned : TaskSnapshot → Worker
abandoned s = record {
  disk = record { task_json = some s; tombstone = none; owner = Owner.free };
  entry = none;
}

pub interrupted-IsTimeline :
    (now : ℕ) (s : TaskSnapshot)
    → IsTimeline s
    → s.status ≡ Status.running
    → IsTimeline (interrupted now s)
unfolding replay_step ends
interrupted-IsTimeline now s timeline running =
    extend-IsTimeline s timeline (interrupted_event now s) (interrupted now s) (rw running refl)
      refl
      (
        refl,
        refl,
        record {
          prompted = timeline.settled.prompted ∙ rw running refl;
          resulted = timeline.settled.resulted ∙ rw running refl;
          failed = refl;
        },
      )

-- A task stored as running that no worker has is read as interrupted if the disk can be written: its
-- status is error, its timeline is still a timeline, with one event more, and whoever reads it later,
-- whether the disk can be written or not, reads the same and changes nothing.
pub load_snapshot-recovers :
    (s : TaskSnapshot) (now later : ℕ) (writable : Bool)
    → IsTimeline s
    → s.status ≡ Status.running
    → (t : TaskSnapshot) × (load_snapshot now true (abandoned s) ≡ (found t, abandoned t))
      × (load_snapshot later writable (abandoned t) ≡ (found t, abandoned t))
      × (t.status ≡ Status.error)
      × IsTimeline t
      × (length t.events ≡ length s.events + 1)
unfolding load_snapshot persist_snapshot
load_snapshot-recovers s now later writable timeline running = (
  interrupted now s,
  rw running refl,
  refl,
  refl,
  interrupted-IsTimeline now s timeline running,
  length-append s.events _,
)
