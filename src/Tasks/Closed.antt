-- ===== src/Tasks/Closed.antt =====
-- Invariants of a thread that cancelling and clarifying a task keep: what an invariant must be closed
-- under, and that it is then kept by the two endpoints.
use shopping_agent.Common.{ℕ, ◌≡◌, refl, Bool, true, false, Option, none, some, Text}
use shopping_agent.Tasks.{TaskSnapshot, TaskRecord, Owner, Worker}
use shopping_agent.Tasks.Timeline.{Emission}
use shopping_agent.Tasks.Timeline.Recorded.{Accepted}
use shopping_agent.Tasks.Commands.{load_snapshot, release_owner}
use shopping_agent.Tasks.Lifecycle.{Server, owned, stop_unless, stop_entry}
use shopping_agent.Tasks.Actions.{finished_unless, finish_entry}
use shopping_agent.Tasks.Cancellation.{unlock, unlocked, adopted, adopt, end_run}
use shopping_agent.Tasks.Clarification.{abandoned_answer, resume_entry}

pub record IsClosed (normalize : Text → Text → Option Text) (I : Worker → Type 0) : Type 0 where
  pub relock : (w : Worker) (o : Owner) → I w → I (record w { disk = record w.disk { owner = o } })
  pub drop : (w : Worker) → I w → I (record w { entry = none })
  pub mark :
      (w : Worker) (r : TaskRecord) (handle finished : Bool)
      → w.entry ≡ some r
      → I w
      → I (record w { entry = some (record r { owner_handle = handle; task_done = finished }) })
  pub adopts :
      (w : Worker) (s : TaskSnapshot)
      → w.disk.task_json ≡ some s
      → I w
      → I (record w { entry = some (adopted s) })
  pub loads : (now : ℕ) (writable : Bool) (w : Worker) → I w → I (load_snapshot now writable w).1
  pub emits : (e : Emission) (w next : Worker) → I w → Accepted normalize e w next → I next

module _ (normalize : Text → Text → Option Text) (I : Worker → Type 0)
    (closed : IsClosed normalize I) where
  release-I : (b : Bool) (w : Worker) → I w → I (record w { disk = release_owner b w.disk })
  release-I true w i = closed.relock w Owner.free i
  release-I false w i = i

  unlock-I : (entry : Option TaskRecord) (w : Worker) → w.entry ≡ entry → I w → I (unlock entry w)
  unlock-I none w h i = i
  unlock-I (some r) w h i = closed.mark _ r false r.task_done h (release-I r.owner_handle w i)

  pub unlocked-I : (w : Worker) → I w → I (unlocked w)
  unlocked-I w i = unlock-I w.entry w refl i

  pub end_run-I :
      (entry : Option TaskRecord) (w : Worker) → w.entry ≡ entry → I w → I (end_run entry w)
  end_run-I none w h i = i
  end_run-I (some r) w h i = closed.mark _ r false true h (release-I r.owner_handle w i)

  pub resume_entry-I :
      (entry : Option TaskRecord) (w : Worker) → w.entry ≡ entry → I w → I (resume_entry entry w)
  resume_entry-I none w h i = i
  resume_entry-I (some r) w h i = closed.mark w r r.owner_handle false h i

  pub abandoned-I : (created : Bool) (w : Worker) → I w → I (abandoned_answer created w)
  abandoned-I true w i = closed.drop _ (unlocked-I w i)
  abandoned-I false w i = unlocked-I w i

  pub adopt-I : (s : TaskSnapshot) (w : Worker) → w.disk.task_json ≡ some s → I w → I (adopt s w)
  adopt-I s w h i = closed.adopts _ s h (closed.relock w Owner.here i)

  pub relocked-I :
      (r : TaskRecord) (w : Worker)
      → w.entry ≡ some r
      → I w
      → I (record { disk = owned w.disk; entry = some (record r { owner_handle = true }) })
  relocked-I r w h i = closed.mark _ r true r.task_done h (closed.relock w Owner.here i)

  finished_unless-I :
      (finished : Bool) (r : TaskRecord) (srv : Server)
      → srv.worker.entry ≡ some r
      → I srv.worker
      → I (finished_unless finished r srv).worker
  finished_unless-I true r srv h i = i
  finished_unless-I false r srv h i = end_run-I (some r) srv.worker h i

  stop_unless-I :
      (finished : Bool) (r : TaskRecord) (srv : Server)
      → I srv.worker
      → I (stop_unless finished r srv).worker
  stop_unless-I true r srv i = i
  stop_unless-I false r srv i = closed.drop _ (release-I r.owner_handle srv.worker i)

  pub finish_entry-I :
      (entry : Option TaskRecord) (srv : Server)
      → srv.worker.entry ≡ entry
      → I srv.worker
      → I (finish_entry entry srv).worker
  finish_entry-I none srv h i = i
  finish_entry-I (some r) srv h i = finished_unless-I r.task_done r srv h i

  pub stop_entry-I :
      (entry : Option TaskRecord) (srv : Server) → I srv.worker → I (stop_entry entry srv).worker
  stop_entry-I none srv i = i
  stop_entry-I (some r) srv i = stop_unless-I r.task_done r srv i
