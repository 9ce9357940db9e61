-- ===== src/Tasks/Counted.antt =====
-- app/api/server.py, `create_task`, and app/runtime.py: the count of running tasks.
use shopping_agent.Common.{
  ℕ, ◌+◌, ◌≡◌, refl, subst, Bool, true, false, ◌&&◌, Bool-cases, inl, inr, Option, none, some, Text,
  leb, ltb, arith,
}
use shopping_agent.Tasks.{TaskSnapshot, TaskRecord, Disk, Result, ok, raised, is_deleted}
use shopping_agent.Tasks.Runtime.{
  is_canary, Release, RuntimeControl, Begun, begun, rollback, worker_draining, not_selected,
  begin_task,
}
use shopping_agent.Tasks.Access.{
  Principal, Identity, authenticated, declared_elsewhere, Refusal, Reply, done, refused,
  request_principal,
}
use shopping_agent.Tasks.Commands.{is_free, release_owner}
use shopping_agent.Tasks.Lifecycle.{
  Server, Creation, new_snapshot, started, start, claim, create_locked, create_begun, create_pruned,
  create_ready, create_as, create_task, stop_previous, stop_unless, stop_entry, immutable,
}

-- The refusals that a client meets when it sends the id of a thread that was deleted or has ended.
abbrev pub is_reuse : Refusal → Bool
is_reuse Refusal.task_deleted = true
is_reuse Refusal.thread_id_immutable = true
is_reuse _ = false

-- If the reply is such a refusal, the count is this.
abbrev Counts : {A : Type 0} → ℕ → Reply A × Server → Type 0
Counts n (done a, after) = Unit
Counts n (refused why, after) = is_reuse why ≡ true → after.control.active_tasks ≡ n

abbrev CountsBegun : ℕ → Begun → Type 0
CountsBegun n (begun control) = control.active_tasks ≡ n + 1
CountsBegun n _ = Unit

begin-Counts :
    (release : Release) (bucket : ℕ) (control : RuntimeControl)
    → CountsBegun control.active_tasks (begin_task release bucket control)
unfolding begin_task
begin-Counts release bucket control = elim (Bool-cases release.rollback) [
  | inl back ↦ rw back tt
  | inr on ↦ elim (Bool-cases control.draining) [
    | inl drains ↦ rw (on, drains) tt
    | inr stays ↦
        elim (Bool-cases (
          (is_canary release.channel && ltb release.traffic_percent 100)
          && leb release.traffic_percent bucket)) [
            | inl outside ↦ rw (on, stays, outside) tt
            | inr inside ↦ rw (on, stays, inside) refl
          ]
  ]
]

not_both : (b : Bool) → b ≡ true → b ≡ false → ⊥
not_both b h k = ground (arith, h, k)

-- The refusals of an identity are others.
abbrev IsReuseFree : Reply (Option Principal) → Type 0
IsReuseFree (done p) = Unit
IsReuseFree (refused why) = is_reuse why ≡ false

authenticated-IsReuseFree :
    (p : Option Principal) (declared : Option Text) → IsReuseFree (authenticated p declared)
authenticated-IsReuseFree none declared = refl
authenticated-IsReuseFree (some p) declared =
    elim (Bool-cases (declared_elsewhere declared p.user_id)) [
      | inl other ↦ rw other refl
      | inr same ↦ rw same tt
    ]

principal-IsReuseFree :
    (identity : Identity) (declared : Option Text)
    → IsReuseFree (request_principal identity declared)
unfolding request_principal
principal-IsReuseFree identity declared = elim (Bool-cases identity.auth_enabled) [
  | inl enabled ↦ rw enabled (authenticated-IsReuseFree identity.principal declared)
  | inr disabled ↦ rw disabled tt
]

released-live :
    (b : Bool) (disk : Disk) → is_deleted disk ≡ false → is_deleted (release_owner b disk) ≡ false
released-live true disk live = live
released-live false disk live = live

stop_unless-live :
    (finished : Bool) (r : TaskRecord) (srv : Server)
    → is_deleted srv.worker.disk ≡ false
    → is_deleted (stop_unless finished r srv).worker.disk ≡ false
stop_unless-live true r srv live = live
stop_unless-live false r srv live = released-live r.owner_handle srv.worker.disk live

stopped-live :
    (entry : Option TaskRecord) (srv : Server)
    → is_deleted srv.worker.disk ≡ false
    → is_deleted (stop_entry entry srv).worker.disk ≡ false
stopped-live none srv live = live
stopped-live (some r) srv live = stop_unless-live r.task_done r srv live

module _ (n : ℕ) where
  started-Counts : (s : TaskSnapshot) (srv : Server) (m : Result Disk) → Counts n (started s srv m)
  started-Counts s srv (raised why) = λ h. cc
  started-Counts s srv (ok disk) = tt

  start-Counts :
      (c : Creation) (s : TaskSnapshot) (srv : Server)
      → is_deleted srv.worker.disk ≡ false
      → Counts n (start c s srv)
  start-Counts c s srv live = elim (Bool-cases c.images_bound) [
    | inl bound ↦ rw (live, bound) (started-Counts s srv _)
    | inr lost ↦ rw (live, lost) (λ h. cc)
  ]

  claim-Counts :
      (c : Creation) (s : TaskSnapshot) (srv : Server)
      → is_deleted srv.worker.disk ≡ false
      → c.deleted_meanwhile ≡ none
      → Counts n (claim c s srv)
  claim-Counts c s srv live alone = elim (Bool-cases (is_free srv.worker.disk.owner)) [
    | inl free ↦ rw (free, alone) (start-Counts c s srv live)
    | inr held ↦ rw held (λ h. cc)
  ]

  locked-Counts :
      (c : Creation) (p : Option Principal) (srv : Server)
      → c.deleted_meanwhile ≡ none
      → srv.control.active_tasks ≡ n
      → Counts n (create_locked c p srv)
  locked-Counts c p srv alone counted = elim (Bool-cases (is_deleted srv.worker.disk)) [
    | inl gone ↦ rw gone (λ h. counted)
    | inr live ↦ elim (Bool-cases (immutable srv.worker)) [
      | inl ended ↦ rw (live, ended) (λ h. counted)
      | inr fresh ↦
          rw (live, fresh)
            (claim-Counts c (new_snapshot c p) (stop_previous srv)
              (stopped-live srv.worker.entry srv live) alone)
    ]
  ]

begun-Counts :
    (n : ℕ) (c : Creation) (p : Option Principal) (srv : Server) (b : Begun)
    → c.deleted_meanwhile ≡ none
    → CountsBegun n b
    → Counts (n + 1) (create_begun c p srv b)
begun-Counts n c p srv (begun control) alone h =
    locked-Counts (n + 1) c p (record srv { control = control }) alone h
begun-Counts n c p srv rollback alone h = λ k. cc
begun-Counts n c p srv worker_draining alone h = λ k. cc
begun-Counts n c p srv not_selected alone h = λ k. cc

module _ (release : Release) (c : Creation) (alone : c.deleted_meanwhile ≡ none) where
  pruned-Counts :
      (p : Option Principal) (uploads : Bool) (srv : Server)
      → Counts (srv.control.active_tasks + 1) (create_pruned release c p uploads srv)
  pruned-Counts p false srv = λ k. cc
  pruned-Counts p true srv =
      begun-Counts _ c p srv _ alone (begin-Counts release c.bucket srv.control)

  ready-Counts :
      (p : Option Principal) (ready : Bool) (srv : Server)
      → Counts (srv.control.active_tasks + 1) (create_ready release c p ready srv)
  ready-Counts p false srv = λ k. cc
  ready-Counts p true srv = pruned-Counts p c.uploads_found _

  as-Counts :
      (srv : Server) (reply : Reply (Option Principal))
      → IsReuseFree reply
      → Counts (srv.control.active_tasks + 1) (create_as release c srv reply)
  as-Counts srv (refused why) fine = λ k. absurd (not_both (is_reuse why) k fine)
  as-Counts srv (done p) fine = ready-Counts p c.task_ready srv

-- A creation that is refused because its thread was deleted or has ended has been counted as a running
-- task, and stays counted: the count is one more than before the request. The condition is that no other
-- worker deletes the thread while it is being created.
pub create_task-counted :
    (release : Release) (c : Creation) (srv after : Server) (why : Refusal)
    → c.deleted_meanwhile ≡ none
    → create_task release c srv ≡ (refused why, after)
    → is_reuse why ≡ true
    → after.control.active_tasks ≡ srv.control.active_tasks + 1
unfolding create_task
create_task-counted release c srv after why alone h reuse =
    subst (Counts (srv.control.active_tasks + 1)) h
      (as-Counts release c alone srv _ (principal-IsReuseFree c.identity (some c.user_id))) reuse
