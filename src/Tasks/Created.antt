-- ===== src/Tasks/Created.antt =====
-- app/api/server.py, `create_task`: what its caller may rely on, and what a refusal leaves behind.
use shopping_agent.Common.{
  ℕ, ◌≡◌, refl, ap, subst, Bool, true, false, not, Bool-cases, inl, inr, Option, none, some, Text,
  text_eq, text_eq_refl, if◌then◌else◌,
}
use shopping_agent.Tasks.{TaskSnapshot, Failure, Disk, ok, raised, is_deleted, persist_snapshot}
use shopping_agent.Tasks.Timeline.Contract.{IsTimeline, replay}
use shopping_agent.Tasks.Runtime.{Release, Begun, begun}
use shopping_agent.Tasks.Access.{
  Principal, Identity, Refusal, Reply, done, refused, request_principal, authorize_snapshot,
}
use shopping_agent.Tasks.Commands.{get_task, is_free}
use shopping_agent.Tasks.Lifecycle.{
  Server, Creation, new_snapshot, started, start, meanwhile, claim, create_locked, create_begun,
  create_pruned, create_ready, create_as, create_task, stop_previous, immutable, owned,
}

abbrev pub IfDone : {A : Type 0} → (Server → Type 0) → Reply A × Server → Type 0
IfDone P (refused why, srv) = Unit
IfDone P (done a, srv) = P srv

-- The snapshot is the record's and the file's, and the thread is not deleted.
pub record IsCreated (s : TaskSnapshot) (srv : Server) : Type 0 where
  pub disk : Disk
  pub live : is_deleted disk ≡ false
  pub worker : srv.worker ≡ record {
    disk = record disk { task_json = some s };
    entry = some (record {
      run_id = s.run_id;
      snapshot = s;
      owner_handle = true;
      task_done = false;
      deleting = false;
    });
  }

module _ (s : TaskSnapshot) where
  written-IsCreated :
      (writable : Bool) (srv : Server) (disk : Disk)
      → is_deleted disk ≡ false
      → IfDone (IsCreated s) (
          started s srv (
            if writable
            then ok (record disk { task_json = some s })
            else raised Failure.not_persisted))
  written-IsCreated false srv disk live = tt
  written-IsCreated true srv disk live = record { disk = disk; live = live; worker = refl }

  persisted-IsCreated :
      (writable : Bool) (srv : Server) (disk : Disk)
      → IfDone (IsCreated s) (started s srv (persist_snapshot writable s disk))
  unfolding persist_snapshot
  persisted-IsCreated writable srv disk = elim (Bool-cases (is_deleted disk)) [
    | inl gone ↦ rw gone tt
    | inr live ↦ rw live (written-IsCreated writable srv disk live)
  ]

  start-IsCreated : (c : Creation) (srv : Server) → IfDone (IsCreated s) (start c s srv)
  start-IsCreated c srv = elim (Bool-cases (is_deleted srv.worker.disk)) [
    | inl gone ↦ rw gone tt
    | inr live ↦ elim (Bool-cases c.images_bound) [
      | inr lost ↦ rw (live, lost) tt
      | inl bound ↦ rw (live, bound) (persisted-IsCreated c.writable srv (owned srv.worker.disk))
    ]
  ]

  claim-IsCreated : (c : Creation) (srv : Server) → IfDone (IsCreated s) (claim c s srv)
  claim-IsCreated c srv = elim (Bool-cases (is_free srv.worker.disk.owner)) [
    | inr held ↦ rw held tt
    | inl free ↦ rw free (start-IsCreated c (meanwhile c.deleted_meanwhile srv))
  ]

module _ (c : Creation) (principal : Option Principal) where
  locked-IsCreated :
      (srv : Server) → IfDone (IsCreated (new_snapshot c principal)) (create_locked c principal srv)
  locked-IsCreated srv = elim (Bool-cases (is_deleted srv.worker.disk)) [
    | inl gone ↦ rw gone tt
    | inr live ↦ elim (Bool-cases (immutable srv.worker)) [
      | inl ended ↦ rw (live, ended) tt
      | inr fresh ↦
          rw (live, fresh) (claim-IsCreated (new_snapshot c principal) c (stop_previous srv))
    ]
  ]

  begun-IsCreated :
      (srv : Server) (b : Begun)
      → IfDone (IsCreated (new_snapshot c principal)) (create_begun c principal srv b)
  begun-IsCreated srv (begun control) = locked-IsCreated (record srv { control = control })
  begun-IsCreated srv _ = tt

  pruned-IsCreated :
      (release : Release) (uploads : Bool) (srv : Server)
      → IfDone
          (IsCreated (new_snapshot c principal))
          (create_pruned release c principal uploads srv)
  pruned-IsCreated release false srv = tt
  pruned-IsCreated release true srv = begun-IsCreated srv _

abbrev granted : Reply (Option Principal) → Option Principal
granted (refused why) = none
granted (done p) = p

-- The owner sees the task: a user that may declare itself is the one that the task belongs to.
abbrev Seen : TaskSnapshot → Identity → Type 0
Seen s identity = (p : Option Principal) × (authorize_snapshot s identity none ≡ done p)

module _ (c : Creation) where
  open_Seen :
      (principal p : Option Principal)
      → Seen (new_snapshot c p) (record { auth_enabled = false; principal = principal })
  unfolding authorize_snapshot request_principal
  open_Seen principal p = (none, refl)

  authenticated-Seen :
      (q : Principal)
      → text_eq c.user_id q.user_id ≡ true
      → Seen (new_snapshot c (some q)) (record { auth_enabled = true; principal = some q })
  unfolding authorize_snapshot request_principal
  authenticated-Seen q same = (some q, rw (same, text_eq_refl q.tenant_id) refl)

  same-Seen :
      (q : Principal) (p : Option Principal) (same : Bool)
      → text_eq c.user_id q.user_id ≡ same
      → (if not same then refused Refusal.user_identity_mismatch else done (some q)) ≡ done p
      → Seen (new_snapshot c p) (record { auth_enabled = true; principal = some q })
  same-Seen q p true same h =
      subst (λ p. Seen (new_snapshot c p) (record { auth_enabled = true; principal = some q }))
        (ap granted h) (authenticated-Seen q same)
  same-Seen q p false same h = cc

  declared-Seen :
      (auth_enabled : Bool) (principal p : Option Principal)
      → request_principal
          (record { auth_enabled = auth_enabled; principal = principal })
          (some c.user_id)
        ≡ done p
      → Seen (new_snapshot c p) (record { auth_enabled = auth_enabled; principal = principal })
  unfolding request_principal
  declared-Seen false principal p h = open_Seen principal p
  declared-Seen true none p h = cc
  declared-Seen true (some q) p h = same-Seen q p _ refl h

-- The new task is there for the user that declared it.
record IsVisible (c : Creation) (srv : Server) : Type 0 where
  principal : Option Principal
  created : IsCreated (new_snapshot c principal) srv
  seen : Seen (new_snapshot c principal) c.identity

module _ (release : Release) (c : Creation) (srv : Server) where
  weaken-IsVisible :
      {A : Type 0} (p : Option Principal) (result : Reply A × Server)
      → Seen (new_snapshot c p) c.identity
      → IfDone (IsCreated (new_snapshot c p)) result
      → IfDone (IsVisible c) result
  weaken-IsVisible p (refused why, after) seen h = tt
  weaken-IsVisible p (done a, after) seen h = record { principal = p; created = h; seen = seen }

  ready-IsVisible :
      (p : Option Principal) (ready : Bool)
      → Seen (new_snapshot c p) c.identity
      → IfDone (IsVisible c) (create_ready release c p ready srv)
  ready-IsVisible p false seen = tt
  ready-IsVisible p true seen =
      weaken-IsVisible p _ seen (pruned-IsCreated c p release c.uploads_found _)

  create_as-IsVisible :
      (reply : Reply (Option Principal))
      → request_principal c.identity (some c.user_id) ≡ reply
      → IfDone (IsVisible c) (create_as release c srv reply)
  create_as-IsVisible (refused why) h = tt
  create_as-IsVisible (done p) h =
      ready-IsVisible p c.task_ready
        (declared-Seen c c.identity.auth_enabled c.identity.principal p h)

  create_task-IsVisible : IfDone (IsVisible c) (create_task release c srv)
  unfolding create_task
  create_task-IsVisible = create_as-IsVisible _ refl

pub new-IsTimeline : (c : Creation) (p : Option Principal) → IsTimeline (new_snapshot c p)
unfolding replay
new-IsTimeline c p = record {
  numbered = tt;
  replayed = refl;
  ended = refl;
  settled = record { prompted = refl; resulted = refl; failed = refl };
}

visible_get :
    (now : ℕ) (writable : Bool) (c : Creation) (after : Server)
    → IsVisible c after
    → (s : TaskSnapshot) × (get_task now writable c.identity after.worker ≡ (done s, after.worker))
      × (after.worker.disk.task_json ≡ some s)
      × (s.user_id ≡ c.user_id)
      × (s.run_id ≡ c.run_id)
      × IsTimeline s
unfolding get_task
visible_get now writable c after v =
    let s = new_snapshot c v.principal in
    (
      s,
      rw (v.created.worker, v.created.live, v.seen.1) refl,
      rw v.created.worker refl,
      refl,
      refl,
      new-IsTimeline c v.principal,
    )

-- A task that was created is read back by its creator, with the identity of the request, before anything else happens: the
-- reply is the stored snapshot, of that user and run, and it is a timeline; the read changes nothing.
pub create_task-get_task :
    (release : Release) (c : Creation) (srv after : Server) (reply : Text) (now : ℕ)
    (writable : Bool)
    → create_task release c srv ≡ (done reply, after)
    → (s : TaskSnapshot) × (get_task now writable c.identity after.worker ≡ (done s, after.worker))
      × (after.worker.disk.task_json ≡ some s)
      × (s.user_id ≡ c.user_id)
      × (s.run_id ≡ c.run_id)
      × IsTimeline s
create_task-get_task release c srv after reply now writable created =
    visible_get now writable c after
      (subst (IfDone (IsVisible c)) created (create_task-IsVisible release c srv))
