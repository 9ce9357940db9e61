-- ===== src/Tasks/Access.antt =====
-- app/api/server.py: who may see or delete a task.
use shopping_agent.Common.{
  Bool, false, not, ◌&&◌, Option, none, some, ◌∷◌, [], Text, codes, text_eq, if◌then◌else◌,
}
use shopping_agent.Tasks.{TaskSnapshot, TaskTombstone}

pub record Principal : Type 0 where
  pub user_id : Text
  pub tenant_id : Text

-- `auth_enabled`, and the principal that the middleware found in the headers.
pub record Identity : Type 0 where
  pub auth_enabled : Bool
  pub principal : Option Principal

-- The codes of the HTTP errors.
pub data Refusal : Type 0 where
  authentication_required user_identity_mismatch task_not_found : Refusal
  task_deleted thread_id_immutable task_active_elsewhere runtime_not_ready : Refusal
  runtime_not_accepting upload_not_found images_not_bound storage_failed task_deletion_failed :
      Refusal
  recording_failed task_state_unavailable : Refusal
  clarification_not_awaiting clarification_state_missing clarification_invalid_response : Refusal

pub data Reply {ℓ} (A : Type ℓ) : Type ℓ where
  done : A → Reply A
  refused : Refusal → Reply A

abbrev pub declared_elsewhere : Option Text → Text → Bool
declared_elsewhere none user_id = false
declared_elsewhere (some declared) user_id = not (text_eq declared user_id)

-- `if declared_user_id`, the empty text being false.
abbrev pub declared_principal : Option Text → Option Principal
declared_principal none = none
declared_principal (some []) = none
declared_principal (some (c ∷ cs)) = some (record { user_id = c ∷ cs; tenant_id = codes "default" })

abbrev pub authenticated : Option Principal → Option Text → Reply (Option Principal)
authenticated none declared = refused authentication_required
authenticated (some principal) declared =
    if declared_elsewhere declared principal.user_id
    then refused user_identity_mismatch
    else done (some principal)

-- `_request_principal`
unfoldable pub request_principal : Identity → Option Text → Reply (Option Principal)
unfolding text_eq
request_principal identity declared =
    if identity.auth_enabled
    then authenticated identity.principal declared
    else done (declared_principal declared)

-- Whether the principal is the owner.
abbrev pub owns : Option Text → Text → Principal → Bool
owns none tenant_id principal = false
owns (some user_id) tenant_id principal =
    text_eq user_id principal.user_id && text_eq tenant_id principal.tenant_id

abbrev pub authorize_owner :
    Bool → Option Text → Text → Reply (Option Principal) → Reply (Option Principal)
authorize_owner auth_enabled user_id tenant_id (refused why) = refused why
authorize_owner auth_enabled user_id tenant_id (done none) = done none
authorize_owner auth_enabled user_id tenant_id (done (some principal)) =
    if not auth_enabled
    then done none
    else if owns user_id tenant_id principal
    then done (some principal)
    else refused task_not_found

-- `_authorize_snapshot`
unfoldable pub authorize_snapshot : TaskSnapshot → Identity → Option Text → Reply (Option Principal)
unfolding request_principal text_eq
authorize_snapshot s identity declared =
    authorize_owner identity.auth_enabled (some s.user_id) s.tenant_id
      (request_principal identity declared)

-- `_authorize_tombstone`
unfoldable pub authorize_tombstone :
    TaskTombstone → Identity → Option Text → Reply (Option Principal)
unfolding request_principal text_eq
authorize_tombstone t identity declared =
    authorize_owner identity.auth_enabled t.user_id t.tenant_id
      (request_principal identity declared)
