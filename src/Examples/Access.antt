-- ===== src/Examples/Access.antt =====
-- Authorization and access requests on the example database.
use channel_agent.Prelude.{
  ◌≡◌, refl, true, false, ◌↔◌, some, [], ◌∷◌, select, first, delete, update, strip, arith,
}
use channel_agent.Exec.{ok}
use channel_agent.Model.{Channel, PermissionKind, Permission, RequestStatus, Database, User}
use channel_agent.Auth.{
  AuthDecision, authorize, grant_permission, revoke_permission, channel_identifier_key,
}
use channel_agent.Auth.Decision.{IsAuthorized, authorize-IsAuthorized}
use channel_agent.Auth.Grants.{
  GrantAdds, RevokeRemoves, grant_permission-holds, revoke_permission-holds,
}
use channel_agent.Admin.Events.{record_admin_event}
use channel_agent.Admin.Requests.{
  approve_request, is_request, has_request_id, pending_request, admit,
}
use channel_agent.Admin.Requests.Unique.{IsUnique, Ensures, ensure_access_request-IsEnsured}
use channel_agent.Admin.Requests.Approval.{approve_request-authorize}
use channel_agent.Examples.Fixture.{
  example_env, example_laws, database, ann, ann_identity, ann_chat, bob_request,
}

abbrev ann_decision : AuthDecision
ann_decision = record {
  allowed = true;
  user = some ann;
  is_admin = false;
  identity = some ann_identity;
}

authorize-ann : authorize Channel.telegram "7" database ≡ (ok ann_decision, database)
unfolding authorize channel_identifier_key select first
authorize-ann = refl

authorize-IsAuthorized_example :
    (database ≡ database)
    × ((ann_decision.allowed ≡ true)
        ↔ IsAuthorized database Channel.telegram (channel_identifier_key Channel.telegram "7"))
authorize-IsAuthorized_example =
    authorize-IsAuthorized Channel.telegram "7" database ann_decision database authorize-ann

abbrev ann_admin : Permission
ann_admin = record { id = 2; channel_identity_id = 1; kind = PermissionKind.admin }

abbrev promoted : Database
promoted = record database { permissions = ann_chat ∷ ann_admin ∷ [] }

grant-ann : grant_permission ann_identity PermissionKind.admin database ≡ (ok ann_admin, promoted)
unfolding grant_permission select
grant-ann = refl

grant_permission-holds_example :
    GrantAdds ann_identity PermissionKind.admin database ann_admin promoted
grant_permission-holds_example =
    grant_permission-holds ann_identity PermissionKind.admin database ann_admin promoted grant-ann

abbrev silenced : Database
silenced = record database { permissions = [] }

revoke-ann : revoke_permission ann_identity PermissionKind.chat database ≡ (ok true, silenced)
unfolding revoke_permission select delete
revoke-ann = refl

revoke_permission-holds_example :
    RevokeRemoves ann_identity PermissionKind.chat database true silenced
revoke_permission-holds_example =
    revoke_permission-holds ann_identity PermissionKind.chat database true silenced (refl, tt)
      revoke-ann

database-IsUnique : IsUnique database.requests
unfolding select
database-IsUnique = record { ids = (refl, tt); keys = λ c e. ground arith }

ensure_access_request-IsEnsured_example :
    Ensures Channel.telegram "8" "again" database
      (select (is_request Channel.telegram "8") database.requests)
ensure_access_request-IsEnsured_example =
    ensure_access_request-IsEnsured Channel.telegram "8" "again" database example_laws
      database-IsUnique

abbrev bob : User
bob = record { id = 2; display_name = some "Approved from telegram request"; is_active = true }

abbrev with_bob : Database
with_bob = (approve_request 1 (some "api") database).1

approve-bob : approve_request 1 (some "api") database ≡ (ok bob, with_bob)
unfolding approve_request pending_request admit grant_permission record_admin_event select first
    strip update
approve-bob = refl

find-bob : first (has_request_id 1) database.requests ≡ some bob_request
unfolding first
find-bob = refl

bob_key : channel_identifier_key Channel.telegram "8" ≡ "8"
unfolding channel_identifier_key
bob_key = refl

approve_request-authorize_example :
    (bob_request.status ≡ RequestStatus.pending)
    × ((d : AuthDecision) × (authorize Channel.telegram "8" with_bob ≡ (ok d, with_bob))
        × (d.allowed ≡ true))
approve_request-authorize_example =
    approve_request-authorize 1 (some "api") database example_laws bob with_bob bob_request "8" refl
      find-bob bob_key approve-bob
