-- ===== src/Admin/Users.antt =====
-- app/admin/service.py: users, their channel identities, and the permissions of an identity.
pub mod Access
use channel_agent.Prelude.{
  ℕ, String, ◌&&◌, ◌||◌, not, Bool, true, false, Option, none, some, List, [], ◌∷◌, ◌++◌, map, any,
  select, first, update, delete, strip, str_eq, ltb, ◌==◌, if◌then◌else◌,
}
use channel_agent.Env.{Env}
use channel_agent.Exec.{
  Exec, Result, ok, err, identity_already_linked, permission_not_held, invalid_input, pure, gets,
  lift, modify, raise_if, one_or_none, or_raise, ◌>>=◌, ◌>>◌,
}
use channel_agent.Model.{
  Database, Channel, email, User, ChannelIdentity, Permission, PermissionKind, Agent, AccessRequest,
  RequestStatus, Detail, channel_value, kind_value, is_pending, same_kind,
}
use channel_agent.Auth.{
  has_user_id, has_key, of_identity, channel_identifier_key, grant_permission, revoke_permission,
}
use channel_agent.Admin.Events.{record_admin_event, require_user, has_identity_id, identity_of_user}
use channel_agent.Admin.Requests.{resolve_requests_for_identity}
use channel_agent.Admin.Agents.{list_agents, is_some}

-- ChannelIdentity.user_id == user_id
abbrev pub belongs_to : ℕ → ChannelIdentity → Bool
belongs_to user_id i = i.user_id == user_id

-- `list_requests`: the pending ones, or those of the given status, or all.
abbrev pub same_request_status : RequestStatus → RequestStatus → Bool
same_request_status RequestStatus.pending RequestStatus.pending = true
same_request_status RequestStatus.approved RequestStatus.approved = true
same_request_status RequestStatus.denied RequestStatus.denied = true
same_request_status _ _ = false

unfoldable pub list_requests : Option RequestStatus → Exec Database (List AccessRequest)
list_requests none = gets (λ db. db.requests)
list_requests (some s) = gets (λ db. select (λ r. same_request_status r.status s) db.requests)

unfoldable pub list_users : Exec Database (List User)
list_users = gets (λ db. db.users)

unfoldable pub list_channel_identities : ℕ → Exec Database (List ChannelIdentity)
list_channel_identities user_id = do
  require_user user_id
  gets (λ db. select (belongs_to user_id) db.identities)

unfoldable pub list_identity_permissions : ℕ → ℕ → Exec Database (List Permission)
list_identity_permissions user_id identity_id = do
  identity_of_user user_id identity_id
  gets (λ db. select (of_identity identity_id) db.permissions)

pub record IdentityDetail : Type 0 where
  pub id : ℕ
  pub channel : Channel
  pub external_id : String
  pub permissions : List PermissionKind
  pub active_agent_id : Option ℕ

pub record UserDetail : Type 0 where
  pub user : User
  pub identities : List IdentityDetail
  pub agents : List Agent

-- The loop of `get_user_detail`.
identity_details : ℕ → List ChannelIdentity → Exec Database (List IdentityDetail)
identity_details user_id [] = pure []
identity_details user_id (i ∷ is) = do
  perms ← list_identity_permissions user_id i.id
  let detail : IdentityDetail = record {
    id = i.id;
    channel = i.channel;
    external_id = i.external_id;
    permissions = map (λ p. p.kind) perms;
    active_agent_id = i.active_agent_id;
  }
  rest ← identity_details user_id is
  pure (detail ∷ rest)

unfoldable pub get_user_detail : ℕ → Exec Database UserDetail
unfolding identity_details
get_user_detail user_id = do
  user ← require_user user_id
  rows ← list_channel_identities user_id
  identities ← identity_details user_id rows
  agents ← list_agents user_id
  let detail : UserDetail = record { user = user; identities = identities; agents = agents }
  pure detail

abbrev name_or_null : Option String → Detail
name_or_null none = Detail.null
name_or_null (some s) = Detail.text s

-- `identifier if channel is Channel.EMAIL else None`
abbrev address_of : Channel → String → Option String
address_of email identifier = some identifier
address_of _ identifier = none

abbrev named : Option String → User → User
named none u = u
named (some n) u = record u { display_name = some n }

abbrev activated : Option Bool → User → User
activated none u = u
activated (some b) u = record u { is_active = b }

abbrev change_details : Option String → Option Bool → List (String × Detail)
change_details none none = []
change_details none (some b) = ("is_active", Detail.flag b) ∷ []
change_details (some n) none = ("display_name", Detail.text n) ∷ []
change_details (some n) (some b) =
    ("display_name", Detail.text n) ∷ ("is_active", Detail.flag b) ∷ []

module _ ⦃env : Env⦄ where
  unfoldable pub create_user : Option String → String → Exec Database User
  create_user display_name actor = do
    id ← gets (λ db. env.new_id (map (λ u. u.id) db.users))
    let user : User = record { id = id; display_name = display_name; is_active = true }
    modify (λ db. record db { users = db.users ++ user ∷ [] })
    record_admin_event actor "user.create" "user" (some user.id)
        (("display_name", name_or_null display_name) ∷ [])
    pure user

  unfoldable pub update_user : ℕ → Option String → Option Bool → String → Exec Database User
  update_user user_id display_name is_active actor = do
    user ← require_user user_id
    let changed = activated is_active (named display_name user)
    modify (λ db. record db { users = update (has_user_id user.id) (λ _. changed) db.users })
    record_admin_event actor "user.update" "user" (some user_id)
        (change_details display_name is_active)
    pure changed

  abbrev pub linked_identity :
      ℕ → Channel → String → String → List ChannelIdentity → ChannelIdentity
  linked_identity user_id channel key identifier rows = record {
    id = env.new_id (map (λ i. i.id) rows);
    user_id = user_id;
    channel = channel;
    external_id = key;
    raw_address = address_of channel identifier;
    active_agent_id = none;
  }

  unfoldable pub add_channel_identity :
      ℕ → Channel → String → String → Exec Database ChannelIdentity
  add_channel_identity user_id channel given actor = do
    require_user user_id
    let identifier = strip given
    raise_if (str_eq identifier "") invalid_input
    let external_id = channel_identifier_key channel identifier
    rows ← gets (λ db. select (has_key channel external_id) db.identities)
    taken ← lift (one_or_none rows)
    raise_if (is_some taken) identity_already_linked
    identity ← gets (λ db. linked_identity user_id channel external_id identifier db.identities)
    modify (λ db. record db { identities = db.identities ++ identity ∷ [] })
    record_admin_event actor "identity.add" "user" (some user_id) (
        ("channel", Detail.text (channel_value channel))
        ∷ ("identity_id", Detail.number identity.id)
        ∷ [])
    resolve_requests_for_identity channel external_id actor
    pure identity

  -- The deletion cascades to the permissions of the identity.
  unfoldable pub remove_channel_identity : ℕ → ℕ → String → Exec Database (Unit {0})
  remove_channel_identity user_id identity_id actor = do
    identity ← identity_of_user user_id identity_id
    modify (λ db. record db {
      identities = delete (has_identity_id identity.id) db.identities;
      permissions = delete (of_identity identity.id) db.permissions;
    })
    record_admin_event actor "identity.remove" "user" (some user_id) (
        ("channel", Detail.text (channel_value identity.channel))
        ∷ ("identity_id", Detail.number identity_id)
        ∷ [])
    pure tt

  unfoldable pub grant_identity_permission :
      ℕ → ℕ → PermissionKind → String → Exec Database Permission
  grant_identity_permission user_id identity_id kind actor = do
    identity ← identity_of_user user_id identity_id
    permission ← grant_permission identity kind
    record_admin_event actor "permission.grant" "user" (some user_id)
        (("identity_id", Detail.number identity_id) ∷ ("kind", Detail.text (kind_value kind)) ∷ [])
    resolve_requests_for_identity identity.channel identity.external_id actor
    pure permission

  unfoldable pub revoke_identity_permission :
      ℕ → ℕ → PermissionKind → String → Exec Database (Unit {0})
  revoke_identity_permission user_id identity_id kind actor = do
    identity ← identity_of_user user_id identity_id
    held ← revoke_permission identity kind
    raise_if (not held) permission_not_held
    record_admin_event actor "permission.revoke" "user" (some user_id)
        (("identity_id", Detail.number identity_id) ∷ ("kind", Detail.text (kind_value kind)) ∷ [])
    pure tt
