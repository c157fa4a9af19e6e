-- ===== src/Admin/Requests.antt =====
-- app/admin/service.py: access requests, from the first message of an unknown sender to the decision
-- of an administrator. A request is reopened when its person writes again after an approval that was
-- undone since.
pub mod Unique
pub mod Admit
pub mod Approval
use channel_agent.Prelude.{
  ℕ, String, ◌&&◌, not, Bool, true, false, Option, none, some, List, [], ◌∷◌, ◌++◌, map, select,
  first, update, length, str_eq, ◌==◌, if◌then◌else◌,
}
use channel_agent.Env.{Env}
use channel_agent.Exec.{
  Exec, request_not_found, request_already_resolved, missing_row, pure, raise, gets, lift, modify,
  one_or_none, or_raise, ◌>>=◌, ◌>>◌,
}
use channel_agent.Model.{
  Database, Channel, User, ChannelIdentity, AccessRequest, RequestStatus, PermissionKind, Detail,
  same_channel, is_pending, channel_value,
}
use channel_agent.Auth.{has_key, has_user_id, grant_permission}
use channel_agent.Admin.Events.{record_admin_event, default_actor}

-- AccessRequest.channel == channel, AccessRequest.external_id == external_id
abbrev pub is_request : Channel → String → AccessRequest → Bool
is_request channel external_id r =
    same_channel r.channel channel && str_eq r.external_id external_id

abbrev pub has_request_id : ℕ → AccessRequest → Bool
has_request_id id r = r.id == id

-- Writes the object `r` back to its row.
abbrev pub save_request : AccessRequest → Exec Database (Unit {0})
save_request r =
    modify (λ db. record db { requests = update (has_request_id r.id) (λ _. r) db.requests })

abbrev pub reopened : AccessRequest → String → AccessRequest
reopened r text = record r {
  status = RequestStatus.pending;
  first_message_text = text;
  resolved_at = none;
  resolved_by = none;
}

abbrev existing_request :
    AccessRequest → RequestStatus → String → Exec Database (AccessRequest × Bool)
existing_request r RequestStatus.approved text = do
  save_request (reopened r text)
  pure (reopened r text, true)
existing_request r _ text = pure (r, false)

module _ ⦃env : Env⦄ where
  abbrev pub new_request : Channel → String → String → List AccessRequest → AccessRequest
  new_request channel external_id text rows = record {
    id = env.new_id (map (λ r. r.id) rows);
    channel = channel;
    external_id = external_id;
    first_message_text = text;
    status = RequestStatus.pending;
    resolved_at = none;
    resolved_by = none;
  }

  abbrev request_for :
      Channel → String → String → Option AccessRequest → Exec Database (AccessRequest × Bool)
  request_for channel external_id text (some r) = existing_request r r.status text
  request_for channel external_id text none = do
    request ← gets (λ db. new_request channel external_id text db.requests)
    modify (λ db. record db { requests = db.requests ++ request ∷ [] })
    pure (request, true)

  -- The request of this sender, and whether the administrators are to be told.
  unfoldable pub ensure_access_request :
      Channel → String → String → Exec Database (AccessRequest × Bool)
  ensure_access_request channel external_id text = do
    rows ← gets (λ db. select (is_request channel external_id) db.requests)
    existing ← lift (one_or_none rows)
    request_for channel external_id text existing

abbrev if_pending : AccessRequest → Exec Database AccessRequest
if_pending r = if not (is_pending r.status) then raise request_already_resolved else pure r

-- `_pending_request`
unfoldable pub pending_request : ℕ → Exec Database AccessRequest
pending_request request_id = do
  row ← gets (λ db. first (has_request_id request_id) db.requests)
  request ← or_raise row request_not_found
  if_pending request

-- `resolved_by or DEFAULT_ACTOR`
abbrev actor_or_default : Option String → String
actor_or_default none = default_actor
actor_or_default (some a) = if str_eq a "" then default_actor else a

module _ ⦃env : Env⦄ where
  abbrev pub resolved : AccessRequest → RequestStatus → Option String → AccessRequest
  resolved r status by = record r { status = status; resolved_at = some env.now; resolved_by = by }

  -- The identity that an approval is for, with its user, created where there is none.
  abbrev pub approved_identity :
      AccessRequest → Option ChannelIdentity → String → Exec Database (User × ChannelIdentity)
  approved_identity r (some i) name = do
    row ← gets (λ db. first (has_user_id i.user_id) db.users)
    user ← or_raise row missing_row
    pure (user, i)
  approved_identity r none name = do
    user_id ← gets (λ db. env.new_id (map (λ u. u.id) db.users))
    let user : User = record { id = user_id; display_name = some name; is_active = true }
    modify (λ db. record db { users = db.users ++ user ∷ [] })
    id ← gets (λ db. env.new_id (map (λ i. i.id) db.identities))
    let identity : ChannelIdentity = record {
      id = id;
      user_id = user_id;
      channel = r.channel;
      external_id = r.external_id;
      raw_address = none;
      active_agent_id = none;
    }
    modify (λ db. record db { identities = db.identities ++ identity ∷ [] })
    pure (user, identity)

  abbrev pub approved_name : Channel → String
  approved_name Channel.telegram = "Approved from telegram request"
  approved_name Channel.email = "Approved from email request"
  approved_name Channel.matrix = "Approved from matrix request"

  -- The part of `approve_request` that lets the sender in.
  unfoldable pub admit : AccessRequest → Exec Database User
  admit r = do
    rows ← gets (λ db. select (has_key r.channel r.external_id) db.identities)
    found ← lift (one_or_none rows)
    (user, identity) ← approved_identity r found (approved_name r.channel)
    grant_permission identity PermissionKind.chat
    pure user

  unfoldable pub approve_request : ℕ → Option String → Exec Database User
  approve_request request_id resolved_by = do
    request ← pending_request request_id
    user ← admit request
    save_request (resolved request RequestStatus.approved resolved_by)
    record_admin_event (actor_or_default resolved_by) "request.approve" "access_request"
        (some request_id)
        (("user_id", Detail.number user.id)
          ∷ ("channel", Detail.text (channel_value request.channel))
          ∷ [])
    pure user

  unfoldable pub deny_request : ℕ → Option String → Exec Database (Unit {0})
  deny_request request_id resolved_by = do
    request ← pending_request request_id
    save_request (resolved request RequestStatus.denied resolved_by)
    record_admin_event (actor_or_default resolved_by) "request.deny" "access_request"
        (some request_id) (("channel", Detail.text (channel_value request.channel)) ∷ [])
    pure tt

  abbrev pub is_pending_request : Channel → String → AccessRequest → Bool
  is_pending_request channel external_id r = is_request channel external_id r && is_pending r.status

  -- The loop of `resolve_requests_for_identity`.
  unfoldable pub auto_approve : Channel → String → List AccessRequest → Exec Database (Unit {0})
  auto_approve channel actor [] = pure tt
  auto_approve channel actor (r ∷ rs) = do
    save_request (resolved r RequestStatus.approved (some actor))
    record_admin_event actor "request.auto_approve" "access_request" (some r.id)
        (("channel", Detail.text (channel_value channel)) ∷ [])
    auto_approve channel actor rs

  unfoldable pub resolve_requests_for_identity : Channel → String → String → Exec Database ℕ
  unfolding auto_approve
  resolve_requests_for_identity channel external_id actor = do
    rows ← gets (λ db. select (is_pending_request channel external_id) db.requests)
    auto_approve channel actor rows
    pure (length rows)
