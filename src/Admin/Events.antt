-- ===== src/Admin/Events.antt =====
-- app/admin/service.py: `record_admin_event`, written in the transaction of the change that it
-- records, and the lookups that the operations begin with.
use Prim.Native.String.{count}
use channel_agent.Prelude.{
  ℕ, String, ◌||◌, not, Bool, Option, none, some, List, [], ◌∷◌, ◌++◌, map, first, strip, str_eq,
  ltb, ◌==◌, if◌then◌else◌,
}
use channel_agent.Env.{Env}
use channel_agent.Exec.{
  Exec, invalid_input, user_not_found, identity_not_found, agent_not_found, pure, raise, gets,
  modify, raise_if, or_raise, ◌>>=◌, ◌>>◌,
}
use channel_agent.Model.{Database, User, Agent, ChannelIdentity, AdminEvent, Detail}
use channel_agent.Auth.{has_user_id}

abbrev pub default_actor : String
default_actor = "unspecified"

abbrev pub max_actor_length : ℕ
max_actor_length = 32

-- `json.dumps(details) if details else None`
abbrev stored_details : List (String × Detail) → Option (List (String × Detail))
stored_details [] = none
stored_details (d ∷ ds) = some (d ∷ ds)

abbrev pub actor_is_refused : String → Bool
actor_is_refused actor = str_eq actor "" || ltb max_actor_length (count actor)

module _ ⦃env : Env⦄ where
  unfoldable pub record_admin_event :
      String → String → String → Option ℕ → List (String × Detail) → Exec Database AdminEvent
  unfolding strip
  record_admin_event given action target_type target_id details = do
    let actor = strip given
    raise_if (actor_is_refused actor) invalid_input
    id ← gets (λ db. env.new_id (map (λ e. e.id) db.events))
    let event : AdminEvent = record {
      id = id;
      actor = actor;
      action = action;
      target_type = target_type;
      target_id = target_id;
      details = stored_details details;
    }
    modify (λ db. record db { events = db.events ++ event ∷ [] })
    pure event

-- session.get(User, user_id), and the error of a user that does not exist
unfoldable pub require_user : ℕ → Exec Database User
require_user user_id = do
  user ← gets (λ db. first (has_user_id user_id) db.users)
  or_raise user user_not_found

abbrev pub has_agent_id : ℕ → Agent → Bool
has_agent_id id a = a.id == id

unfoldable pub get_agent : ℕ → Exec Database Agent
get_agent agent_id = do
  agent ← gets (λ db. first (has_agent_id agent_id) db.agents)
  or_raise agent agent_not_found

abbrev pub has_identity_id : ℕ → ChannelIdentity → Bool
has_identity_id id i = i.id == id

abbrev owned_identity : ℕ → Option ChannelIdentity → Exec Database ChannelIdentity
owned_identity user_id none = raise identity_not_found
owned_identity user_id (some i) =
    if not (i.user_id == user_id) then raise identity_not_found else pure i

-- `_identity_of_user`
unfoldable pub identity_of_user : ℕ → ℕ → Exec Database ChannelIdentity
unfolding require_user
identity_of_user user_id identity_id = do
  require_user user_id
  identity ← gets (λ db. first (has_identity_id identity_id) db.identities)
  owned_identity user_id identity
