-- ===== src/Admin/Agents.antt =====
-- app/admin/service.py: the agents of a user, and which of them a message reaches.
pub mod Names
use Prim.Native.String.{count}
use channel_agent.Prelude.{
  ℕ, String, ◌&&◌, ◌||◌, not, Bool, true, false, Option, none, some, List, [], ◌∷◌, ◌++◌, map,
  select, first, update, strip, str_eq, ltb, ◌==◌, if◌then◌else◌,
}
use channel_agent.Env.{Env}
use channel_agent.Exec.{
  Exec, Result, ok, err, agent_not_found, agent_name_taken, invalid_input, pure, gets, lift, modify,
  raise_if, one_or_none, or_raise, ◌>>=◌, ◌>>◌,
}
use channel_agent.Model.{Database, Agent, ChannelIdentity, Detail}
use channel_agent.Admin.Events.{
  record_admin_event, require_user, get_agent, has_agent_id, has_identity_id, identity_of_user,
}
use channel_agent.Admin.Settings.{clean_config, apply_settings, setting_names, setting_details}

abbrev pub default_agent_name : String
default_agent_name = "default"

abbrev pub max_agent_name_length : ℕ
max_agent_name_length = 100

-- Agent.user_id == user_id, Agent.name == name
abbrev pub is_agent : ℕ → String → Agent → Bool
is_agent user_id name a = a.user_id == user_id && str_eq a.name name

abbrev pub owned_by : ℕ → Agent → Bool
owned_by user_id a = a.user_id == user_id

abbrev pub save_agent : Agent → Exec Database (Unit {0})
save_agent a = modify (λ db. record db { agents = update (has_agent_id a.id) (λ _. a) db.agents })

-- `_clean_agent_name`
unfoldable pub clean_agent_name : String → Result String
clean_agent_name given =
    let name = strip given in
    if str_eq name "" || ltb max_agent_name_length (count name) then err invalid_input else ok name

-- `_agent_named`
unfoldable pub agent_named : ℕ → String → Exec Database (Option Agent)
agent_named user_id name = do
  rows ← gets (λ db. select (is_agent user_id name) db.agents)
  lift (one_or_none rows)

unfoldable pub list_agents : ℕ → Exec Database (List Agent)
list_agents user_id = do require_user user_id; gets (λ db. select (owned_by user_id) db.agents)

abbrev pub is_some {ℓ} : {A : Type ℓ} → Option A → Bool
is_some none = false
is_some (some _) = true

-- `clash is not None and clash.id != agent.id`
abbrev clashes : Option Agent → Agent → Bool
clashes none a = false
clashes (some c) a = not (c.id == a.id)

module _ ⦃env : Env⦄ where
  abbrev pub new_agent : ℕ → String → List Agent → Agent
  new_agent user_id name rows = record {
    id = env.new_id (map (λ a. a.id) rows);
    user_id = user_id;
    name = name;
    is_active = true;
    system_prompt = none;
    model = none;
    memory_mode = "off";
    tools = [];
  }

  abbrev agent_or_new : ℕ → Option Agent → Exec Database Agent
  agent_or_new user_id (some a) = pure a
  agent_or_new user_id none = do
    agent ← gets (λ db. new_agent user_id default_agent_name db.agents)
    modify (λ db. record db { agents = db.agents ++ agent ∷ [] })
    pure agent

  unfoldable pub get_or_create_default_agent : ℕ → Exec Database Agent
  get_or_create_default_agent user_id = do
    require_user user_id
    existing ← agent_named user_id default_agent_name
    agent_or_new user_id existing

  abbrev selected_agent : ℕ → Option Agent → Exec Database Agent
  selected_agent user_id none = get_or_create_default_agent user_id
  selected_agent user_id (some a) =
      if a.user_id == user_id then pure a else get_or_create_default_agent user_id

  unfoldable pub resolve_agent : ℕ → Option ℕ → Exec Database Agent
  resolve_agent user_id none = get_or_create_default_agent user_id
  resolve_agent user_id (some active_agent_id) = do
    agent ← gets (λ db. first (has_agent_id active_agent_id) db.agents)
    selected_agent user_id agent

  -- `agent.name.lower() == wanted`
  abbrev pub answers_to : String → Agent → Bool
  answers_to wanted a = str_eq (env.lower a.name) wanted

  unfoldable pub find_agent_by_name : ℕ → String → Exec Database (Option Agent)
  find_agent_by_name user_id name = do
    let wanted = env.lower (strip name)
    agents ← list_agents user_id
    pure (first (answers_to wanted) agents)

  unfoldable pub configure_agent : ℕ → List (String × Detail) → String → Exec Database Agent
  configure_agent agent_id fields actor = do
    agent ← get_agent agent_id
    cleaned ← lift (clean_config fields)
    let configured = apply_settings cleaned agent
    save_agent configured
    record_admin_event actor "agent.configure" "agent" (some agent.id) (setting_details cleaned)
    pure configured

  unfoldable pub create_agent : ℕ → String → String → List (String × Detail) → Exec Database Agent
  create_agent user_id given actor settings = do
    require_user user_id
    name ← lift (clean_agent_name given)
    taken ← agent_named user_id name
    raise_if (is_some taken) agent_name_taken
    cleaned ← lift (clean_config settings)
    fresh ← gets (λ db. new_agent user_id name db.agents)
    let agent = apply_settings cleaned fresh
    modify (λ db. record db { agents = db.agents ++ agent ∷ [] })
    record_admin_event actor "agent.create" "agent" (some agent.id) (
        ("name", Detail.text name)
        ∷ ("owner_user_id", Detail.number user_id)
        ∷ setting_names cleaned)
    pure agent

  unfoldable pub rename_agent : ℕ → String → String → Exec Database Agent
  rename_agent agent_id given actor = do
    agent ← get_agent agent_id
    new_name ← lift (clean_agent_name given)
    clash ← agent_named agent.user_id new_name
    raise_if (clashes clash agent) agent_name_taken
    let renamed : Agent = record agent { name = new_name }
    save_agent renamed
    record_admin_event actor "agent.rename" "agent" (some agent.id)
        (("old_name", Detail.text agent.name) ∷ ("new_name", Detail.text new_name) ∷ [])
    pure renamed

  unfoldable pub set_agent_active : ℕ → Bool → String → Exec Database Agent
  set_agent_active agent_id is_active actor = do
    agent ← get_agent agent_id
    let changed : Agent = record agent { is_active = is_active }
    save_agent changed
    record_admin_event actor "agent.set_active" "agent" (some agent.id)
        (("is_active", Detail.flag is_active) ∷ [])
    pure changed

  -- The check of `set_identity_agent`: the agent must belong to the same user.
  abbrev require_owned : ℕ → Option ℕ → Exec Database (Unit {0})
  require_owned user_id none = pure tt
  require_owned user_id (some agent_id) = do
    row ← gets (λ db. first (has_agent_id agent_id) db.agents)
    agent ← or_raise row agent_not_found
    raise_if (not (agent.user_id == user_id)) agent_not_found

  abbrev pub number_or_null : Option ℕ → Detail
  number_or_null none = Detail.null
  number_or_null (some n) = Detail.number n

  unfoldable pub set_identity_agent : ℕ → ℕ → Option ℕ → String → Exec Database ChannelIdentity
  set_identity_agent user_id identity_id agent_id actor = do
    identity ← identity_of_user user_id identity_id
    require_owned user_id agent_id
    let chosen : ChannelIdentity = record identity { active_agent_id = agent_id }
    modify (λ db. record db {
      identities = update (has_identity_id identity.id) (λ _. chosen) db.identities;
    })
    record_admin_event actor "identity.set_agent" "user" (some user_id)
        (("identity_id", Detail.number identity_id) ∷ ("agent_id", number_or_null agent_id) ∷ [])
    pure chosen
