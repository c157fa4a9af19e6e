-- ===== src/Channels/Command.antt =====
-- app/channels/dispatch.py: the command /agent, which lists the sender's agents or switches to one.
use Prim.Native.String
use channel_agent.Prelude.{
  ℕ, String, not, true, false, Option, none, some, List, [], ◌∷◌, map, update, strip, str_eq, ◌==◌,
  if◌then◌else◌,
}
use channel_agent.Env.{Env}
use channel_agent.Exec.{Exec, missing_row, pure, raise, modify, ◌>>=◌, ◌>>◌}
use channel_agent.Model.{Database, User, ChannelIdentity, Agent, ActionStatus, inbound, outbound}
use channel_agent.Auth.{authorize}
use channel_agent.Admin.Events.{has_identity_id}
use channel_agent.Admin.Agents.{resolve_agent, list_agents, find_agent_by_name}
use channel_agent.Admin.Logs.{record_action}
use channel_agent.Channels.World.{World, NormalizedEvent, Senders, on_database, commit, try_reply}
use channel_agent.Channels.Dispatch.{Turn, DispatchOutcome, answered, undelivered, dispatch_event}

infixr 5 ◌&◌
abbrev ◌&◌ : String → String → String
s & t = String.◌++◌ s t

-- `", ".join(parts)`
abbrev joined : List String → String
joined [] = ""
joined (s ∷ []) = s
joined (s ∷ t ∷ rest) = s & ", " & joined (t ∷ rest)

abbrev label : ℕ → Agent → String
label current_id a =
    let name = a.name & (if a.id == current_id then "*" else "") in
    if a.is_active then name else name & " (disabled)"

-- `_agent_list_text`
unfoldable pub agent_list_text : List Agent → ℕ → String
agent_list_text agents current_id =
    "Your agents: " & joined (map (label current_id) agents) & ". * is the one you are talking to."

module _ ⦃env : Env⦄ where
  abbrev switch : ChannelIdentity → ℕ → Exec Database (Unit {0})
  switch identity agent_id = modify (λ db. record db {
    identities =
        update (has_identity_id identity.id) (λ i. record i { active_agent_id = some agent_id })
          db.identities;
  })

  -- The agent that the command leaves current, and the answer, once an agent was looked for.
  abbrev pub switch_to :
      ChannelIdentity → String → List Agent → Agent → Option Agent → Exec Database (Agent × String)
  switch_to identity name agents current none =
      pure (current, "No agent named " & env.repr name & ". " & agent_list_text agents current.id)
  switch_to identity name agents current (some chosen) =
      if not chosen.is_active
      then pure (
        current,
        "Agent " & env.repr chosen.name & " is disabled. " & agent_list_text agents current.id,
      )
      else do
        switch identity chosen.id
        pure (chosen, "You are now talking to agent " & env.repr chosen.name & ".")

  -- The part of `handle_agent_command` that decides.
  unfoldable pub choose_agent : ℕ → ChannelIdentity → String → Exec Database (Agent × String)
  choose_agent user_id identity argument = do
    current ← resolve_agent user_id identity.active_agent_id
    agents ← list_agents user_id
    let name = strip argument
    if str_eq name ""
        then pure (current, agent_list_text agents current.id & " Use /agent <name> to switch.")
        else do
          chosen ← find_agent_by_name user_id name
          switch_to identity name agents current chosen

  abbrev pub command_allowed :
      NormalizedEvent → String → Option User → Option ChannelIdentity → Exec World DispatchOutcome
  command_allowed event argument (some user) (some identity) = do
    (current, text) ← on_database (choose_agent user.id identity argument)
    let command = strip ("/agent " & strip argument)
    on_database (record_action user.id current.id event.channel inbound command ActionStatus.ok)
    on_database (record_action user.id current.id event.channel outbound text ActionStatus.ok)
    commit
    sent ← try_reply event text
    pure (if sent then answered else undelivered)
  command_allowed event argument _ _ = raise missing_row

  unfoldable pub handle_agent_command :
      Turn → Senders → NormalizedEvent → String → Exec World DispatchOutcome
  handle_agent_command run_turn senders event argument = do
    decision ← on_database (authorize event.channel event.user_id)
    if not decision.allowed
        then dispatch_event run_turn senders event true false
        else command_allowed event argument decision.user decision.identity
