-- ===== src/Channels/Dispatch.antt =====
-- app/channels/dispatch.py: authorize, run the turn, deliver the reply, and record every step. The
-- turn of the model (`run_turn` of app/graph.py) is a parameter here: `none` is an exception.
pub mod Safety
pub mod Outcomes
pub mod Retry
use channel_agent.Prelude.{
  ℕ, String, not, Bool, true, false, Option, none, some, [], ◌∷◌, if◌then◌else◌,
}
use channel_agent.Env.{Env}
use channel_agent.Exec.{Exec, missing_row, pure, raise, gets, ◌>>=◌, ◌>>◌}
use channel_agent.Model.{Channel, User, ChannelIdentity, ActionLog, ActionStatus, inbound, outbound}
use channel_agent.Auth.{AuthDecision, authorize, channel_identifier_key}
use channel_agent.Admin.Requests.{ensure_access_request}
use channel_agent.Admin.Agents.{get_or_create_default_agent, resolve_agent}
use channel_agent.Admin.Logs.{record_action, save_log, shown, find_undelivered_answer}
use channel_agent.Channels.World.{
  World, NormalizedEvent, Senders, turn, on_database, commit, emit, try_reply, reply,
  describe_request, notify_admins,
}

abbrev pub denied_message : String
denied_message =
    "You're not authorized to use this bot yet. Your request has been recorded and an admin will review it."

abbrev pub apology_message : String
apology_message = "Sorry, I cannot answer right now. Please try again in a few minutes."

abbrev pub no_reply_note : String
no_reply_note = "(the turn failed, no reply was sent)"

abbrev pub agent_disabled_message : String
agent_disabled_message = "This agent is currently disabled. Please contact an administrator."

-- SILENT_DENIAL_CHANNELS
abbrev pub is_silent : Channel → Bool
is_silent Channel.email = true
is_silent _ = false

pub data DispatchOutcome : Type 0 where
  answered denied failed undelivered : DispatchOutcome

abbrev pub when : Bool → Exec World (Unit {0}) → Exec World (Unit {0})
when true m = m
when false m = pure tt

-- The turn: the channel, the sender, the agent, the text and whether it is a retry.
abbrev pub Turn : Type 0
Turn = Channel → String → ℕ → String → Bool → Option String

-- `_redeliver`
unfoldable pub redeliver : NormalizedEvent → ActionLog → Exec World DispatchOutcome
redeliver event pending = do
  sent ← try_reply event (shown pending.text)
  if not sent then pure undelivered else do
    on_database (save_log (record pending { status = ActionStatus.ok }))
    commit
    pure answered

module _ ⦃env : Env⦄ where
  -- A known sender without permission is recorded under the default agent.
  abbrev pub record_denied : NormalizedEvent → Option User → Exec World (Unit {0})
  record_denied event none = pure tt
  record_denied event (some user) = do
    agent ← on_database (get_or_create_default_agent user.id)
    on_database
        (record_action user.id agent.id event.channel inbound event.text ActionStatus.denied)
    pure tt

  unfoldable pub deny : Senders → NormalizedEvent → AuthDecision → Exec World DispatchOutcome
  deny senders event decision = do
    let key = channel_identifier_key event.channel event.user_id
    (request, is_new) ← on_database (ensure_access_request event.channel key event.text)
    record_denied event decision.user
    commit
    when is_new (do notify_admins senders (describe_request request); pure tt)
    when (not (is_silent event.channel)) (reply event denied_message)
    pure denied

  unfoldable pub refuse_disabled : NormalizedEvent → ℕ → ℕ → Exec World DispatchOutcome
  refuse_disabled event user_id agent_id = do
    on_database
        (record_action user_id agent_id event.channel inbound event.text ActionStatus.denied)
    commit
    try_reply event agent_disabled_message
    pure denied

  -- The handler of a failed turn.
  unfoldable pub fail_turn : NormalizedEvent → ℕ → ℕ → Bool → Exec World DispatchOutcome
  fail_turn event user_id agent_id apologize = do
    sent ← if apologize then try_reply event apology_message else pure false
    let text = if sent then apology_message else no_reply_note
    on_database (record_action user_id agent_id event.channel outbound text ActionStatus.failed)
    commit
    pure failed

  -- A turn that answered: the answer is kept before it is sent.
  unfoldable pub deliver : NormalizedEvent → ℕ → ℕ → String → Exec World DispatchOutcome
  deliver event user_id agent_id reply_text = do
    entry ←
        on_database
          (record_action user_id agent_id event.channel outbound reply_text ActionStatus.ok)
    commit
    sent ← try_reply event reply_text
    if sent then pure answered else do
      on_database (save_log (record entry { status = ActionStatus.failed }))
      commit
      pure undelivered

  unfoldable pub answer : Turn → NormalizedEvent → ℕ → ℕ → Bool → Bool → Exec World DispatchOutcome
  answer run_turn event user_id agent_id apologize retry = do
    emit (turn agent_id event.text retry)
    elim (run_turn event.channel event.user_id agent_id event.text retry) [
      | none ↦ fail_turn event user_id agent_id apologize
      | some reply_text ↦ deliver event user_id agent_id reply_text
    ]

  abbrev kept_answer : NormalizedEvent → ℕ → ℕ → World → Option ActionLog
  kept_answer event user_id agent_id w =
      find_undelivered_answer user_id agent_id event.channel event.text
        (apology_message ∷ no_reply_note ∷ []) w.work.logs

  -- An allowed sender whose agent is active.
  unfoldable pub serve : Turn → NormalizedEvent → ℕ → ℕ → Bool → Bool → Exec World DispatchOutcome
  serve run_turn event user_id agent_id apologize false = do
    on_database (record_action user_id agent_id event.channel inbound event.text ActionStatus.ok)
    commit
    answer run_turn event user_id agent_id apologize false
  serve run_turn event user_id agent_id apologize true = do
    commit
    pending ← gets (kept_answer event user_id agent_id)
    elim pending [
      | none ↦ answer run_turn event user_id agent_id apologize true
      | some entry ↦ redeliver event entry
    ]

  abbrev pub dispatch_allowed :
      Turn
      → NormalizedEvent
      → Bool
      → Bool
      → Option User
      → Option ChannelIdentity
      → Exec World DispatchOutcome
  dispatch_allowed run_turn event apologize retry (some user) (some identity) = do
    agent ← on_database (resolve_agent user.id identity.active_agent_id)
    if not agent.is_active
        then refuse_disabled event user.id agent.id
        else serve run_turn event user.id agent.id apologize retry
  dispatch_allowed run_turn event apologize retry _ _ = raise missing_row

  unfoldable pub dispatch_event :
      Turn → Senders → NormalizedEvent → Bool → Bool → Exec World DispatchOutcome
  dispatch_event run_turn senders event apologize retry = do
    decision ← on_database (authorize event.channel event.user_id)
    if not decision.allowed
        then deny senders event decision
        else dispatch_allowed run_turn event apologize retry decision.user decision.identity
