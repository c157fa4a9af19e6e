-- ===== src/Channels/Dispatch/Outcomes.antt =====
-- app/channels/dispatch.py: what a message of an allowed sender leaves in the audit trail.
use channel_agent.Prelude.{
  ℕ, String, ◌≡◌, refl, Bool, true, false, ◌&&◌, Option, none, some, List, [], ◌∷◌, ◌++◌, any,
  update, any_id-none, arith, ==-refl, if◌then◌else◌, Bool-cases, Option-cases, inl, inr,
  append-nil,
}
use channel_agent.Env.{Env, EnvLaws}
use channel_agent.Exec.{ok}
use channel_agent.Model.{Database, ActionLog, ActionStatus, inbound, outbound}
use channel_agent.Admin.Logs.{record_action, new_log, has_log_id}
use channel_agent.Channels.World.{World, NormalizedEvent, Effect, turn, replied}
use channel_agent.Channels.Dispatch.{
  Turn, DispatchOutcome, answered, failed, undelivered, serve, answer, deliver, fail_turn,
  apology_message, no_reply_note,
}

abbrev pub log_id : ActionLog → ℕ
log_id e = e.id

-- Saving the newest row.
pub update-append_last {ℓ} :
    {A : Type ℓ} (p : A → Bool) (f : A → A) (xs : List A) (x : A)
    → any p xs ≡ false
    → p x ≡ true
    → update p f (xs ++ x ∷ []) ≡ xs ++ f x ∷ []
unfolding update
update-append_last p f [] x h k = rw k refl
update-append_last p f (y ∷ ys) x h k = ground (arith, update-append_last p f ys x)

-- What the sender gets to know of a turn that returned `result`.
abbrev pub outcome_of : NormalizedEvent → Option String → DispatchOutcome
outcome_of event none = failed
outcome_of event (some text) = if event.delivers text then answered else undelivered

-- The text and the status of the outbound entry.
abbrev pub outbound_text : NormalizedEvent → Bool → Option String → String
outbound_text event apologize none =
    if apologize && event.delivers apology_message then apology_message else no_reply_note
outbound_text event apologize (some text) = text

-- The replies that are tried.
abbrev pub attempts : NormalizedEvent → Bool → Option String → List Effect
attempts event apologize none =
    if apologize
    then replied event.channel event.user_id apology_message (event.delivers apology_message) ∷ []
    else []
attempts event apologize (some text) =
    replied event.channel event.user_id text (event.delivers text) ∷ []

abbrev pub outbound_status : DispatchOutcome → ActionStatus
outbound_status answered = ActionStatus.ok
outbound_status _ = ActionStatus.failed

module _ ⦃env : Env⦄ (rt : Turn) (event : NormalizedEvent) (user_id agent_id : ℕ) (apologize : Bool)
    (w : World) where
  abbrev pub result : Bool → Option String
  result retry = rt event.channel event.user_id agent_id event.text retry

  -- The entries that the message leaves, the inbound one first.
  abbrev pub inbound_entry : ActionLog
  inbound_entry =
      new_log user_id agent_id event.channel inbound event.text ActionStatus.ok w.work.logs

  abbrev pub outbound_entry : ActionLog
  outbound_entry =
      new_log user_id agent_id event.channel outbound (outbound_text event apologize (result false))
        (outbound_status (outcome_of event (result false))) (w.work.logs ++ inbound_entry ∷ [])

  -- The database afterwards.
  abbrev pub kept : Database
  kept = record w.work { logs = (w.work.logs ++ inbound_entry ∷ []) ++ outbound_entry ∷ [] }

  abbrev pub effects_after : List Effect
  effects_after =
      (w.effects ++ turn agent_id event.text false ∷ []) ++ attempts event apologize (result false)

  abbrev pub world_after : World
  world_after = record w { stored = kept; work = kept; effects = effects_after }

  serve_failed :
      result false ≡ none
      → serve rt event user_id agent_id apologize false w
        ≡ (ok (outcome_of event (result false)), world_after)
  unfolding serve answer fail_turn record_action
  serve_failed h = elim (Bool-cases apologize) [
    | inl polite ↦ ground arith
    | inr silent ↦ ground (arith, append-nil (w.effects ++ turn agent_id event.text false ∷ []))
  ]

  -- The id of the outbound entry is new.
  outbound_is_new :
      EnvLaws env → any (has_log_id outbound_entry.id) (w.work.logs ++ inbound_entry ∷ []) ≡ false
  outbound_is_new laws = any_id-none log_id outbound_entry.id _ (laws.new_id_grows _)

  serve_delivered :
      (text : String)
      → result false ≡ some text
      → EnvLaws env
      → serve rt event user_id agent_id apologize false w
        ≡ (ok (outcome_of event (result false)), world_after)
  unfolding serve answer deliver record_action
  serve_delivered text h laws = elim (Bool-cases (event.delivers text)) [
    | inl sent ↦ ground arith
    | inr lost ↦ ground (
      arith,
      update-append_last (has_log_id outbound_entry.id) (λ _. outbound_entry)
          (w.work.logs ++ inbound_entry ∷ []) (record outbound_entry { status = ActionStatus.ok })
          (outbound_is_new laws) (==-refl outbound_entry.id),
    )
  ]

  -- A message of an allowed sender with an active agent, not retried, never raises. It leaves the
  -- inbound entry, then one outbound entry, both committed: the answer with status "ok" if it was
  -- delivered and "failed" if not, the apology or the note with status "failed" if the turn failed.
  -- The model is asked once, and the sender gets the answer, or the apology where it is wanted.
  pub serve_lem :
      EnvLaws env
      → serve rt event user_id agent_id apologize false w
        ≡ (ok (outcome_of event (result false)), world_after)
  serve_lem laws = elim (Option-cases (result false)) [
    | inl nothing ↦ serve_failed nothing
    | inr (text, h) ↦ serve_delivered text h laws
  ]
