-- ===== src/Channels/Dispatch/Safety/Switching.antt =====
-- app/channels/dispatch.py: the command /agent is answered without the model.
use mathlib.Core.Path.{subst}
use channel_agent.Prelude.{
  String, ◌≡◌, sym, refl, true, false, inl, inr, Option, none, some, Bool-cases,
}
use channel_agent.Env.{Env}
use channel_agent.Exec.{Result, ok, err}
use channel_agent.Model.{Database, User, ChannelIdentity}
use channel_agent.Auth.{AuthDecision, authorize}
use channel_agent.Auth.Decision.{authorize-IsAuthorized}
use channel_agent.Channels.World.{World, NormalizedEvent, Senders}
use channel_agent.Channels.Dispatch.{Turn, dispatch_event}
use channel_agent.Channels.Dispatch.Safety.{turns, IsQuiet, IsQuiet-deny, quiet_rules}
use channel_agent.Channels.Command.{handle_agent_command, command_allowed}

module _ ⦃env : Env⦄ where
  IsQuiet-command_allowed :
      (event : NormalizedEvent) (argument : String) (u : Option User) (i : Option ChannelIdentity)
      → IsQuiet (command_allowed event argument u i)
  IsQuiet-command_allowed event argument (some u) (some i) = search quiet_rules depth 9
  IsQuiet-command_allowed event argument (some u) none = search quiet_rules
  IsQuiet-command_allowed event argument none i = search quiet_rules

  dispatch_refused :
      (rt : Turn) (s : Senders) (event : NormalizedEvent) (w : World) (d : AuthDecision)
      (db : Database)
      → authorize event.channel event.user_id w.work ≡ (ok d, db)
      → d.allowed ≡ false
      → turns (dispatch_event rt s event true false w).1.effects ≡ turns w.effects
  unfolding dispatch_event
  dispatch_refused rt s event w d db h refused =
      simp (h, refused) ((IsQuiet-deny s event d).at (record w { work = db }))

  -- The command /agent never asks the model, whoever sends it and whatever the argument.
  pub handle_agent_command_quiet :
      (rt : Turn) (s : Senders) (event : NormalizedEvent) (argument : String) (w : World)
      → turns (handle_agent_command rt s event argument w).1.effects ≡ turns w.effects
  unfolding handle_agent_command
  handle_agent_command_quiet rt s event argument w = go _ refl
    where
      go :
          (m : Result AuthDecision × Database)
          → authorize event.channel event.user_id w.work ≡ m
          → turns (handle_agent_command rt s event argument w).1.effects ≡ turns w.effects
      go (err e, db) h = rw h refl
      go (ok d, db) h =
          let same = (authorize-IsAuthorized event.channel event.user_id w.work d db h).0 in
          let again : authorize event.channel event.user_id db ≡ (ok d, db) =
            subst (λ (x : Database). authorize event.channel event.user_id x ≡ (ok d, db))
              (sym same) h in
          elim (Bool-cases d.allowed) [
            | inl allowed ↦
                simp (h, allowed)
                  ((IsQuiet-command_allowed event argument d.user d.identity).at
                    (record w { work = db }))
            | inr refused ↦
                simp (h, refused)
                  (dispatch_refused rt s event (record w { work = db }) d db again refused)
          ]
