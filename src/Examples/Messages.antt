-- ===== src/Examples/Messages.antt =====
-- Messages through the pipeline, on the example world.
use channel_agent.Prelude.{
  ◌≡◌, ◌≢◌, refl, true, false, none, some, select, first, arith, str_eq_iff,
}
use mathlib.Core.Bool.{false≢true}
use channel_agent.Exec.{ok}
use channel_agent.Model.{Channel}
use channel_agent.Auth.{authorize, channel_identifier_key}
use channel_agent.Auth.Decision.{IsAuthorized}
use channel_agent.Admin.Events.{require_user}
use channel_agent.Admin.Agents.{resolve_agent, get_or_create_default_agent, agent_named}
use channel_agent.Admin.Logs.{record_action}
use channel_agent.Channels.Dispatch.{
  Turn, answered, undelivered, dispatch_event, serve, answer, deliver, apology_message,
  no_reply_note,
}
use channel_agent.Channels.Dispatch.Safety.{turns, dispatch_event-IsAuthorized}
use channel_agent.Channels.Dispatch.Outcomes.{world_after, serve_lem}
use channel_agent.Channels.Dispatch.Retry.{IsUndelivered, retried, serve-retry}
use channel_agent.Examples.Fixture.{
  example_env, example_laws, database, world, unreachable, no_senders,
}

-- A model that answers every message with "hi".
abbrev greeter : Turn
greeter c user agent text retry = some "hi"

hello_is_answered :
    turns (dispatch_event greeter no_senders unreachable true false world).1.effects
    ≢ turns world.effects
unfolding dispatch_event serve answer deliver record_action authorize channel_identifier_key
    resolve_agent get_or_create_default_agent agent_named require_user select first turns
hello_is_answered e = ground (arith, e)

dispatch_event-IsAuthorized_example :
    IsAuthorized database Channel.telegram (channel_identifier_key Channel.telegram "7")
dispatch_event-IsAuthorized_example =
    dispatch_event-IsAuthorized greeter no_senders unreachable true false world hello_is_answered

serve_lem_example :
    serve greeter unreachable 1 1 true false world
    ≡ (ok undelivered, world_after greeter unreachable 1 1 true world)
serve_lem_example = serve_lem greeter unreachable 1 1 true world example_laws

hello_is_lost : IsUndelivered greeter unreachable 1 1 true world "hi"
hello_is_lost = record {
  answer = refl;
  lost = refl;
  not_apology = λ e. false≢true ((str_eq_iff "hi" apology_message).1 e);
  not_note = λ e. false≢true ((str_eq_iff "hi" no_reply_note).1 e);
}

-- The second delivery goes through, and another model is not asked.
serve-retry_example :
    serve
      (λ c u a t r. none)
      (record unreachable { delivers = λ _. true })
      1
      1
      true
      true
      (world_after greeter unreachable 1 1 true world)
    ≡ (ok answered, retried greeter unreachable 1 1 true world "hi" true)
serve-retry_example =
    serve-retry greeter unreachable 1 1 true world "hi" example_laws hello_is_lost
      (λ c u a t r. none) (λ _. true) true
