-- ===== src/Examples/Turns.antt =====
-- A turn whose engine asks twice for the same tool, then answers; and a routing rule.
use channel_agent.Prelude.{◌≡◌, refl, false, none, some, List, [], ◌∷◌, strip}
use channel_agent.Exec.{ok}
use channel_agent.Model.{Detail}
use channel_agent.Admin.Settings.{clean_model, is_model_name}
use channel_agent.Admin.Deletion.{decimal}
use channel_agent.Admin.Routing.{GivenRule, RoutingRule, MatchType, clean_rule, clean_match_value}
use channel_agent.Tools.{Call, Message, given, Engine, Executor, returned, run_tool_loop}
use channel_agent.Tools.Bounds.{IsWithin, run_tool_loop-IsWithin}
use channel_agent.Tools.Once.{IsDistinct, asked_ids, answered_ids, run_tool_loop-IsSound}
use channel_agent.Examples.Fixture.{example_env}

abbrev clock : Call
clock = record { id = "1"; name = "clock"; arguments = "{}" }

abbrev engine : Engine
engine (given s ∷ []) = some (record { content = none; calls = clock ∷ clock ∷ [] })
engine _ = some (record { content = some "noon"; calls = [] })

abbrev executor : Executor
executor name arguments = returned "12:00"

abbrev question : List Message
question = given "what time is it?" ∷ []

run_tool_loop-IsWithin_example : IsWithin 1 4 (run_tool_loop engine executor question)
run_tool_loop-IsWithin_example = run_tool_loop-IsWithin engine executor question

run_tool_loop-IsSound_example :
    IsDistinct (run_tool_loop engine executor question).1.ran
    × (asked_ids (run_tool_loop engine executor question).1.working
        ≡ answered_ids (run_tool_loop engine executor question).1.working)
unfolding asked_ids answered_ids
run_tool_loop-IsSound_example = run_tool_loop-IsSound executor engine question refl

abbrev long_messages : GivenRule
long_messages = record {
  match_type = Detail.text "min_length";
  match_value = Detail.number 12;
  model = Detail.text "big";
  extra = false;
}

abbrev long_rule : RoutingRule
long_rule = record { match_type = MatchType.min_length; match_value = "12"; model = "big" }

clean-long : clean_rule long_messages ≡ ok long_rule
unfolding clean_rule clean_model clean_match_value is_model_name decimal strip
clean-long = refl
