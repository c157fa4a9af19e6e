-- ===== src/Examples/Conversations.antt =====
-- A conversation of three messages, a turn that fails twice, and a window of two messages.
use channel_agent.Prelude.{
  ℕ, String, ◌≡◌, refl, ◌&&◌, Bool, true, false, Option, some, none, List, [], ◌∷◌, ◌++◌,
  if◌then◌else◌, ap, length, leb,
}
use channel_agent.Admin.Routing.{Routing}
use channel_agent.Turn.{
  Role, human, assistant, Message, GraphState, Answer, replied, status, failed, Counter, Trim,
}
use channel_agent.Turn.Node.{Surroundings, call_llm}
use channel_agent.Turn.Run.{
  Graph, GraphLaws, Attempt, question, reply, with_messages, run_turn, settings_of,
}
use channel_agent.Turn.Retries.{run_retries, run_turn-retried}
use channel_agent.Turn.Covered.{IsCovered, turns, IsCovered-turns}

abbrev counter : Counter
counter = record { of_messages = length; of_system = λ s. 1 }

abbrev starts_on_human : List Message → Bool
starts_on_human [] = true
starts_on_human (m ∷ ms) = elim m.role [ human ↦ true | assistant ↦ false ]

-- The longest end that starts on a human message and fits.
abbrev keep : ℕ → List Message → List Message
keep budget [] = []
keep budget (m ∷ ms) =
    let rest = keep budget ms in
    if starts_on_human (m ∷ ms) && leb (length (m ∷ ms)) budget then m ∷ ms else rest

abbrev trim : Trim
trim c budget ms = keep budget ms

abbrev message : Role → String → String → Message
message role content id = record { role = role; content = content; id = id }

abbrev history : List Message
history =
    message human "hello" "1"
    ∷ message assistant "good day" "2"
    ∷ message human "what time is it" "3"
    ∷ []

-- The store saves the input before the node runs.
abbrev ended : GraphState → Option GraphState → Option GraphState × GraphState
ended before none = (none, before)
ended before (some result) = (some result, result)

abbrev graph : Graph
graph node new state = ended (with_messages new state) (node (with_messages new state))

graph_laws : GraphLaws graph
graph_laws = record {
  saves_result = λ node new state result h. ap (ended (with_messages new state)) h;
  keeps_input = λ node new state h. ap (ended (with_messages new state)) h;
}

abbrev around : Answer → Surroundings
around answer = record {
  trim = trim;
  counter = counter;
  llama_ctx_size = 8;
  engine = λ request. answer;
  tool_loop = none;
}

abbrev routing : Routing
routing = record { default_model = none; model_ctx_sizes = []; rules = [] }

abbrev attempt : Answer → String → Attempt
attempt answer id = record {
  surroundings = around answer;
  agent = none;
  routing = routing;
  question_id = id;
  reply_id = id;
}

abbrev start : GraphState
start = record { messages = history; summary = ""; summary_covers = 0 }

abbrev text : String
text = "and tomorrow"

abbrev first_try : Attempt
first_try = attempt failed "4"

abbrev last_try : Attempt
last_try = attempt (replied "the same") "6"

abbrev result : GraphState
result = record {
  messages = (history ++ message human text "4" ∷ []) ++ message assistant "the same" "6" ∷ [];
  summary = "";
  summary_covers = 0;
}

run_turn-retried_example :
    let after = run_turn graph true last_try text (
      run_retries graph text
        (attempt (status 500) "5" ∷ [])
        (run_turn graph false first_try text start).1) in
    (answer : String) × (after ≡ (some answer, result))
    × (result.messages ≡ (history ++ question first_try text ∷ []) ++ reply last_try answer ∷ [])
unfolding call_llm settings_of
run_turn-retried_example =
    run_turn-retried graph graph_laws text first_try last_try (attempt (status 500) "5" ∷ []) start
      result refl (refl, tt) refl

IsCovered-turns_example :
    IsCovered (turns graph (record { retry = false; attempt = last_try; text = text } ∷ []) start)
IsCovered-turns_example =
    IsCovered-turns graph graph_laws
      (record { retry = false; attempt = last_try; text = text } ∷ []) start refl
