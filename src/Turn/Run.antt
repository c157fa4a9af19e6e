-- ===== src/Turn/Run.antt =====
-- app/graph.py: `run_turn`. LangGraph's compiled graph is a parameter; an attempt has what surrounds it
-- and the ids that the store gives the two new messages.
use channel_agent.Prelude.{
  ℕ, String, ◌&&◌, ◌≡◌, Bool, true, false, Option, none, some, List, [], ◌∷◌, ◌++◌, str_eq,
  if◌then◌else◌,
}
use channel_agent.Model.{Agent}
use channel_agent.Admin.Routing.{Routing, select_model}
use channel_agent.Turn.{Role, human, assistant, Message, GraphState}
use channel_agent.Turn.Node.{AgentSettings, Surroundings, call_llm, present}

abbrev pub Node : Type 0
Node = GraphState → Option GraphState

-- The graph with its one node: the state that the thread has after a run with new messages, and the
-- result, if the node did not raise.
abbrev pub Graph : Type 0
Graph = Node → List Message → GraphState → Option GraphState × GraphState

-- The state once the reducer has added the new messages.
abbrev pub with_messages : List Message → GraphState → GraphState
with_messages new state = record state { messages = state.messages ++ new }

-- LangGraph saves the input before it runs the node, and the node's update after it.
pub record GraphLaws (graph : Graph) : Type 0 where
  pub saves_result :
      (node : Node) (new : List Message) (state result : GraphState)
      → node (with_messages new state) ≡ some result
      → graph node new state ≡ (some result, result)
  pub keeps_input :
      (node : Node) (new : List Message) (state : GraphState)
      → node (with_messages new state) ≡ none
      → graph node new state ≡ (none, with_messages new state)

abbrev size_for : String → List (String × ℕ) → Option ℕ
size_for model [] = none
size_for model ((name, size) ∷ rest) = if str_eq name model then some size else size_for model rest

abbrev size_of : Option String → List (String × ℕ) → Option ℕ
size_of none sizes = none
size_of (some model) sizes = size_for model sizes

abbrev or_model : Option String → Option String → Option String
or_model none other = other
or_model (some m) other = some m

-- What `run_turn` sets for the node.
unfoldable pub settings_of : Option Agent → Routing → String → AgentSettings
unfolding select_model
settings_of none routing text = record {
  system_prompt = none;
  model = none;
  default_model = none;
  ctx_size = none;
  tools_allowed = [];
}
settings_of (some agent) routing text =
    let model =
      or_model (present agent.model) (select_model text routing.rules routing.default_model) in
    record {
      system_prompt = agent.system_prompt;
      model = model;
      default_model = routing.default_model;
      ctx_size = size_of (present model) routing.model_ctx_sizes;
      tools_allowed = agent.tools;
    }

abbrev is_human : Role → Bool
is_human human = true
is_human assistant = false

-- Whether the last stored message is the user's message with this text.
abbrev pub ends_with_text : String → List Message → Bool
ends_with_text text [] = false
ends_with_text text (m ∷ []) = is_human m.role && str_eq m.content text
ends_with_text text (m ∷ n ∷ rest) = ends_with_text text (n ∷ rest)

abbrev pub last_content : List Message → String
last_content [] = ""
last_content (m ∷ []) = m.content
last_content (m ∷ n ∷ rest) = last_content (n ∷ rest)

pub record Attempt : Type 0 where
  pub surroundings : Surroundings
  pub agent : Option Agent
  pub routing : Routing
  pub question_id : String
  pub reply_id : String

abbrev pub question : Attempt → String → Message
question a text = record { role = human; content = text; id = a.question_id }

abbrev pub reply : Attempt → String → Message
reply a text = record { role = assistant; content = text; id = a.reply_id }

abbrev pub node_of : Attempt → String → Node
node_of a text = call_llm a.surroundings (settings_of a.agent a.routing text) (reply a)

-- `new_messages`
unfoldable pub new_messages : Bool → Attempt → String → List Message → List Message
new_messages retry a text stored =
    if retry && ends_with_text text stored then [] else question a text ∷ []

abbrev pub reply_text : Option GraphState × GraphState → Option String × GraphState
reply_text (none, state) = (none, state)
reply_text (some result, state) = (some (last_content result.messages), state)

-- `none` is a failed turn.
unfoldable pub run_turn : Graph → Bool → Attempt → String → GraphState → Option String × GraphState
unfolding new_messages call_llm settings_of
run_turn graph retry a text state =
    reply_text (graph (node_of a text) (new_messages retry a text state.messages) state)
