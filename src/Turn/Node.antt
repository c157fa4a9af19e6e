-- ===== src/Turn/Node.antt =====
-- app/graph.py: the node `call_llm`.
use Prim.Native.String
use channel_agent.Prelude.{
  ℕ, String, ◌-◌, ◌==◌, ◌&&◌, not, Bool, true, false, Option, none, some, List, [], ◌∷◌, ◌++◌, map,
  length, take, drop, if◌then◌else◌, leb, ltb, str_eq, strip,
}
use channel_agent.Turn.{
  Role, human, assistant, Message, Sent, system, said, GraphState, Answer, replied, status, failed,
  Request, Engine, Counter, Trim, summary_batch, history_token_budget, window_messages,
}

abbrev pub summary_prompt : String
summary_prompt =
    "You maintain the memory of a conversation. Write a summary of at most 200 words. Keep every concrete fact the user gave (names, numbers, identifiers, dates, preferences, decisions) exactly as written, and never drop an item of the earlier summary. Leave out small talk. Write only the summary."

abbrev pub summary_header : String
summary_header = "Summary of the earlier part of this conversation: "

-- The settings of the agent whose turn it is.
pub record AgentSettings : Type 0 where
  pub system_prompt : Option String
  pub model : Option String
  pub default_model : Option String
  pub ctx_size : Option ℕ
  pub tools_allowed : List String

-- What surrounds a turn: the trimming, the counter that `_exact_counter` chose, the engine's cap, the
-- engine, and the loop of tools, which is there if tools are offered.
pub record Surroundings : Type 0 where
  pub trim : Trim
  pub counter : Counter
  pub llama_ctx_size : ℕ
  pub engine : Engine
  pub tool_loop : Option (Request → Answer)

abbrev pub is_empty : String → Bool
is_empty s = str_eq s ""

-- A text that is set and not empty.
abbrev pub present : Option String → Option String
present none = none
present (some s) = if is_empty s then none else some s

abbrev join_prefix : Option String → Option String → String
join_prefix none none = ""
join_prefix (some a) none = a
join_prefix none (some b) = b
join_prefix (some a) (some b) = String.◌++◌ a (String.◌++◌ "\n\n" b)

unfoldable pub prefix : Option String → String → String
prefix system_prompt summary =
    join_prefix (present system_prompt)
      (if is_empty summary then none else some (String.◌++◌ summary_header summary))

unfoldable pub prefix_cost : Counter → String → ℕ
prefix_cost counter text = if is_empty text then 0 else counter.of_system text

abbrev sent_of : Message → Sent
sent_of m = said m.role m.content

-- `[SystemMessage(content=prefix), *window]`, if there is a prefix
abbrev pub with_prefix : String → List Message → List Sent
with_prefix text window =
    if is_empty text then map sent_of window else system text ∷ map sent_of window

abbrev speaker : Role → String
speaker human = "User: "
speaker assistant = "Assistant: "

abbrev line_of : Message → String
line_of m = String.◌++◌ (speaker m.role) m.content

abbrev transcript : List Message → String
transcript [] = ""
transcript (m ∷ []) = line_of m
transcript (m ∷ n ∷ rest) = String.◌++◌ (line_of m) (String.◌++◌ "\n" (transcript (n ∷ rest)))

abbrev earlier : String → String
earlier previous =
    if is_empty previous then "" else String.◌++◌ "Earlier summary: " (String.◌++◌ previous "\n\n")

abbrev stripped : Answer → Option String
stripped (replied text) = some (strip text)
stripped (status n) = none
stripped failed = none

unfoldable pub summarize : Engine → Option String → String → List Message → Option String
summarize engine model previous dropped = stripped (
    engine (record {
      model = model;
      messages =
          system summary_prompt
          ∷ said human (String.◌++◌ (earlier previous) (transcript dropped))
          ∷ [];
    }))

abbrev same_model : Option String → Option String → Bool
same_model (some a) (some b) = str_eq a b
same_model _ _ = false

abbrev is_set : Option String → Bool
is_set none = false
is_set (some _) = true

-- Whether a failed request is tried again with the default model.
abbrev pub falls_back : Option String → Option String → Answer → Bool
falls_back model default_model (status n) =
    n == 400 && is_set model && is_set default_model && not (same_model model default_model)
falls_back model default_model (replied text) = false
falls_back model default_model failed = false

unfoldable pub chat_with_fallback : Engine → List Sent → Option String → Option String → Answer
chat_with_fallback engine messages model default_model =
    let first_answer = engine (record { model = present model; messages = messages }) in
    if falls_back (present model) (present default_model) first_answer
    then engine (record { model = default_model; messages = messages })
    else first_answer

-- The model's own size only narrows the cap; a size of 0 is no size.
abbrev pub narrowed : Option ℕ → ℕ → ℕ
narrowed none cap = cap
narrowed (some n) cap = if n == 0 then cap else if leb n cap then n else cap

abbrev at_least_one : ℕ → ℕ
at_least_one n = if n == 0 then 1 else n

-- The window beside a summary.
unfoldable pub window_beside : Surroundings → AgentSettings → String → List Message → List Message
unfolding prefix prefix_cost history_token_budget window_messages
window_beside s agent summary messages =
    let budget = history_token_budget (narrowed agent.ctx_size s.llama_ctx_size) in
    let room = budget - prefix_cost s.counter (prefix agent.system_prompt summary) in
    window_messages s.trim s.counter (at_least_one room) messages

-- What a turn sends and what it knows of the part that it does not send.
pub record Plan : Type 0 where
  pub window : List Message
  pub summary : String
  pub covers : ℕ

abbrev pub folded_or :
    Surroundings → AgentSettings → GraphState → List Message → ℕ → Option String → Plan
folded_or s agent state window dropped none = record {
  window = window;
  summary = state.summary;
  covers = state.summary_covers;
}
folded_or s agent state window dropped (some text) =
    if is_empty text
    then record { window = window; summary = state.summary; covers = state.summary_covers }
    else record {
      window = window_beside s agent text state.messages;
      summary = text;
      covers = dropped;
    }

abbrev pub folds : ℕ → ℕ → Bool
folds dropped covers = ltb covers dropped && leb summary_batch (dropped - covers)

-- The part of `call_llm` before the request.
unfoldable pub plan : Surroundings → AgentSettings → GraphState → Plan
unfolding window_beside summarize
plan s agent state =
    let window = window_beside s agent state.summary state.messages in
    let dropped = length state.messages - length window in
    let covers = state.summary_covers in
    if folds dropped covers
    then folded_or s agent state window dropped (
        summarize s.engine (present agent.model) state.summary
          (take (dropped - covers) (drop covers state.messages)))
    else record { window = window; summary = state.summary; covers = covers }

abbrev pub reply_by : Surroundings → AgentSettings → List Sent → Option (Request → Answer) → Answer
unfolding chat_with_fallback
reply_by s agent sent none = chat_with_fallback s.engine sent agent.model agent.default_model
reply_by s agent sent (some tool_loop) =
    tool_loop (record { model = present agent.model; messages = sent })

abbrev pub updated : GraphState → Plan → (String → Message) → Answer → Option GraphState
updated state p new (status n) = none
updated state p new failed = none
updated state p new (replied text) = some (record {
  messages = state.messages ++ new text ∷ [];
  summary = p.summary;
  summary_covers = p.covers;
})

-- `call_llm`, with the reducer of the messages; `none` is an exception.
unfoldable pub call_llm :
    Surroundings → AgentSettings → (String → Message) → GraphState → Option GraphState
unfolding plan reply_by prefix
call_llm s agent new state =
    let p = plan s agent state in
    let sent = with_prefix (prefix agent.system_prompt p.summary) p.window in
    updated state p new (reply_by s agent sent s.tool_loop)
