-- ===== src/Turn.antt =====
-- app/graph.py: what one turn sends to the engine and keeps of its answer. LangChain's trimming and
-- estimate of tokens, the engine's answers and LangGraph's store are parameters.
pub mod Tokens
pub mod Node
pub mod Run
pub mod Folding
pub mod Covered
pub mod Retries
use channel_agent.Prelude.{
  ℕ, String, ◌*◌, ◌/◌, Bool, true, false, Option, none, some, List, [], ◌∷◌, if◌then◌else◌, leb,
}

pub data Role : Type 0 where
  human assistant : Role

-- A message of the history; the store gives each an id.
pub record Message : Type 0 where
  pub role : Role
  pub content : String
  pub id : String

-- A message as it is sent.
pub data Sent : Type 0 where
  system : String → Sent
  said : Role → String → Sent

-- GraphState
pub record GraphState : Type 0 where
  pub messages : List Message
  pub summary : String
  pub summary_covers : ℕ

-- How a request for a completion ends: with a text, with an HTTP status that is an error, or not.
pub data Answer : Type 0 where
  replied : String → Answer
  status : ℕ → Answer
  failed : Answer

-- A request: the model that it names, and the messages.
pub record Request : Type 0 where
  pub model : Option String
  pub messages : List Sent

abbrev pub Engine : Type 0
Engine = Request → Answer

-- A counter of tokens: of messages of the history, and of a system message.
pub record Counter : Type 0 where
  pub of_messages : List Message → ℕ
  pub of_system : String → ℕ

-- `trim_messages` with the arguments that the source gives it.
abbrev pub Trim : Type 0
Trim = Counter → ℕ → List Message → List Message

abbrev pub summary_batch : ℕ
summary_batch = 6

abbrev pub message_overhead_tokens : ℕ
message_overhead_tokens = 4

abbrev pub tokenizer_retry_seconds : ℕ
tokenizer_retry_seconds = 300

-- HISTORY_CONTEXT_SHARE is 0.75.
unfoldable pub history_token_budget : ℕ → ℕ
history_token_budget ctx_size = ctx_size * 3 / 4

abbrev pub last_only : List Message → List Message
last_only [] = []
last_only (m ∷ []) = m ∷ []
last_only (m ∷ n ∷ rest) = last_only (n ∷ rest)

abbrev or_last : List Message → List Message → List Message
or_last [] messages = last_only messages
or_last (m ∷ kept) messages = m ∷ kept

unfoldable pub window_messages : Trim → Counter → ℕ → List Message → List Message
window_messages trim counter budget messages = or_last (trim counter budget messages) messages
