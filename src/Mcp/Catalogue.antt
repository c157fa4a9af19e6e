-- ===== src/Mcp/Catalogue.antt =====
-- app/mcp/catalogue.py: the tools that a turn is offered, and the executor of a turn's calls. A call
-- of the executor is at a time `now`; `json.loads` is a parameter: the arguments of a call, if the text
-- is a JSON object.
pub mod Offers
pub mod Runs
use channel_agent.Prelude.{
  ℕ, ◌-◌, map, ◌&&◌, ◌||◌, not, Bool, true, false, Option, none, some, List, [], ◌∷◌, ◌++◌, any,
  if◌then◌else◌, Codes, codes, is_nil, same_codes,
}
use channel_agent.Outbound.{NetLibrary, Address}
use channel_agent.Mcp.Names.{catalogue_name, split_name}
use channel_agent.Mcp.Server.{
  Tool, Sdk, McpError, disabled, backing_off, unreachable, no_answer, request_failed, Done, done,
  error, Managed, list_tools, call_tool,
}
use channel_agent.Mcp.Manager.{has_name, get}

-- A definition in the engine's `tools`.
pub record Offer : Type 0 where
  pub name : Codes
  pub description : Codes
  pub parameters : Codes

-- What the executor returns: the text of the tool, or the note of an error.
pub data Reply : Type 0 where
  output : Codes → Reply
  unknown_tool not_available bad_arguments : Reply
  server_error : McpError → Reply

-- McpCall, but for its id, its time and `detail`, which is never set.
pub record McpCall : Type 0 where
  pub agent_id : Option ℕ
  pub server_name : Codes
  pub tool_name : Codes
  pub succeeded : Bool
  pub duration_ms : ℕ
  pub result_bytes : ℕ

abbrev or_empty : Option Codes → Codes
or_empty none = []
or_empty (some s) = s

abbrev pub offer_of : Codes → Tool → Offer
offer_of server t = record {
  name = catalogue_name server t.name;
  description = or_empty t.description;
  parameters = t.schema;
}

abbrev pub is_offered : List Codes → Managed → Tool → Bool
is_offered allowed m t =
    not (any (same_codes t.name) m.config.disabled_tools)
    && any (same_codes (catalogue_name m.config.name t.name)) allowed

unfoldable pub offers_of : List Codes → Managed → List Tool → List Offer
offers_of allowed m [] = []
offers_of allowed m (t ∷ ts) =
    let rest = offers_of allowed m ts in
    if is_offered allowed m t then offer_of m.config.name t ∷ rest else rest

-- The outcome of a row: whether its status is "ok", and the text.
abbrev pub reply_of : Done (Codes × Bool) → Bool × Reply
reply_of (done (text, is_error)) = (not is_error, output text)
reply_of (error e) = (false, server_error e)

-- The server of a name after a call of it.
unfoldable pub put : Codes → Managed → List Managed → List Managed
put name new [] = []
put name new (m ∷ ms) = if has_name name m then new ∷ ms else m ∷ put name new ms

-- What the executor shares with the application: the manager's servers and the rows of McpCall.
pub record Calls : Type 0 where
  pub servers : List Managed
  pub rows : List McpCall

-- When the SDK is used, and what it does then.
pub record Moment (A : Type 0) : Type 0 where
  pub sdk : Sdk A
  pub now : ℕ
  pub failed_at : ℕ
  pub ended : ℕ

abbrev pub offers_from : List Codes → Done (List Tool) × Managed → List Offer
offers_from allowed (error e, m) = []
offers_from allowed (done tools, m) = offers_of allowed m tools

abbrev pub row_names : Codes → Option (Codes × Codes) → Codes × Codes
row_names name none = ([], name)
row_names name (some (server, tool)) = (server, tool)

-- `json.loads(raw_arguments) if raw_arguments else {}`
abbrev pub arguments_of : {A : Type 0} → (Codes → Option A) → A → Codes → Option A
arguments_of load no_arguments raw = if is_nil raw then some no_arguments else load raw

module _ (net : NetLibrary) (resolver : Codes → ℕ → Option (List Address)) {A : Type 0} where
  -- The loop of `build_tools`, with the moment at which each server is asked.
  unfoldable pub collect : List Codes → List (Moment A × Managed) → List Offer × List Managed
  unfolding list_tools
  collect allowed [] = ([], [])
  collect allowed ((w, m) ∷ rest) =
      let asked = list_tools net resolver w.sdk w.now w.failed_at m in
      let (offers, servers) = collect allowed rest in
      (offers_from allowed asked ++ offers, asked.1 ∷ servers)

  unfoldable pub build_tools : List Codes → List (Moment A × Managed) → List Offer × List Managed
  build_tools [] asked = ([], map (λ a. a.1) asked)
  build_tools (name ∷ names) asked = collect (name ∷ names) asked

  -- A call of a server: the outcome, and the server after it.
  abbrev pub call_known : Moment A → Codes → Option A → Managed → (Bool × Reply) × Managed
  call_known w tool none m = ((false, bad_arguments), m)
  call_known w tool (some arguments) m =
      let (answer, m') = call_tool net resolver w.sdk w.now w.failed_at tool arguments m in
      (reply_of answer, m')

  abbrev pub call_found :
      Moment A
      → Codes
      → Codes
      → Option A
      → Option Managed
      → List Managed
      → (Bool × Reply) × List Managed
  call_found w server tool arguments none servers = ((false, not_available), servers)
  call_found w server tool arguments (some m) servers =
      let (outcome, m') = call_known w tool arguments m in (outcome, put server m' servers)

  abbrev pub call_split :
      Moment A → Option (Codes × Codes) → Option A → List Managed → (Bool × Reply) × List Managed
  call_split w none arguments servers = ((false, unknown_tool), servers)
  call_split w (some (server, tool)) arguments servers =
      call_found w server tool arguments (get server servers) servers

  module _ (load : Codes → Option A) (no_arguments : A) (size : Reply → ℕ)
      (agent_id : Option ℕ) where
    -- `run` of `make_executor`
    unfoldable pub run : Moment A → Codes → Codes → Calls → Reply × Calls
    unfolding get put call_tool split_name
    run w name raw c =
        let parsed = split_name name in
        let ((succeeded, reply), servers) =
          call_split w parsed (arguments_of load no_arguments raw) c.servers in
        let row : McpCall = record {
          agent_id = agent_id;
          server_name = (row_names name parsed).0;
          tool_name = (row_names name parsed).1;
          succeeded = succeeded;
          duration_ms = w.ended - w.now;
          result_bytes = size reply;
        } in
        (reply, record { servers = servers; rows = c.rows ++ row ∷ [] })
