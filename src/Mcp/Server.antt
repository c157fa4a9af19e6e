-- ===== src/Mcp/Server.antt =====
-- app/mcp/manager.py: one server's connection, and app/mcp/builtin.py. The clock counts milliseconds.
-- What the SDK does at a call is an argument of it: whether a program or a URL can be opened, whether
-- the handshake ends in time, and how a request ends. The lock and the semaphore only order calls.
pub mod Kept
pub mod Spacing
use channel_agent.Prelude.{
  ℕ, zero, ◌+◌, ◌*◌, ◌&&◌, ◌||◌, not, Bool, true, false, Option, none, some, List, [], ◌∷◌, any,
  take, ltb, leb, ◌==◌, if◌then◌else◌, Codes, codes, is_nil, same_codes,
}
use channel_agent.Outbound.{
  NetLibrary, Parts, Guard, Address, Target, Prepared, accepted, rejected, prepare,
}

abbrev pub idle_timeout : ℕ
idle_timeout = 300000

abbrev pub backoff_base : ℕ
backoff_base = 2000

abbrev pub backoff_max : ℕ
backoff_max = 60000

pub data Protocol : Type 0 where
  stdio http : Protocol

pub data Egress : Type 0 where
  local lan internet : Egress

pub record ServerConfig : Type 0 where
  pub name : Codes
  pub protocol : Protocol
  pub builtin_id : Option Codes
  pub url : Option Codes
  pub env_vars : List (Codes × Codes)
  pub egress : Egress
  pub timeout_seconds : ℕ
  pub concurrency_limit : ℕ
  pub result_max_bytes : ℕ
  pub disabled_tools : List Codes

-- REGISTRY
abbrev pub registry : List (Codes × Codes)
registry = (codes "time", codes "app.mcp.builtin_servers.time_server") ∷ []

-- `REGISTRY.get(id)`
unfoldable pub module_of : Codes → List (Codes × Codes) → Option Codes
module_of id [] = none
module_of id ((k, m) ∷ rest) =
    let other = module_of id rest in if same_codes k id then some m else other

abbrev pub Session : Type 0
Session = ℕ

pub record Tool : Type 0 where
  pub name : Codes
  pub description : Option Codes
  pub schema : Codes

-- How a request to a connected server ends; the text is that of the text blocks.
pub data Answer : Type 0 where
  answered : (text : Codes) (is_error : Bool) → Answer
  late failed : Answer

pub record Sdk (A : Type 0) : Type 0 where
  pub launch : Codes → List (Codes × Codes) → Option Session
  pub open_url : Codes → Option Session
  pub initialize : Session → Bool
  pub list_tools : Session → Option (List Tool)
  pub call : Session → Codes → A → Answer

-- The causes of an McpServerError.
pub data McpError : Type 0 where
  disabled backing_off unreachable no_answer request_failed : McpError

pub data Done {ℓ} (A : Type ℓ) : Type ℓ where
  done : A → Done A
  error : McpError → Done A

-- ManagedServer
pub record Managed : Type 0 where
  pub config : ServerConfig
  pub session : Option Session
  pub last_used : ℕ
  pub next_retry_at : ℕ
  pub backoff : ℕ

unfoldable pub managed : ServerConfig → Managed
managed config = record {
  config = config;
  session = none;
  last_used = 0;
  next_retry_at = 0;
  backoff = backoff_base;
}

abbrev pub is_internet : Egress → Bool
is_internet internet = true
is_internet local = false
is_internet lan = false

abbrev or_empty : Option Codes → Codes
or_empty none = []
or_empty (some s) = s

abbrev host_of : Option Parts → Codes
host_of none = []
host_of (some parts) = parts.hostname

abbrev smaller : ℕ → ℕ → ℕ
smaller m n = if leb m n then m else n

unfoldable pub disconnect : Managed → Managed
disconnect m = record m { session = none }

-- The guard of a server's URL: its own host only.
abbrev pub guard_of :
    NetLibrary → (Codes → ℕ → Option (List Address)) → ServerConfig → Codes → Guard
guard_of net resolver config url = record {
  allowed_hosts = net.lower (host_of (net.urlsplit url)) ∷ [];
  allow_http = not (is_internet config.egress);
  allow_private = not (is_internet config.egress);
  resolver = resolver;
}

abbrev after_attempt : ℕ → ℕ → Managed → Option Session → Done Session × Managed
after_attempt now failed_at m none = (
  error unreachable,
  record m { next_retry_at = failed_at + m.backoff; backoff = smaller (m.backoff * 2) backoff_max },
)
after_attempt now failed_at m (some s) =
    (done s, record m { session = some s; backoff = backoff_base; last_used = now })

-- Whether a session has been unused for too long.
abbrev pub is_idle : ℕ → Managed → Option Session → Bool
is_idle now m none = false
is_idle now m (some s) = ltb (m.last_used + idle_timeout) now

abbrev pub read_answer : ℕ → Answer → Done (Codes × Bool)
read_answer limit (answered text is_error) = done (take limit text, is_error)
read_answer limit late = error no_answer
read_answer limit failed = error request_failed

module _ (net : NetLibrary) (resolver : Codes → ℕ → Option (List Address)) {A : Type 0} where
  abbrev opened : Sdk A → Option Session → Option Session
  opened sdk none = none
  opened sdk (some s) = if sdk.initialize s then some s else none

  abbrev pub open_target : Sdk A → Prepared Target → Option Session
  open_target sdk (accepted target) = opened sdk (sdk.open_url target.url)
  open_target sdk (rejected e) = none

  abbrev launch_module : Sdk A → ServerConfig → Option Codes → Option Session
  launch_module sdk config none = none
  launch_module sdk config (some m) = opened sdk (sdk.launch m config.env_vars)

  abbrev pub connect_by : Protocol → Sdk A → ServerConfig → Option Session
  connect_by stdio sdk config =
      launch_module sdk config (module_of (or_empty config.builtin_id) registry)
  connect_by http sdk config =
      let url = or_empty config.url in
      if is_nil url
      then none
      else open_target sdk (prepare net (guard_of net resolver config url) url)

  -- `_connect`: `none` is the exception that it raises.
  unfoldable pub connect : Sdk A → ServerConfig → Option Session
  connect sdk config = connect_by config.protocol sdk config

  abbrev pub use_session : Sdk A → ℕ → ℕ → Managed → Option Session → Done Session × Managed
  use_session sdk now failed_at m (some s) = (done s, record m { last_used = now })
  use_session sdk now failed_at m none =
      if ltb now m.next_retry_at
      then (error backing_off, m)
      else after_attempt now failed_at m (connect sdk m.config)

  unfoldable pub session_at : Sdk A → ℕ → ℕ → Managed → Option Session → Done Session × Managed
  unfolding disconnect
  session_at sdk now failed_at m session =
      if is_idle now m session
      then use_session sdk now failed_at (disconnect m) none
      else use_session sdk now failed_at m session

  -- `_get_session` at the time `now`, where a failure to connect is noticed at `failed_at`.
  unfoldable pub get_session : Sdk A → ℕ → ℕ → Managed → Done Session × Managed
  unfolding session_at
  get_session sdk now failed_at m = session_at sdk now failed_at m m.session

  abbrev pub listed : Sdk A → Done Session × Managed → Done (List Tool) × Managed
  listed sdk (error e, m) = (error e, m)
  listed sdk (done s, m) = elim (sdk.list_tools s) [
    | none ↦ (error request_failed, m)
    | some tools ↦ (done tools, m)
  ]

  unfoldable pub list_tools : Sdk A → ℕ → ℕ → Managed → Done (List Tool) × Managed
  unfolding get_session
  list_tools sdk now failed_at m = listed sdk (get_session sdk now failed_at m)

  abbrev pub called : Sdk A → Codes → A → Done Session × Managed → Done (Codes × Bool) × Managed
  called sdk tool arguments (error e, m) = (error e, m)
  called sdk tool arguments (done s, m) =
      (read_answer m.config.result_max_bytes (sdk.call s tool arguments), m)

  unfoldable pub call_tool : Sdk A → ℕ → ℕ → Codes → A → Managed → Done (Codes × Bool) × Managed
  unfolding get_session
  call_tool sdk now failed_at tool arguments m =
      if any (same_codes tool) m.config.disabled_tools
      then (error disabled, m)
      else called sdk tool arguments (get_session sdk now failed_at m)
