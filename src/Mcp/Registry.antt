-- ===== src/Mcp/Registry.antt =====
-- app/admin/mcp.py: the servers that administrators declare. They stand beside the main database,
-- whose audit trail records each change, here without its details.
pub mod Fields
pub mod Servers
pub mod Created
use channel_agent.Prelude.{
  ℕ, zero, ◌+◌, ◌&&◌, ◌||◌, not, Bool, true, false, Option, none, some, List, [], ◌∷◌, ◌++◌, map,
  any, all, first, select, delete, update, length, leb, ltb, ◌==◌, if◌then◌else◌, String, Codes,
  codes, is_alnum, same_codes, starts_with,
}
use channel_agent.Env.{Env}
use channel_agent.Exec.{
  Exec, Result, ok, err, invalid_input, mcp_server_not_found, mcp_server_name_taken, pure, lift,
  gets, modify, raise_if, or_raise, ◌>>=◌, ◌>>◌,
}
use channel_agent.Model.{Database, Detail}
use channel_agent.Admin.Events.{record_admin_event}
use channel_agent.Mcp.Server.{
  ServerConfig, Protocol, stdio, http, Egress, local, lan, internet, module_of, registry,
}
use channel_agent.Mcp.Registry.Fields.{
  Value, text, Given, Setting, url, env_vars, egress, enabled, timeout_seconds, concurrency_limit,
  result_max_bytes, disabled_tools, clean_fields, is_url, is_url_key, is_server_name,
}

-- McpServer: its columns are the settings of the manager's view of it (`to_config`), but for these.
pub record McpServer : Type 0 where
  pub id : ℕ
  pub enabled : Bool
  pub config : ServerConfig

abbrev pub Registered : Type 0
Registered = Database × List McpServer

abbrev pub on_database : {A : Type 0} → Exec Database A → Exec Registered A
on_database m (db, servers) = let (result, db') = m db in (result, (db', servers))

abbrev pub on_servers : (List McpServer → List McpServer) → Exec Registered (Unit {0})
on_servers f = modify (λ s. (s.0, f s.1))

abbrev pub is_named : Codes → McpServer → Bool
is_named name s = same_codes s.config.name name

abbrev pub has_server_id : ℕ → McpServer → Bool
has_server_id id s = s.id == id

-- `setattr` of a cleaned setting
abbrev pub apply_setting : Setting → McpServer → McpServer
apply_setting (url u) s = record s { config = record s.config { url = some u } }
apply_setting (env_vars v) s = record s { config = record s.config { env_vars = v } }
apply_setting (egress e) s = record s { config = record s.config { egress = e } }
apply_setting (enabled b) s = record s { enabled = b }
apply_setting (timeout_seconds n) s = record s { config = record s.config { timeout_seconds = n } }
apply_setting (concurrency_limit n) s = record s {
  config = record s.config { concurrency_limit = n };
}
apply_setting (result_max_bytes n) s = record s {
  config = record s.config { result_max_bytes = n };
}
apply_setting (disabled_tools t) s = record s { config = record s.config { disabled_tools = t } }

abbrev pub apply_all : List Setting → McpServer → McpServer
apply_all [] s = s
apply_all (t ∷ ts) s = apply_all ts (apply_setting t s)

-- The transport that a request names.
unfoldable pub protocol_of : Codes → Option Protocol
protocol_of label =
    if same_codes label (codes "stdio")
    then some stdio
    else if same_codes label (codes "http")
    then some http
    else none

abbrev pub is_builtin : Option Codes → Bool
is_builtin none = false
is_builtin (some id) = elim (module_of id registry) [ none ↦ false | some m ↦ true ]

-- The built-in server and the settings that are left to clean, by transport.
unfoldable pub by_transport : Protocol → Option Codes → Given → Result (Option Codes × Given)
by_transport stdio builtin_id fields =
    if is_builtin builtin_id then ok (builtin_id, delete is_url_key fields) else err invalid_input
by_transport http builtin_id fields =
    if any is_url_key fields then ok (none, fields) else err invalid_input

-- The row before its settings.
abbrev pub default_server : ℕ → Codes → Protocol → Option Codes → McpServer
default_server id name protocol builtin_id = record {
  id = id;
  enabled = true;
  config = record {
    name = name;
    protocol = protocol;
    builtin_id = builtin_id;
    url = none;
    env_vars = [];
    egress = local;
    timeout_seconds = 20;
    concurrency_limit = 2;
    result_max_bytes = 1000000;
    disabled_tools = [];
  };
}

unfoldable pub get_server : ℕ → Exec Registered McpServer
get_server server_id = do
  server ← gets (λ s. first (has_server_id server_id) s.1)
  or_raise server mcp_server_not_found

abbrev pub is_http : Protocol → Bool
is_http http = true
is_http stdio = false

-- The servers by name: `order_by(McpServer.name)` in the order of SQLite, by bytes.
abbrev comes_before : Codes → Codes → Bool
comes_before [] t = true
comes_before (c ∷ s) [] = false
comes_before (c ∷ s) (d ∷ t) = ltb c d || (c == d && comes_before s t)

abbrev insert_server : McpServer → List McpServer → List McpServer
insert_server s [] = s ∷ []
insert_server s (t ∷ ts) =
    if comes_before s.config.name t.config.name then s ∷ t ∷ ts else t ∷ insert_server s ts

unfoldable pub list_servers : List McpServer → List McpServer
list_servers [] = []
list_servers (s ∷ ss) = insert_server s (list_servers ss)

-- `enabled_configs`
unfoldable pub enabled_configs : List McpServer → List ServerConfig
unfolding list_servers
enabled_configs servers = map (λ s. s.config) (select (λ s. s.enabled) (list_servers servers))

module _ ⦃env : Env⦄ where
  unfoldable pub create_server :
      Codes → Codes → Option Codes → Given → String → Exec Registered McpServer
  unfolding protocol_of by_transport
  create_server name protocol builtin_id fields actor = do
    raise_if (not (is_server_name name)) invalid_input
    taken ← gets (λ s. any (is_named name) s.1)
    raise_if taken mcp_server_name_taken
    transport ← or_raise (protocol_of protocol) invalid_input
    chosen ← lift (by_transport transport builtin_id fields)
    cleaned ← lift (clean_fields chosen.1)
    server ← gets (λ s.
        apply_all cleaned
          (default_server (env.new_id (map (λ r. r.id) s.1)) name transport chosen.0))
    on_servers (λ rows. rows ++ server ∷ [])
    on_database (record_admin_event actor "mcp_server.create" "mcp_server" (some server.id) [])
    pure server

  unfoldable pub configure_server : ℕ → Given → String → Exec Registered McpServer
  unfolding get_server
  configure_server server_id fields actor = do
    server ← get_server server_id
    cleaned ← lift (clean_fields fields)
    raise_if (any is_url cleaned && not (is_http server.config.protocol)) invalid_input
    let configured = apply_all cleaned server
    on_servers (update (has_server_id server_id) (λ _. configured))
    on_database (record_admin_event actor "mcp_server.configure" "mcp_server" (some server.id) [])
    pure configured

  unfoldable pub delete_server : ℕ → String → Exec Registered (Unit {0})
  unfolding get_server
  delete_server server_id actor = do
    server ← get_server server_id
    on_servers (delete (has_server_id server_id))
    on_database (record_admin_event actor "mcp_server.delete" "mcp_server" (some server_id) [])
    pure tt
