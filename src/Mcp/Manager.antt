-- ===== src/Mcp/Manager.antt =====
-- app/mcp/manager.py: the known servers, in the order of the dictionary.
pub mod Replace
use channel_agent.Prelude.{
  ◌&&◌, ◌||◌, not, Bool, true, false, Option, none, some, List, [], ◌∷◌, ◌++◌, any, all, select,
  first, map, ◌==◌, if◌then◌else◌, Codes, same_codes,
}
use channel_agent.Mcp.Server.{
  ServerConfig, Protocol, stdio, http, Egress, local, lan, internet, Managed, managed, Session,
}

abbrev same_protocol : Protocol → Protocol → Bool
same_protocol stdio stdio = true
same_protocol http http = true
same_protocol _ _ = false

abbrev same_egress : Egress → Egress → Bool
same_egress local local = true
same_egress lan lan = true
same_egress internet internet = true
same_egress _ _ = false

abbrev same_option : Option Codes → Option Codes → Bool
same_option none none = true
same_option (some a) (some b) = same_codes a b
same_option _ _ = false

abbrev same_texts : List Codes → List Codes → Bool
same_texts [] [] = true
same_texts (a ∷ rest) (b ∷ other) = same_codes a b && same_texts rest other
same_texts _ _ = false

-- A variable of one environment is in the other, with its value.
abbrev is_entry : List (Codes × Codes) → Codes × Codes → Bool
is_entry vars (k, v) = any (λ e. same_codes e.0 k && same_codes e.1 v) vars

-- `==` of dictionaries, whose keys are different.
abbrev same_vars : List (Codes × Codes) → List (Codes × Codes) → Bool
same_vars a b = all (is_entry b) a && all (is_entry a) b

-- `==` of the dataclass
unfoldable pub same_config : ServerConfig → ServerConfig → Bool
same_config a b =
    same_codes a.name b.name
    && same_protocol a.protocol b.protocol
    && same_option a.builtin_id b.builtin_id
    && same_option a.url b.url
    && same_vars a.env_vars b.env_vars
    && same_egress a.egress b.egress
    && a.timeout_seconds == b.timeout_seconds
    && a.concurrency_limit == b.concurrency_limit
    && a.result_max_bytes == b.result_max_bytes
    && same_texts a.disabled_tools b.disabled_tools

abbrev pub has_name : Codes → Managed → Bool
has_name name m = same_codes m.config.name name

abbrev pub is_config_of : Codes → ServerConfig → Bool
is_config_of name c = same_codes c.name name

abbrev pub set_config_of : ServerConfig → List ServerConfig → List ServerConfig
set_config_of c [] = c ∷ []
set_config_of c (d ∷ ds) = if same_codes d.name c.name then c ∷ ds else d ∷ set_config_of c ds

-- `{c.name: c for c in configs}`: a name keeps its first place and takes the last configuration.
unfoldable pub wanted_from : List ServerConfig → List ServerConfig → List ServerConfig
wanted_from wanted [] = wanted
wanted_from wanted (c ∷ cs) = wanted_from (set_config_of c wanted) cs

abbrev pub wanted_one : Option ServerConfig → Managed → Bool
wanted_one none m = false
wanted_one (some c) m = same_config m.config c

-- Whether a server stays as it is.
abbrev pub is_kept : List ServerConfig → Managed → Bool
is_kept wanted m = wanted_one (first (is_config_of m.config.name) wanted) m

abbrev pub is_known : List Managed → ServerConfig → Bool
is_known servers c = any (has_name c.name) servers

unfoldable pub with_new : List ServerConfig → List Managed → List Managed
with_new [] servers = servers
with_new (c ∷ cs) servers =
    with_new cs (if is_known servers c then servers else servers ++ managed c ∷ [])

-- `Manager.configure`: the servers after it, and the ones that it disconnects.
unfoldable pub configure : List ServerConfig → List Managed → List Managed × List Managed
unfolding wanted_from with_new
configure configs servers =
    let wanted = wanted_from [] configs in
    (
      with_new wanted (select (is_kept wanted) servers),
      select (λ m. not (is_kept wanted m)) servers,
    )

-- `Manager.get`
unfoldable pub get : Codes → List Managed → Option Managed
get name servers = first (has_name name) servers

-- `Manager.reset`: the servers after it, and the ones that it disconnects.
unfoldable reset : List Managed → List Managed × List Managed
reset servers = ([], servers)
