-- ===== src/Mcp/Registry/Servers.antt =====
-- app/admin/mcp.py: every declared server is one that the manager can be given.
use mathlib.Core.Path.{subst}
use channel_agent.Prelude.{
  ◌≡◌, refl, sym, ◌∙◌, ◌&&◌, ◌||◌, not, Bool, true, false, Option, none, some, List, [], ◌∷◌, ◌++◌,
  any, all, length, any-append, leb, Codes, same_codes_refl, eq_of_same_codes, arith,
}
use channel_agent.Mcp.Server.{Protocol, stdio, http}
use channel_agent.Mcp.Registry.{McpServer, is_named, apply_setting, apply_all, is_builtin, is_http}
use channel_agent.Mcp.Registry.Fields.{
  Setting, url, env_vars, egress, enabled, timeout_seconds, concurrency_limit, result_max_bytes,
  disabled_tools, is_url, is_http_url, is_server_name, max_disabled_tools,
}
use channel_agent.Mcp.Registry.Fields.Cleaned.{in_range}

-- The name and the numbers of a server.
abbrev pub is_bounded : McpServer → Bool
is_bounded s =
    is_server_name s.config.name
    && leb 1 s.config.timeout_seconds
    && leb s.config.timeout_seconds 600
    && leb 1 s.config.concurrency_limit
    && leb s.config.concurrency_limit 20
    && leb 1 s.config.result_max_bytes
    && leb s.config.result_max_bytes 10000000
    && leb (length s.config.disabled_tools) max_disabled_tools

abbrev pub url_is_good : Option Codes → Bool
url_is_good none = false
url_is_good (some u) = is_http_url u

abbrev pub is_none : Option Codes → Bool
is_none none = true
is_none (some u) = false

-- A built-in server and no URL, or a URL and no built-in server.
abbrev pub has_target : Protocol → Option Codes → Option Codes → Bool
has_target stdio builtin_id u = is_builtin builtin_id && is_none u
has_target http builtin_id u = is_none builtin_id && url_is_good u

abbrev pub is_server : McpServer → Bool
is_server s = is_bounded s && has_target s.config.protocol s.config.builtin_id s.config.url

is_bounded-apply :
    (t : Setting) (s : McpServer)
    → in_range t ≡ true
    → is_bounded s ≡ true
    → is_bounded (apply_setting t s) ≡ true
is_bounded-apply (url u) s h k = k
is_bounded-apply (env_vars v) s h k = k
is_bounded-apply (egress e) s h k = k
is_bounded-apply (enabled b) s h k = k
is_bounded-apply (timeout_seconds n) s h k = ground (arith, h, k)
is_bounded-apply (concurrency_limit n) s h k = ground (arith, h, k)
is_bounded-apply (result_max_bytes n) s h k = ground (arith, h, k)
is_bounded-apply (disabled_tools d) s h k = ground (arith, h, k)

is_bounded-apply_all :
    (ts : List Setting) (s : McpServer)
    → all in_range ts ≡ true
    → is_bounded s ≡ true
    → is_bounded (apply_all ts s) ≡ true
is_bounded-apply_all [] s h k = k
is_bounded-apply_all (t ∷ ts) s h k =
    is_bounded-apply_all ts (apply_setting t s) (ground (arith, h))
      (is_bounded-apply t s (ground (arith, h)) k)

-- What the settings leave of a row.
pub same_target :
    (ts : List Setting) (s : McpServer)
    → ((apply_all ts s).config.name ≡ s.config.name)
      × ((apply_all ts s).config.protocol ≡ s.config.protocol)
      × ((apply_all ts s).config.builtin_id ≡ s.config.builtin_id)
same_target [] s = (refl, refl, refl)
same_target (t ∷ ts) s =
    let (a, b, c) = same_target ts (apply_setting t s) in
    (a ∙ name_lem t s, b ∙ protocol_lem t s, c ∙ builtin_lem t s)
  where
    name_lem : (t : Setting) (s : McpServer) → (apply_setting t s).config.name ≡ s.config.name
    name_lem t s = ground arith

    protocol_lem :
        (t : Setting) (s : McpServer) → (apply_setting t s).config.protocol ≡ s.config.protocol
    protocol_lem t s = ground arith

    builtin_lem :
        (t : Setting) (s : McpServer) → (apply_setting t s).config.builtin_id ≡ s.config.builtin_id
    builtin_lem t s = ground arith

pub url_kept :
    (ts : List Setting) (s : McpServer)
    → any is_url ts ≡ false
    → (apply_all ts s).config.url ≡ s.config.url
url_kept [] s h = refl
url_kept (t ∷ ts) s h =
    url_kept ts (apply_setting t s) (ground (arith, h)) ∙ kept t s (ground (arith, h))
  where
    kept :
        (t : Setting) (s : McpServer)
        → is_url t ≡ false
        → (apply_setting t s).config.url ≡ s.config.url
    kept t s h = ground (arith, h)

pub url_good :
    (ts : List Setting) (s : McpServer)
    → all in_range ts ≡ true
    → (any is_url ts || url_is_good s.config.url) ≡ true
    → url_is_good (apply_all ts s).config.url ≡ true
url_good [] s h k = k
url_good (t ∷ ts) s h k =
    url_good ts (apply_setting t s) (ground (arith, h))
      (step t s (ground (arith, h)) (any is_url ts) k)
  where
    step :
        (t : Setting) (s : McpServer)
        → in_range t ≡ true
        → (b : Bool) → ((is_url t || b) || url_is_good s.config.url) ≡ true
        → (b || url_is_good (apply_setting t s).config.url) ≡ true
    step t s h b k = ground (arith, h, k)

-- The target of a row after its settings.
target_lem :
    (ts : List Setting) (s : McpServer) (p : Protocol)
    → s.config.protocol ≡ p
    → all in_range ts ≡ true
    → has_target p s.config.builtin_id s.config.url ≡ true
    → (any is_url ts && not (is_http p)) ≡ false
    → has_target p (apply_all ts s).config.builtin_id (apply_all ts s).config.url ≡ true
target_lem ts s stdio e h k n =
    let (a, b, c) = same_target ts s in rw (c, url_kept ts s (ground (arith, n))) k
target_lem ts s http e h k n =
    let (a, b, c) = same_target ts s in
    rw c (ground (arith, k, url_good ts s h (ground (arith, k))))

is_server-apply_all :
    (ts : List Setting) (s : McpServer)
    → all in_range ts ≡ true
    → is_server s ≡ true
    → (any is_url ts && not (is_http s.config.protocol)) ≡ false
    → is_server (apply_all ts s) ≡ true
is_server-apply_all ts s h k n =
    let (a, b, c) = same_target ts s in
    ground (
      arith,
      is_bounded-apply_all ts s h (ground (arith, k)),
      subst
          (λ (p : Protocol).
            has_target p (apply_all ts s).config.builtin_id (apply_all ts s).config.url ≡ true)
          (sym b) (target_lem ts s s.config.protocol refl h (ground (arith, k)) n),
    )

-- The declared servers: each can be given to the manager, and their names are different.
abbrev pub AreServers : List McpServer → Type 0
AreServers [] = Unit {0}
AreServers (s ∷ ss) =
    (is_server s ≡ true) × (any (is_named s.config.name) ss ≡ false) × AreServers ss

pub AreServers-append :
    (ss : List McpServer) (new : McpServer)
    → is_server new ≡ true
    → any (is_named new.config.name) ss ≡ false
    → AreServers ss
    → AreServers (ss ++ new ∷ [])
AreServers-append [] new v f h = (v, refl, tt)
AreServers-append (s ∷ ss) new v f h = (
  h.0,
  ground (
    arith,
    h.1,
    f,
    any-append (is_named s.config.name) ss (new ∷ []),
    eq_of_same_codes new.config.name s.config.name,
    same_codes_refl s.config.name,
  ),
  AreServers-append ss new v (ground (arith, f)) h.2,
)

pub valid_lem :
    (ts : List Setting) (s : McpServer)
    → all in_range ts ≡ true
    → is_bounded s ≡ true
    → has_target s.config.protocol s.config.builtin_id (apply_all ts s).config.url ≡ true
    → is_server (apply_all ts s) ≡ true
valid_lem ts s h b t =
    let (name_kept, protocol_kept, builtin_kept) = same_target ts s in
    let target : has_target (apply_all ts s).config.protocol (apply_all ts s).config.builtin_id
          (apply_all ts s).config.url
        ≡ true =
      subst
        (λ (p : Protocol).
          has_target p (apply_all ts s).config.builtin_id (apply_all ts s).config.url ≡ true)
        (sym protocol_kept)
        (subst
          (λ (o : Option Codes). has_target s.config.protocol o (apply_all ts s).config.url ≡ true)
          (sym builtin_kept) t) in
    ground (arith, is_bounded-apply_all ts s h b, target)
