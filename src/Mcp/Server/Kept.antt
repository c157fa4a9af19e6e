-- ===== src/Mcp/Server/Kept.antt =====
-- app/mcp/manager.py: what the calls of a server leave as it was.
use channel_agent.Prelude.{
  ℕ, ◌≡◌, refl, ap, ◌∙◌, ◌+◌, Bool, true, false, Option, none, some, List, [], ◌∷◌, leb, any,
  same_codes, Codes, arith,
}
use channel_agent.Outbound.{NetLibrary, Address}
use channel_agent.Mcp.Server.{
  Session, Sdk, Done, done, error, Managed, get_session, session_at, disconnect, called, listed,
  list_tools, idle_timeout, call_tool, read_answer,
}

-- A call of a tool: what the SDK does then, when it comes and when a failure would be noticed.
pub record Request (A : Type 0) : Type 0 where
  pub sdk : Sdk A
  pub now : ℕ
  pub failed_at : ℕ
  pub tool : Codes
  pub arguments : A

module _ (net : NetLibrary) (resolver : Codes → ℕ → Option (List Address)) {A : Type 0} where
  pub config-get_session :
      (sdk : Sdk A) (now failed_at : ℕ) (m : Managed)
      → (get_session net resolver sdk now failed_at m).1.config ≡ m.config
  unfolding get_session session_at disconnect
  config-get_session sdk now failed_at m = ground arith

  config-listed :
      (sdk : Sdk A) (r : Done Session × Managed) → (listed net resolver sdk r).1.config ≡ r.1.config
  config-listed sdk (error e, m) = refl
  config-listed sdk (done s, m) = ground arith

  config-called :
      (sdk : Sdk A) (tool : Codes) (arguments : A) (r : Done Session × Managed)
      → (called net resolver sdk tool arguments r).1.config ≡ r.1.config
  config-called sdk tool arguments (error e, m) = refl
  config-called sdk tool arguments (done s, m) = refl

  pub config-list_tools :
      (sdk : Sdk A) (now failed_at : ℕ) (m : Managed)
      → (list_tools net resolver sdk now failed_at m).1.config ≡ m.config
  unfolding list_tools
  config-list_tools sdk now failed_at m =
      config-listed sdk (get_session net resolver sdk now failed_at m)
      ∙ config-get_session sdk now failed_at m

  -- Whether each call comes at most five minutes after the one before, for a tool that is on.
  abbrev pub IsBusy : List Codes → ℕ → List (Request A) → Type 0
  IsBusy off last [] = Unit {0}
  IsBusy off last (r ∷ rs) =
      (leb r.now (last + idle_timeout) ≡ true)
      × (any (same_codes r.tool) off ≡ false)
      × IsBusy off r.now rs

  -- What each call gives, and the server as it leaves it.
  unfoldable pub called_each : List (Request A) → Managed → List (Done (Codes × Bool) × Managed)
  unfolding call_tool
  called_each [] m = []
  called_each (r ∷ rs) m =
      let (outcome, m') = call_tool net resolver r.sdk r.now r.failed_at r.tool r.arguments m in
      (outcome, m') ∷ called_each rs m'

  -- Each call is a request on this session, which is still there afterwards.
  abbrev pub AreOn : Session → ℕ → List (Request A) → List (Done (Codes × Bool) × Managed) → Type 0
  AreOn s limit [] [] = Unit {0}
  AreOn s limit [] (e ∷ ends) = ⊥
  AreOn s limit (r ∷ rs) [] = ⊥
  AreOn s limit (r ∷ rs) ((outcome, after) ∷ ends) =
      (outcome ≡ read_answer limit (r.sdk.call s r.tool r.arguments))
      × (after.session ≡ some s)
      × AreOn s limit rs ends

  used_lem :
      (r : Request A) (m : Managed) (s : Session) (o : Option Session)
      → m.session ≡ o
      → o ≡ some s
      → leb r.now (m.last_used + idle_timeout) ≡ true
      → session_at net resolver r.sdk r.now r.failed_at m o
        ≡ (done s, record m { last_used = r.now })
  unfolding session_at
  used_lem r m s none e h k = cc
  used_lem r m s (some t) e h k = ground (arith, h, k)

  call_tool-busy :
      (r : Request A) (m : Managed) (s : Session)
      → m.session ≡ some s
      → leb r.now (m.last_used + idle_timeout) ≡ true
      → any (same_codes r.tool) m.config.disabled_tools ≡ false
      → call_tool net resolver r.sdk r.now r.failed_at r.tool r.arguments m ≡ (
        read_answer m.config.result_max_bytes (r.sdk.call s r.tool r.arguments),
        record m { last_used = r.now },
      )
  unfolding call_tool get_session
  call_tool-busy r m s h k on =
      rw on (ap (called net resolver r.sdk r.tool r.arguments) (used_lem r m s m.session refl h k))

  -- While the calls of tools that are on come at most five minutes apart, each of them is a
  -- request on the one connection, and leaves it, however the requests end: with an answer, an
  -- error of the tool, none in time or a failure. There is a connection at the start.
  pub called_each-AreOn :
      (rs : List (Request A)) (m : Managed) (s : Session)
      → m.session ≡ some s
      → IsBusy m.config.disabled_tools m.last_used rs
      → AreOn s m.config.result_max_bytes rs (called_each rs m)
  unfolding called_each
  called_each-AreOn [] m s h k = tt
  called_each-AreOn (r ∷ rs) m s h k =
      rw (call_tool-busy r m s h k.0 k.1)
        (refl, h, called_each-AreOn rs (record m { last_used = r.now }) s h k.2)
