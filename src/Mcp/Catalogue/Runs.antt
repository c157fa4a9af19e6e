-- ===== src/Mcp/Catalogue/Runs.antt =====
-- app/mcp/catalogue.py: the row that a call leaves.
use mathlib.Core.Path.{subst}
use channel_agent.Prelude.{
  ℕ, ◌≡◌, refl, sym, ◌⊎◌, inl, inr, ◌-◌, Bool, true, false, Option, none, some, List, [], ◌∷◌, ◌++◌,
  any, take, Codes, same_codes, Bool-cases,
}
use channel_agent.Outbound.{NetLibrary, Address}
use channel_agent.Mcp.Names.{split_name}
use channel_agent.Mcp.Server.{
  ServerConfig, Session, Answer, answered, late, failed, Done, done, error, Managed, get_session,
  call_tool, called, read_answer,
}
use channel_agent.Mcp.Server.Kept.{config-get_session}
use channel_agent.Mcp.Manager.{get}
use channel_agent.Mcp.Catalogue.{
  Reply, output, Calls, Moment, row_names, reply_of, call_known, call_found, call_split,
  arguments_of, run,
}

module _ (net : NetLibrary) (resolver : Codes → ℕ → Option (List Address)) {A : Type 0} where
  -- A call of a server that was answered without an error.
  pub record IsAnsweredBy (w : Moment A) (tool : Codes) (arguments : A) (m : Managed)
      (reply : Reply) : Type 0 where
    pub enabled : any (same_codes tool) m.config.disabled_tools ≡ false
    pub session : Session
    pub text : Codes
    pub answer : w.sdk.call session tool arguments ≡ answered text false
    pub limited : reply ≡ output (take m.config.result_max_bytes text)

  abbrev Outcome : Moment A → Codes → A → Managed → Bool × Reply → Type 0
  Outcome w tool arguments m (succeeded, reply) =
      (succeeded ≡ false) ⊎ ((succeeded ≡ true) × IsAnsweredBy w tool arguments m reply)

  answer_lem :
      (w : Moment A) (tool : Codes) (arguments : A) (m : Managed)
      → any (same_codes tool) m.config.disabled_tools ≡ false
      → (s : Session) (a : Answer) → w.sdk.call s tool arguments ≡ a
      → Outcome w tool arguments m (reply_of (read_answer m.config.result_max_bytes a))
  answer_lem w tool arguments m d s (answered text true) e = inl refl
  answer_lem w tool arguments m d s (answered text false) e =
      inr (refl, record { enabled = d; session = s; text = text; answer = e; limited = refl })
  answer_lem w tool arguments m d s late e = inl refl
  answer_lem w tool arguments m d s failed e = inl refl

  called_lem :
      (w : Moment A) (tool : Codes) (arguments : A) (m : Managed)
      → any (same_codes tool) m.config.disabled_tools ≡ false
      → (r : Done Session × Managed) → r.1.config ≡ m.config
      → Outcome w tool arguments m (reply_of (called net resolver w.sdk tool arguments r).0)
  called_lem w tool arguments m d (error e, n) h = inl refl
  called_lem w tool arguments m d (done s, n) h =
      subst
        (λ (c : ServerConfig).
          Outcome w tool arguments m
            (reply_of (read_answer c.result_max_bytes (w.sdk.call s tool arguments))))
        (sym h) (answer_lem w tool arguments m d s (w.sdk.call s tool arguments) refl)

  call_tool_lem :
      (w : Moment A) (tool : Codes) (arguments : A) (m : Managed)
      → Outcome w tool arguments m
          (reply_of (call_tool net resolver w.sdk w.now w.failed_at tool arguments m).0)
  unfolding call_tool
  call_tool_lem w tool arguments m =
      elim (Bool-cases (any (same_codes tool) m.config.disabled_tools)) [
        | inl off ↦ rw off (inl refl)
        | inr on ↦ rw on (
            called_lem w tool arguments m on (get_session net resolver w.sdk w.now w.failed_at m)
              (config-get_session net resolver w.sdk w.now w.failed_at m))
      ]

  -- A call that succeeded went to the server and the tool of its name.
  abbrev pub IsSuccess : Moment A → Codes → Option A → List Managed → Reply → Type 0
  IsSuccess w name arguments servers reply =
      (server : Codes) × (tool : Codes) × (m : Managed) × (a : A) × (split_name name
        ≡ some (server, tool))
      × (get server servers ≡ some m)
      × (arguments ≡ some a)
      × IsAnsweredBy w tool a m reply

  split_lem :
      (w : Moment A) (name : Codes) (arguments : Option A) (servers : List Managed)
      (parsed : Option (Codes × Codes))
      → split_name name ≡ parsed
      → let r = call_split net resolver w parsed arguments servers in
        (r.0.0 ≡ false) ⊎ ((r.0.0 ≡ true) × IsSuccess w name arguments servers r.0.1)
  split_lem w name arguments servers none e = inl refl
  split_lem w name arguments servers (some (server, tool)) e = found_lem (get server servers) refl
    where
      known_lem :
          (m : Managed)
          → get server servers ≡ some m
          → (a : Option A) → arguments ≡ a
          → let r = call_known net resolver w tool a m in
            (r.0.0 ≡ false) ⊎ ((r.0.0 ≡ true) × IsSuccess w name arguments servers r.0.1)
      known_lem m f none g = inl refl
      known_lem m f (some a) g = elim (call_tool_lem w tool a m) [
        | inl bad ↦ inl bad
        | inr good ↦ inr (good.0, (server, tool, m, a, e, f, g, good.1))
      ]

      found_lem :
          (found : Option Managed)
          → get server servers ≡ found
          → let r = call_found net resolver w server tool arguments found servers in
            (r.0.0 ≡ false) ⊎ ((r.0.0 ≡ true) × IsSuccess w name arguments servers r.0.1)
      found_lem none f = inl refl
      found_lem (some m) f = known_lem m f arguments refl

  -- A call that is not cut off leaves one row, with the server and the tool of its name; it says "ok" only if the
  -- server of that name is known, the tool is on, the arguments are an object and the tool answered
  -- without an error, and then the text is what the tool wrote, up to the server's limit.
  pub run-IsRecorded :
      (load : Codes → Option A) (no_arguments : A) (size : Reply → ℕ) (agent_id : Option ℕ)
      (w : Moment A) (name raw : Codes) (c : Calls)
      → let after = run net resolver load no_arguments size agent_id w name raw c in
        (succeeded : Bool) × (after.1.rows
          ≡ c.rows
            ++ record {
              agent_id = agent_id;
              server_name = (row_names name (split_name name)).0;
              tool_name = (row_names name (split_name name)).1;
              succeeded = succeeded;
              duration_ms = w.ended - w.now;
              result_bytes = size after.0;
            }
              ∷ [])
        × ((succeeded ≡ false)
            ⊎ ((succeeded ≡ true)
                × IsSuccess w name (arguments_of load no_arguments raw) c.servers after.0))
  unfolding run
  run-IsRecorded load no_arguments size agent_id w name raw c = (
    (call_split net resolver w (split_name name) (arguments_of load no_arguments raw)
        c.servers).0.0,
    refl,
    split_lem w name (arguments_of load no_arguments raw) c.servers (split_name name) refl,
  )
