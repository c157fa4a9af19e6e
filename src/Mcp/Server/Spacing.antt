-- ===== src/Mcp/Server/Spacing.antt =====
-- app/mcp/manager.py: what a server sees of a row of calls, in the order of the clock.
use mathlib.Core.Path.{subst}
use channel_agent.Prelude.{
  sym, ℕ, ◌≡◌, refl, ap, ◌∙◌, inl, inr, ◌+◌, ◌*◌, true, false, Option, none, some, List, [], ◌∷◌,
  ltb, leb, Codes, Bool-cases, arith,
}
use channel_agent.Outbound.{NetLibrary, Address}
use channel_agent.Mcp.Server.{
  ServerConfig, Session, Sdk, disabled, backing_off, unreachable, no_answer, request_failed, Done,
  done, error, Managed, managed, connect, get_session, use_session, session_at, is_idle,
  after_attempt, backoff_base, backoff_max, smaller,
}

-- The state of the specification: how long the next failure keeps the server from being contacted,
-- and until when it is not contacted.
abbrev pub Paced : ℕ → ℕ → List (ℕ × ℕ × Done Session) → Type 0
Paced wait ready [] = Unit {0}
Paced wait ready ((now, failed_at, done s) ∷ rest) =
    (leb ready now ≡ true) × Paced backoff_base 0 rest
Paced wait ready ((now, failed_at, error backing_off) ∷ rest) =
    (ltb now ready ≡ true) × Paced wait ready rest
Paced wait ready ((now, failed_at, error unreachable) ∷ rest) =
    (leb ready now ≡ true) × Paced (smaller (wait * 2) backoff_max) (failed_at + wait) rest
Paced wait ready ((now, failed_at, error disabled) ∷ rest) = ⊥
Paced wait ready ((now, failed_at, error no_answer) ∷ rest) = ⊥
Paced wait ready ((now, failed_at, error request_failed) ∷ rest) = ⊥

-- A call for a session: what the SDK does then, when it comes and when a failure would be noticed.
pub record Call (A : Type 0) : Type 0 where
  pub sdk : Sdk A
  pub now : ℕ
  pub failed_at : ℕ

abbrev pub IsRising : {A : Type 0} → ℕ → List (Call A) → Type 0
IsRising clock [] = Unit {0}
IsRising clock (c ∷ cs) = (leb clock c.now ≡ true) × IsRising c.now cs

-- What the specification knows of a server.
abbrev Follows : ℕ → ℕ → ℕ → Managed → Option Session → Type 0
Follows wait ready clock m none = (wait ≡ m.backoff) × (ready ≡ m.next_retry_at)
Follows wait ready clock m (some s) =
    ((wait ≡ backoff_base) × (ready ≡ 0))
    × ((m.backoff ≡ backoff_base) × (leb m.next_retry_at clock ≡ true))

module _ (net : NetLibrary) (resolver : Codes → ℕ → Option (List Address)) {A : Type 0} where
  unfoldable pub trace : List (Call A) → Managed → List (ℕ × ℕ × Done Session)
  unfolding get_session
  trace [] m = []
  trace (c ∷ cs) m =
      let (outcome, m') = get_session net resolver c.sdk c.now c.failed_at m in
      (c.now, c.failed_at, outcome) ∷ trace cs m'

  abbrev AfterCall : ℕ → ℕ → Call A → Done Session × Managed → Type 0
  AfterCall wait ready c (outcome, m') =
      (tr : List (ℕ × ℕ × Done Session))
      → ((w r : ℕ) → Follows w r c.now m' m'.session → Paced w r tr)
      → Paced wait ready ((c.now, c.failed_at, outcome) ∷ tr)

  after_attempt_lem :
      (wait ready : ℕ) (c : Call A) (m : Managed) (r : Option Session)
      → leb ready c.now ≡ true
      → leb m.next_retry_at c.now ≡ true
      → m.session ≡ none
      → wait ≡ m.backoff
      → AfterCall wait ready c (after_attempt c.now c.failed_at m r)
  after_attempt_lem wait ready c m none h n e b tr k = (
    h,
    k (smaller (wait * 2) backoff_max) (c.failed_at + wait) (
        subst
          (λ (r : Option Session).
            Follows (smaller (wait * 2) backoff_max) (c.failed_at + wait) c.now
              (after_attempt c.now c.failed_at m none).1 r)
          (sym e) (ap (λ w. smaller (w * 2) backoff_max) b, ap (λ w. c.failed_at + w) b)),
  )
  after_attempt_lem wait ready c m (some s) h n e b tr k =
      (h, k backoff_base 0 ((refl, refl), (refl, n)))

  contact_lem :
      (wait ready : ℕ) (c : Call A) (m : Managed)
      → m.session ≡ none
      → wait ≡ m.backoff
      → ready ≡ m.next_retry_at
      → AfterCall wait ready c (use_session net resolver c.sdk c.now c.failed_at m none)
  contact_lem wait ready c m e b r = elim (Bool-cases (ltb c.now m.next_retry_at)) [
    | inl early ↦ rw early (λ tr k. (
      ground (arith, early, r),
      k wait ready (subst (λ (q : Option Session). Follows wait ready c.now m q) (sym e) (b, r)),
    ))
    | inr late ↦ rw late (
        after_attempt_lem wait ready c m (connect net resolver c.sdk m.config)
          (ground (arith, late, r)) (ground (arith, late)) e b)
  ]

  idle_lem :
      (wait ready clock : ℕ) (c : Call A) (m : Managed)
      → wait ≡ backoff_base
      → ready ≡ 0
      → m.backoff ≡ backoff_base
      → leb m.next_retry_at clock ≡ true
      → leb clock c.now ≡ true
      → AfterCall wait ready c
          (use_session net resolver c.sdk c.now c.failed_at (record m { session = none }) none)
  idle_lem wait ready clock c m w r b n t =
      let on_time : leb m.next_retry_at c.now ≡ true = ground (arith, n, t) in
      let not_early : ltb c.now m.next_retry_at ≡ false = ground (arith, on_time) in
      rw not_early (
        after_attempt_lem wait ready c (record m { session = none })
          (connect net resolver c.sdk m.config) (ground (arith, r)) on_time refl (w ∙ sym b))

  session_at_lem :
      (wait ready clock : ℕ) (c : Call A) (m : Managed) (r : Option Session)
      → m.session ≡ r
      → leb clock c.now ≡ true
      → Follows wait ready clock m r
      → AfterCall wait ready c (session_at net resolver c.sdk c.now c.failed_at m r)
  unfolding session_at
  session_at_lem wait ready clock c m none e t f = contact_lem wait ready c m e f.0 f.1
  session_at_lem wait ready clock c m (some s) e t f =
      elim (Bool-cases (is_idle c.now m (some s))) [
        | inl idle ↦ rw idle (idle_lem wait ready clock c m f.0.0 f.0.1 f.1.0 f.1.1 t)
        | inr busy ↦ rw busy (λ tr k. (
          ground (arith, f.0.1),
          k backoff_base 0 (
              subst
                (λ (q : Option Session).
                  Follows backoff_base 0 c.now (record m { last_used = c.now }) q)
                (sym e) ((refl, refl), (f.1.0, ground (arith, f.1.1, t)))),
        ))
      ]

  trace-Follows :
      (cs : List (Call A)) (wait ready clock : ℕ) (m : Managed)
      → IsRising clock cs
      → Follows wait ready clock m m.session
      → Paced wait ready (trace cs m)
  unfolding trace get_session
  trace-Follows [] wait ready clock m h f = tt
  trace-Follows (c ∷ cs) wait ready clock m h f =
      session_at_lem wait ready clock c m m.session refl h.0 f _ (λ w r g.
        trace-Follows cs w r c.now (get_session net resolver c.sdk c.now c.failed_at m).1 h.1 g)

  -- However the calls of a server end, at times that rise, what they return follows the
  -- specification: a session is handed out or a contact tried no sooner than the wait after the
  -- last failure is over, the calls before that are refused, the wait doubles from two seconds up
  -- to sixty, and a connection sets it back.
  pub trace-Paced :
      (config : ServerConfig) (cs : List (Call A))
      → IsRising 0 cs
      → Paced backoff_base 0 (trace cs (managed config))
  unfolding managed
  trace-Paced config cs h = trace-Follows cs backoff_base 0 0 (managed config) h (refl, refl)
