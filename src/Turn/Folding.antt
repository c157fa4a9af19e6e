-- ===== src/Turn/Folding.antt =====
-- app/graph.py: how far the summary reaches.
use channel_agent.Prelude.{
  ℕ, String, ◌≡◌, refl, sym, ap, ◌∙◌, ◌⊎◌, inl, inr, ◌+◌, ◌-◌, true, false, Option, none, some,
  List, length, take, drop, leb, Bool-cases, arith,
}
use channel_agent.Turn.{Message, GraphState, summary_batch}
use channel_agent.Turn.Node.{
  Surroundings, AgentSettings, Plan, is_empty, present, folds, folded_or, plan, summarize,
  window_beside,
}

-- The messages that a turn would drop with the summary as it was.
abbrev pub dropped_by : Surroundings → AgentSettings → GraphState → ℕ
dropped_by s agent state =
    length state.messages - length (window_beside s agent state.summary state.messages)

-- The new summary, if the earlier part is to be folded into it.
abbrev pub folded_by : Surroundings → AgentSettings → GraphState → Option String
folded_by s agent state = summarize s.engine (present agent.model) state.summary (
    take (dropped_by s agent state - state.summary_covers)
      (drop state.summary_covers state.messages))

-- What a plan does to the summary: it is kept, since fewer than six messages have fallen out of the
-- window behind it or the engine gave none, or it is the engine's and covers all that fell out.
abbrev pub IsFolded : Surroundings → AgentSettings → GraphState → Plan → Type 0
IsFolded s agent state p =
    ((p.summary ≡ state.summary)
      × (p.covers ≡ state.summary_covers)
      × ((leb (state.summary_covers + summary_batch) (dropped_by s agent state) ≡ false)
          ⊎ (present (folded_by s agent state) ≡ none)))
    ⊎ ((present (folded_by s agent state) ≡ some p.summary)
        × (p.covers ≡ dropped_by s agent state)
        × (leb (state.summary_covers + summary_batch) p.covers ≡ true))

folds_lem : (dropped covers : ℕ) → folds dropped covers ≡ leb (covers + summary_batch) dropped
folds_lem dropped covers = ground arith

folded_lem :
    (s : Surroundings) (agent : AgentSettings) (state : GraphState) (window : List Message)
    (o : Option String)
    → folded_by s agent state ≡ o
    → leb (state.summary_covers + summary_batch) (dropped_by s agent state) ≡ true
    → IsFolded s agent state (folded_or s agent state window (dropped_by s agent state) o)
folded_lem s agent state window none e h = inl (refl, refl, inr (ap present e))
folded_lem s agent state window (some text) e h = elim (Bool-cases (is_empty text)) [
  | inl empty ↦ rw empty (inl (refl, refl, inr (ap present e ∙ ground (arith, empty))))
  | inr full ↦ rw full (inr (ap present e ∙ ground (arith, full), refl, h))
]

-- The summary is kept while fewer than six messages have fallen out of the window behind it, and where
-- the engine gives none; otherwise it is the engine's, and covers all that fell out.
pub plan-IsFolded :
    (s : Surroundings) (agent : AgentSettings) (state : GraphState)
    → IsFolded s agent state (plan s agent state)
unfolding plan
plan-IsFolded s agent state =
    elim (Bool-cases (folds (dropped_by s agent state) state.summary_covers)) [
      | inr few ↦ rw few (
          inl (
            refl,
            refl,
            inl (sym (folds_lem (dropped_by s agent state) state.summary_covers) ∙ few),
          ))
      | inl many ↦ rw many (
          folded_lem s agent state _ (folded_by s agent state) refl
            (sym (folds_lem (dropped_by s agent state) state.summary_covers) ∙ many))
    ]
