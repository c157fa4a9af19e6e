-- ===== src/Turn/Covered.antt =====
-- app/graph.py: the summary never covers more than there is, through any row of turns.
use mathlib.Core.Path.{subst}
use channel_agent.Prelude.{
  String, ◌≡◌, refl, sym, inl, inr, Bool, true, Option, none, some, List, [], ◌∷◌, length,
  length-append, leb, arith,
}
use channel_agent.Turn.{Message, GraphState, Answer, replied, status, failed}
use channel_agent.Turn.Node.{Surroundings, AgentSettings, Plan, plan, updated, call_llm}
use channel_agent.Turn.Folding.{IsFolded, plan-IsFolded}
use channel_agent.Turn.Run.{
  Graph, GraphLaws, Attempt, node_of, new_messages, with_messages, settings_of, reply, reply_text,
  run_turn,
}

abbrev pub IsCovered : GraphState → Type 0
IsCovered state = leb state.summary_covers (length state.messages) ≡ true

IsCovered-folded :
    (s : Surroundings) (agent : AgentSettings) (state : GraphState) (p : Plan)
    → IsFolded s agent state p
    → IsCovered state
    → leb p.covers (length state.messages) ≡ true
IsCovered-folded s agent state p (inl (e, f, g)) h = ground (arith, f, h)
IsCovered-folded s agent state p (inr (e, f, g)) h = ground (arith, f)

IsCovered-updated :
    (state : GraphState) (p : Plan) (new : String → Message) (answer : Answer) (result : GraphState)
    → leb p.covers (length state.messages) ≡ true
    → updated state p new answer ≡ some result
    → IsCovered result
IsCovered-updated state p new (status n) result h e = cc
IsCovered-updated state p new failed result h e = cc
IsCovered-updated state p new (replied text) result h e =
    ground (arith, e, h, length-append state.messages (new text ∷ []))

IsCovered-call_llm :
    (s : Surroundings) (agent : AgentSettings) (new : String → Message) (state result : GraphState)
    → IsCovered state
    → call_llm s agent new state ≡ some result
    → IsCovered result
unfolding call_llm
IsCovered-call_llm s agent new state result h e =
    IsCovered-updated state (plan s agent state) new _ result
      (IsCovered-folded s agent state (plan s agent state) (plan-IsFolded s agent state) h) e

IsCovered-with_messages :
    (new : List Message) (state : GraphState)
    → IsCovered state
    → IsCovered (with_messages new state)
IsCovered-with_messages new state h = ground (arith, length-append state.messages new, h)

IsCovered-run_turn :
    (graph : Graph)
    → GraphLaws graph
    → (retry : Bool) (a : Attempt) (text : String) (state : GraphState) → IsCovered state
    → IsCovered (run_turn graph retry a text state).1
unfolding run_turn
IsCovered-run_turn graph laws retry a text state h =
    ended (node_of a text (with_messages new state)) refl
  where
    new : List Message
    new = new_messages retry a text state.messages

    ended :
        (r : Option GraphState)
        → node_of a text (with_messages new state) ≡ r
        → IsCovered (reply_text (graph (node_of a text) new state)).1
    ended none e =
        subst (λ (q : Option GraphState × GraphState). IsCovered (reply_text q).1)
          (sym (laws.keeps_input (node_of a text) new state e))
          (IsCovered-with_messages new state h)
    ended (some result) e =
        subst (λ (q : Option GraphState × GraphState). IsCovered (reply_text q).1)
          (sym (laws.saves_result (node_of a text) new state result e))
          (IsCovered-call_llm a.surroundings (settings_of a.agent a.routing text) (reply a)
            (with_messages new state) result (IsCovered-with_messages new state h) e)

pub record TurnOf : Type 0 where
  pub retry : Bool
  pub attempt : Attempt
  pub text : String

unfoldable pub turns : Graph → List TurnOf → GraphState → GraphState
unfolding run_turn
turns graph [] state = state
turns graph (t ∷ ts) state = turns graph ts (run_turn graph t.retry t.attempt t.text state).1

-- Through any row of turns, answered or failed, new or retried, the summary covers no more messages
-- than the history has.
pub IsCovered-turns :
    (graph : Graph)
    → GraphLaws graph
    → (ts : List TurnOf) (state : GraphState) → IsCovered state
    → IsCovered (turns graph ts state)
unfolding turns
IsCovered-turns graph laws [] state h = h
IsCovered-turns graph laws (t ∷ ts) state h =
    IsCovered-turns graph laws ts _ (IsCovered-run_turn graph laws t.retry t.attempt t.text state h)
