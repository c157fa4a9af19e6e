-- ===== src/Turn/Retries.antt =====
-- app/graph.py: a message whose turn fails and is tried again.
use channel_agent.Prelude.{
  String, ◌≡◌, refl, ap, ◌∙◌, true, false, none, some, List, [], ◌∷◌, ◌++◌, append-nil, All,
  str_eq_refl, arith,
}
use channel_agent.Turn.{Message, GraphState, Answer, replied, status, failed}
use channel_agent.Turn.Node.{call_llm, plan, Plan, updated}
use channel_agent.Turn.Run.{
  Graph, GraphLaws, Attempt, question, reply, node_of, new_messages, ends_with_text, with_messages,
  settings_of, last_content, reply_text, run_turn,
}

ends_with-append :
    (text : String) (a : Attempt) (ms : List Message)
    → ends_with_text text (ms ++ question a text ∷ []) ≡ true
ends_with-append text a [] = str_eq_refl text
ends_with-append text a (m ∷ []) = str_eq_refl text
ends_with-append text a (m ∷ n ∷ ms) = ends_with-append text a (n ∷ ms)

updated_lem :
    (state : GraphState) (p : Plan) (new : String → Message) (answer : Answer) (result : GraphState)
    → updated state p new answer ≡ some result
    → (text : String) × (result.messages ≡ state.messages ++ new text ∷ [])
updated_lem state p new (status n) result h = cc
updated_lem state p new failed result h = cc
updated_lem state p new (replied text) result h = (text, ground (arith, h))

-- A node adds one message, the reply.
call_llm_appends :
    (a : Attempt) (text : String) (state result : GraphState)
    → node_of a text state ≡ some result
    → (answer : String) × (result.messages ≡ state.messages ++ reply a answer ∷ [])
unfolding call_llm
call_llm_appends a text state result h =
    updated_lem state (plan a.surroundings (settings_of a.agent a.routing text) state) (reply a) _
      result h

-- The state of the thread once the message is stored.
abbrev pub asked : Attempt → String → GraphState → GraphState
asked a text state = with_messages (question a text ∷ []) state

with_nothing : (state : GraphState) → with_messages [] state ≡ state
with_nothing state =
    ap (λ (ms : List Message). record state { messages = ms }) (append-nil state.messages)

-- The thread after tries that were marked as such.
unfoldable pub run_retries : Graph → String → List Attempt → GraphState → GraphState
unfolding run_turn
run_retries graph text [] state = state
run_retries graph text (a ∷ rest) state =
    run_retries graph text rest (run_turn graph true a text state).1

module _ (graph : Graph) (laws : GraphLaws graph) (text : String) (first_try : Attempt)
    (state : GraphState) where
  no_new : (a : Attempt) → new_messages true a text (asked first_try text state).messages ≡ []
  unfolding new_messages
  no_new a = rw (ends_with-append text first_try state.messages) refl

  first_fails :
      node_of first_try text (asked first_try text state) ≡ none
      → run_turn graph false first_try text state ≡ (none, asked first_try text state)
  unfolding run_turn new_messages
  first_fails h =
      ap reply_text
        (laws.keeps_input (node_of first_try text) (question first_try text ∷ []) state h)

  retry_fails :
      (a : Attempt)
      → node_of a text (asked first_try text state) ≡ none
      → run_turn graph true a text (asked first_try text state) ≡ (none, asked first_try text state)
  unfolding run_turn
  retry_fails a h = rw (no_new a) (
      ap reply_text (
        laws.keeps_input (node_of a text) [] (asked first_try text state)
          (ap (node_of a text) (with_nothing (asked first_try text state)) ∙ h)
        ∙ ap (λ (s : GraphState). (none, s)) (with_nothing (asked first_try text state))))

  retry_succeeds :
      (a : Attempt) (result : GraphState)
      → node_of a text (asked first_try text state) ≡ some result
      → run_turn graph true a text (asked first_try text state)
        ≡ (some (last_content result.messages), result)
  unfolding run_turn
  retry_succeeds a result h = rw (no_new a) (
      ap reply_text (
        laws.saves_result (node_of a text) [] (asked first_try text state) result
          (ap (node_of a text) (with_nothing (asked first_try text state)) ∙ h)))

  retries_fail :
      (tries : List Attempt)
      → All (λ a. node_of a text (asked first_try text state) ≡ none) tries
      → run_retries graph text tries (asked first_try text state) ≡ asked first_try text state
  unfolding run_retries
  retries_fail [] h = refl
  retries_fail (a ∷ rest) h =
      ap (λ r. run_retries graph text rest r.1) (retry_fails a h.0) ∙ retries_fail rest h.1

last_content-append :
    (ms : List Message) (m n : Message) → last_content ((ms ++ m ∷ []) ++ n ∷ []) ≡ n.content
last_content-append [] m n = refl
last_content-append (x ∷ []) m n = refl
last_content-append (x ∷ y ∷ ms) m n = last_content-append (y ∷ ms) m n

-- A message whose turn failed, and failed again at each of some retries, is in the history once when a
-- retry succeeds, with the reply behind it: the reply is what the sender gets.
pub run_turn-retried :
    (graph : Graph)
    → GraphLaws graph
    → (text : String) (first_try last_try : Attempt) (tries : List Attempt)
      (state result : GraphState)
    → node_of first_try text (asked first_try text state) ≡ none
    → All (λ a. node_of a text (asked first_try text state) ≡ none) tries
    → node_of last_try text (asked first_try text state) ≡ some result
    → let after =
        run_turn graph true last_try text
          (run_retries graph text tries (run_turn graph false first_try text state).1) in
      (answer : String) × (after ≡ (some answer, result))
      × (result.messages
          ≡ (state.messages ++ question first_try text ∷ []) ++ reply last_try answer ∷ [])
run_turn-retried graph laws text first_try last_try tries state result f r h =
    let (answer, e) = call_llm_appends last_try text (asked first_try text state) result h in
    let tried : run_retries graph text tries (run_turn graph false first_try text state).1
        ≡ asked first_try text state =
      ap (λ q. run_retries graph text tries q.1) (first_fails graph laws text first_try state f)
      ∙ retries_fail graph laws text first_try state tries r in
    let shown : last_content result.messages ≡ answer =
      ap last_content e
      ∙ last_content-append state.messages (question first_try text) (reply last_try answer) in
    (
      answer,
      ap (λ (q : GraphState). run_turn graph true last_try text q) tried
          ∙ retry_succeeds graph laws text first_try state last_try result h
          ∙ ap (λ (t : String). (some t, result)) shown,
      e,
    )
