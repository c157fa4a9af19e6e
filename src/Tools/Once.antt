-- ===== src/Tools/Once.antt =====
-- app/tools.py: no call is run twice in a turn, and every call is answered.
use channel_agent.Prelude.{
  ℕ, suc, zero, String, ◌≡◌, refl, sym, ap, ◌∙◌, false, Option, none, some, List, [], ◌∷◌, ◌++◌,
  any, any-append, append-nil, append_assoc, arith, str_eq_iff, Bool-cases, inl, inr,
}
use channel_agent.Env.{Env}
use channel_agent.Tools.{
  Call, Reply, Message, given, assistant, tool, Executor, Engine, Key, same_key, key_of, Turn,
  Ending, max_tool_rounds, handle_call, handle_calls, tool_rounds, run_tool_loop, unless_calls,
  content_or_empty, replied,
}

-- No key stands twice.
abbrev pub IsDistinct : List Key → Type 0
IsDistinct [] = Unit {0}
IsDistinct (k ∷ ks) = (any (same_key k) ks ≡ false) × IsDistinct ks

same_key_sym : (k j : Key) → same_key k j ≡ same_key j k
same_key_sym (n, a) (m, b) =
    ground (arith, str_eq_iff n m, str_eq_iff m n, str_eq_iff a b, str_eq_iff b a)

IsDistinct-append :
    (ks : List Key) (k : Key)
    → any (same_key k) ks ≡ false
    → IsDistinct ks
    → IsDistinct (ks ++ k ∷ [])
IsDistinct-append [] k h d = (refl, tt)
IsDistinct-append (j ∷ js) k h d = (
  ground (arith, any-append (same_key j) js (k ∷ []), same_key_sym k j, d.0),
  IsDistinct-append js k (ground arith) d.1,
)

-- What was run is distinct, and was seen.
record IsOnce (t : Turn) : Type 0 where
  distinct : IsDistinct t.ran
  seen : (k : Key) → any (same_key k) t.ran ≡ any (same_key k) t.seen

-- The ids of the calls that the engine made, and of those that were answered, in order.
abbrev call_ids : List Call → List String
call_ids [] = []
call_ids (c ∷ cs) = c.id ∷ call_ids cs

unfoldable pub asked_ids : List Message → List String
asked_ids [] = []
asked_ids (assistant r ∷ ms) = call_ids r.calls ++ asked_ids ms
asked_ids (_ ∷ ms) = asked_ids ms

unfoldable pub answered_ids : List Message → List String
answered_ids [] = []
answered_ids (tool i c ∷ ms) = i ∷ answered_ids ms
answered_ids (_ ∷ ms) = answered_ids ms

asked_ids-append : (ms ns : List Message) → asked_ids (ms ++ ns) ≡ asked_ids ms ++ asked_ids ns
unfolding asked_ids
asked_ids-append [] ns = refl
asked_ids-append (given s ∷ ms) ns = asked_ids-append ms ns
asked_ids-append (assistant r ∷ ms) ns = rw (asked_ids-append ms ns, append_assoc) refl
asked_ids-append (tool i c ∷ ms) ns = asked_ids-append ms ns

answered_ids-append :
    (ms ns : List Message) → answered_ids (ms ++ ns) ≡ answered_ids ms ++ answered_ids ns
unfolding answered_ids
answered_ids-append [] ns = refl
answered_ids-append (given s ∷ ms) ns = answered_ids-append ms ns
answered_ids-append (assistant r ∷ ms) ns = answered_ids-append ms ns
answered_ids-append (tool i c ∷ ms) ns = ap (λ l. i ∷ l) (answered_ids-append ms ns)

module _ ⦃env : Env⦄ (executor : Executor) where
  handle_call-IsOnce : (c : Call) (t : Turn) → IsOnce t → IsOnce (handle_call executor c t)
  unfolding handle_call
  handle_call-IsOnce c t o = elim (Bool-cases (any (same_key (key_of c)) t.seen)) [
    | inl again ↦ rw again (record { distinct = o.distinct; seen = o.seen })
    | inr new ↦ rw new (record {
      distinct = IsDistinct-append t.ran (key_of c) (o.seen (key_of c) ∙ new) o.distinct;
      seen = λ k. ground (arith, any-append (same_key k) t.ran (key_of c ∷ []), o.seen k);
    })
  ]

  handle_calls-IsOnce : (cs : List Call) (t : Turn) → IsOnce t → IsOnce (handle_calls executor cs t)
  unfolding handle_calls
  handle_calls-IsOnce [] t o = o
  handle_calls-IsOnce (c ∷ cs) t o = handle_calls-IsOnce cs _ (handle_call-IsOnce c t o)

  -- The messages that a list of calls adds.
  abbrev Answers : List Call → Turn → Type 0
  Answers cs t =
      (asked_ids (handle_calls executor cs t).working ≡ asked_ids t.working)
      × (answered_ids (handle_calls executor cs t).working ≡ answered_ids t.working ++ call_ids cs)

  handle_call_answered :
      (c : Call) (t : Turn)
      → (asked_ids (handle_call executor c t).working ≡ asked_ids t.working)
        × (answered_ids (handle_call executor c t).working ≡ answered_ids t.working ++ c.id ∷ [])
  unfolding handle_call asked_ids answered_ids
  handle_call_answered c t = elim (Bool-cases (any (same_key (key_of c)) t.seen)) [
    | inl again ↦
        rw again ((asked_ids-append t.working _ ∙ append-nil _), answered_ids-append t.working _)
    | inr new ↦
        rw new ((asked_ids-append t.working _ ∙ append-nil _), answered_ids-append t.working _)
  ]

  handle_calls-Answers : (cs : List Call) (t : Turn) → Answers cs t
  unfolding handle_calls
  handle_calls-Answers [] t = (refl, sym (append-nil _))
  handle_calls-Answers (c ∷ cs) t =
      let (asked, answered) = handle_call_answered c t in
      let (asked', answered') = handle_calls-Answers cs (handle_call executor c t) in
      (
        asked' ∙ asked,
        answered'
            ∙ ap (λ l. l ++ call_ids cs) answered
            ∙ append_assoc (answered_ids t.working) (c.id ∷ []) (call_ids cs),
      )

  -- The turn after a request and its reply.
  abbrev asking : Reply → Turn → Turn
  asking r t = record t {
    requests = t.requests ++ t.working ∷ [];
    working = t.working ++ assistant r ∷ [];
  }

  abbrev IsAnswered : Turn → Type 0
  IsAnswered t = asked_ids t.working ≡ answered_ids t.working

  round-IsAnswered :
      (r : Reply) (t : Turn)
      → IsAnswered t
      → IsAnswered (handle_calls executor r.calls (asking r t))
  unfolding asked_ids answered_ids
  round-IsAnswered r t h =
      let t' : Turn = asking r t in
      let (asked, answered) = handle_calls-Answers r.calls t' in
      let new_asked : asked_ids t'.working ≡ asked_ids t.working ++ call_ids r.calls =
        asked_ids-append t.working (assistant r ∷ [])
        ∙ ap (λ l. asked_ids t.working ++ l) (append-nil (call_ids r.calls)) in
      let same : answered_ids t'.working ≡ answered_ids t.working =
        answered_ids-append t.working (assistant r ∷ []) ∙ append-nil (answered_ids t.working) in
      asked ∙ new_asked ∙ ap (λ l. l ++ call_ids r.calls) (h ∙ sym same) ∙ sym answered

  abbrev IsSound : Turn → Type 0
  IsSound t = IsOnce t × IsAnswered t

  round-IsSound :
      (r : Reply) (t : Turn) → IsSound t → IsSound (handle_calls executor r.calls (asking r t))
  round-IsSound r t (o, a) = (
    handle_calls-IsOnce r.calls _ (record { distinct = o.distinct; seen = o.seen }),
    round-IsAnswered r t a,
  )

  abbrev sent : Turn → Turn
  sent t = record t { requests = t.requests ++ t.working ∷ [] }

  sent-IsSound : (t : Turn) → IsSound t → IsSound (sent t)
  sent-IsSound t (o, a) = (record { distinct = o.distinct; seen = o.seen }, a)

  IsSound-unless_calls :
      (cs : List Call) (done again : Ending × Turn)
      → IsSound done.1
      → IsSound again.1
      → IsSound (unless_calls cs done again).1
  IsSound-unless_calls [] done again h k = h
  IsSound-unless_calls (_ ∷ _) done again h k = k

  tool_rounds-IsSound :
      (engine : Engine) (left number : ℕ) (t : Turn)
      → IsSound t
      → IsSound (tool_rounds engine executor left number t).1
  unfolding tool_rounds
  tool_rounds-IsSound engine zero number t s = s
  tool_rounds-IsSound engine (suc left) number t s =
      go (engine t.working) refl (λ t'. tool_rounds-IsSound engine left (suc number) t')
    where
      go :
          (m : Option Reply)
          → engine t.working ≡ m
          → ((t' : Turn)
              → IsSound t'
              → IsSound (tool_rounds engine executor left (suc number) t').1)
          → IsSound (tool_rounds engine executor (suc left) number t).1
      go none e ih = rw (e, tool_rounds) (sent-IsSound t s)
      go (some r) e ih =
          rw (e, tool_rounds)
            (IsSound-unless_calls r.calls (replied (content_or_empty r.content) number, sent t) _
              (sent-IsSound t s) (ih _ (round-IsSound r t s)))

  -- In a turn with tools, however the engine answers and the tools end, no two of the calls that are
  -- run have the same name and arguments, and each call of the engine is answered by one message
  -- with its id, in the order of the calls,
  -- if that held of the messages at the start.
  pub run_tool_loop-IsSound :
      (engine : Engine) (messages : List Message)
      → asked_ids messages ≡ answered_ids messages
      → IsDistinct (run_tool_loop engine executor messages).1.ran
        × (asked_ids (run_tool_loop engine executor messages).1.working
            ≡ answered_ids (run_tool_loop engine executor messages).1.working)
  unfolding run_tool_loop
  run_tool_loop-IsSound engine messages h =
      let (once, answered) =
        tool_rounds-IsSound engine max_tool_rounds 1 _
          (record { distinct = tt; seen = λ k. refl }, h) in
      (once.distinct, answered)
