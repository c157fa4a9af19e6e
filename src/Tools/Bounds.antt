-- ===== src/Tools/Bounds.antt =====
-- app/tools.py: how many requests a turn with tools makes, and how long a result is.
use Prim.Native.String.{count}
use text.Mathlib.TextLemmas
use channel_agent.Prelude.{
  ℕ, suc, zero, ◌+◌, ◌≤◌, ◌<◌, String, ◌≡◌, refl, sym, ap, ◌∙◌, Option, none, some, List, [], ◌∷◌,
  ◌++◌, length, length-append, arith, count-shortened,
}
use channel_agent.Env.{Env}
use channel_agent.Tools.{
  Reply, Call, Message, Executor, Engine, Turn, Ending, replied, broken, returned, raised,
  max_tool_rounds, tool_result_max_chars, run_one_tool, handle_call, handle_calls, tool_rounds,
  run_tool_loop, unless_calls, content_or_empty,
}

-- A turn made this many requests; the ending says how many, unless one failed.
abbrev pub IsReported : ℕ → Ending → Type 0
IsReported made (replied _ rounds) = rounds ≡ made
IsReported made broken = Unit {0}

abbrev pub IsWithin : ℕ → ℕ → Ending × Turn → Type 0
IsWithin low high (ending, t) =
    (low ≤ length t.requests) × (length t.requests ≤ high) × IsReported (length t.requests) ending

module _ ⦃env : Env⦄ (engine : Engine) (executor : Executor) where
  requests-handle_calls :
      (cs : List Call) (t : Turn) → (handle_calls executor cs t).requests ≡ t.requests
  unfolding handle_calls handle_call
  requests-handle_calls [] t = refl
  requests-handle_calls (c ∷ cs) t =
      requests-handle_calls cs (handle_call executor c t) ∙ ground arith

  IsWithin-unless_calls :
      (low high : ℕ) (cs : List Call) (done again : Ending × Turn)
      → IsWithin low high done
      → IsWithin low high again
      → IsWithin low high (unless_calls cs done again)
  IsWithin-unless_calls low high [] done again h k = h
  IsWithin-unless_calls low high (_ ∷ _) done again h k = k

  tool_rounds-IsWithin :
      (left number : ℕ) (t : Turn)
      → suc (length t.requests) ≡ number
      → 1 ≤ left + length t.requests
      → number + left ≡ suc max_tool_rounds
      → IsWithin 1 max_tool_rounds (tool_rounds engine executor left number t)
  unfolding tool_rounds
  tool_rounds-IsWithin zero number t h some_left k = (omega arith, omega arith, omega arith)
  tool_rounds-IsWithin (suc left) number t h some_left k = go (engine t.working) refl (λ t' e.
      tool_rounds-IsWithin left (suc number) t' (omega (arith, e)) (omega (arith, e)) (omega arith))
    where
      one_more : length (t.requests ++ t.working ∷ []) ≡ number
      one_more = ground (arith, length-append t.requests (t.working ∷ []))

      go :
          (m : Option Reply)
          → engine t.working ≡ m
          → ((t' : Turn)
              → length t'.requests ≡ number
              → IsWithin 1 max_tool_rounds (tool_rounds engine executor left (suc number) t'))
          → IsWithin 1 max_tool_rounds (tool_rounds engine executor (suc left) number t)
      go none e ih = rw (e, tool_rounds) (omega (arith, one_more), omega (arith, one_more), tt)
      go (some r) e ih =
          rw (e, tool_rounds)
            (IsWithin-unless_calls 1 max_tool_rounds r.calls
              (replied (content_or_empty r.content) number, _) _
              (omega (arith, one_more), omega (arith, one_more), sym one_more)
              (ih _ (ap length (requests-handle_calls r.calls _) ∙ one_more)))

  -- However the engine answers and the tools end, a turn makes at least one and at most four
  -- requests to the engine; if no request fails, the number that it reports is the number it made.
  pub run_tool_loop-IsWithin :
      (messages : List Message) → IsWithin 1 4 (run_tool_loop engine executor messages)
  unfolding run_tool_loop
  run_tool_loop-IsWithin messages = tool_rounds-IsWithin 4 1 _ refl (omega arith) refl

module _ ⦃env : Env⦄ (executor : Executor) (name arguments : String) where
  -- What a tool returned is cut to 4000 characters before it goes back to the model.
  count-run_one_tool :
      (result : String)
      → executor name arguments ≡ returned result
      → count (run_one_tool executor name arguments) ≤ tool_result_max_chars
  unfolding run_one_tool
  count-run_one_tool result h = rw (h, run_one_tool) (count-shortened tool_result_max_chars result)

  -- What a tool raised is not cut: an error text of more than 4000 characters goes back whole, and
  -- is longer than the cap on results.
  pub run_one_tool_uncapped :
      (text : String)
      → executor name arguments ≡ raised text
      → tool_result_max_chars < count text
      → tool_result_max_chars < count (run_one_tool executor name arguments)
  unfolding run_one_tool
  run_one_tool_uncapped text h k =
      rw (h, run_one_tool) (rw (TextLemmas.length-append "error: " text) (omega arith))
