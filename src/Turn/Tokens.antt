-- ===== src/Turn/Tokens.antt =====
-- app/graph.py: the counts that the server's tokenizer gives.
use channel_agent.Prelude.{
  ℕ, String, ◌+◌, ◌==◌, Option, none, some, List, [], ◌∷◌, if◌then◌else◌, ltb, str_eq,
}
use channel_agent.Turn.{Message, Counter, message_overhead_tokens, tokenizer_retry_seconds}

abbrev pub Counts : Type 0
Counts = List (String × ℕ)

-- The module's state: `_token_cache` and `_tokenizer_down_until`.
pub record Tokenizer : Type 0 where
  pub cache : Counts
  pub down_until : ℕ

unfoldable pub counted : String → Counts → Option ℕ
counted id [] = none
counted id ((k, n) ∷ rest) = let other = counted id rest in if str_eq k id then some n else other

-- `counts.get(m.id, 0) or count_tokens_approximately([m])`
abbrev tokens_of : Counter → Message → Option ℕ → ℕ
tokens_of estimate m none = estimate.of_messages (m ∷ [])
tokens_of estimate m (some n) = if n == 0 then estimate.of_messages (m ∷ []) else n

unfoldable pub total : Counter → Counts → List Message → ℕ
unfolding counted
total estimate counts [] = 0
total estimate counts (m ∷ ms) =
    tokens_of estimate m (counted m.id counts) + total estimate counts ms

-- The loop: the counts so far and the cache; `none` is a request that failed, and the cache then keeps
-- what was added.
unfoldable pub tokenize_all :
    (String → Option ℕ) → List Message → Counts → Counts → Option Counts × Counts
unfolding counted
tokenize_all tokenize [] counts cache = (some counts, cache)
tokenize_all tokenize (m ∷ ms) counts cache = elim (counted m.id cache) [
  | some n ↦ tokenize_all tokenize ms ((m.id, n) ∷ counts) cache
  | none ↦ elim (tokenize m.content) [
    | none ↦ (none, cache)
    | some n ↦
        let entry : String × ℕ = (m.id, n + message_overhead_tokens) in
        tokenize_all tokenize ms (entry ∷ counts) (entry ∷ cache)
  ]
]

abbrev exact_or : Counter → ℕ → ℕ → Option Counts × Counts → Counter × Tokenizer
exact_or estimate now down (none, cache) =
    (estimate, record { cache = cache; down_until = now + tokenizer_retry_seconds })
exact_or estimate now down (some counts, cache) = (
  record { of_messages = total estimate counts; of_system = estimate.of_system },
  record { cache = cache; down_until = down },
)

-- `_exact_counter` at the time `now`
unfoldable pub exact_counter :
    Counter → (String → Option ℕ) → ℕ → List Message → Tokenizer → Counter × Tokenizer
unfolding tokenize_all total
exact_counter estimate tokenize now messages t =
    if ltb now t.down_until
    then (estimate, t)
    else exact_or estimate now t.down_until (tokenize_all tokenize messages [] t.cache)
