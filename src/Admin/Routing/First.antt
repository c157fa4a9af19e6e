-- ===== src/Admin/Routing/First.antt =====
-- app/admin/routing.py: a rule matches by the number that the administrator gave.

use Prim.Native.String.{count}
use text.Mathlib.TextLemmas.{nil-append, cons-append}
use channel_agent.Prelude.{
  ℕ, zero, suc, ◌+◌, ◌*◌, ◌-◌, ◌/◌, ◌%◌, ◌<◌, String, ◌≡◌, refl, List, [], ◌∷◌, ◌++◌, ltb, leb,
  arith, Bool-cases, inl, inr,
}
use channel_agent.Exec.{ok}
use channel_agent.Model.{Detail}
use channel_agent.Prelude.{codes}
use channel_agent.Admin.Deletion.{decimal, decimal_on, digit, ◌&◌}
use channel_agent.Admin.Routing.{
  GivenRule, RoutingRule, MatchType, decimal_value, int_of, clean_rule, clean_match_value,
  rule_matches,
}

codes-append : (s t : String) → codes (s & t) ≡ codes s ++ codes t
codes-append String.[] t = rw nil-append refl
codes-append (String.◌∷◌ c s) t = rw (cons-append, codes-append s t) refl

decimal_value-append :
    (n c : ℕ) (cs : List ℕ) → decimal_value n (cs ++ c ∷ []) ≡ decimal_value n cs * 10 + (c - b'0')
decimal_value-append n c [] = refl
decimal_value-append n c (d ∷ cs) = decimal_value-append (n * 10 + (d - b'0')) c cs

codes-digit : (d : ℕ) → d < 10 → codes (digit d) ≡ (d + b'0') ∷ []
codes-digit zero h = refl
codes-digit (suc zero) h = refl
codes-digit (suc (suc zero)) h = refl
codes-digit (suc (suc (suc zero))) h = refl
codes-digit (suc (suc (suc (suc zero)))) h = refl
codes-digit (suc (suc (suc (suc (suc zero))))) h = refl
codes-digit (suc (suc (suc (suc (suc (suc zero)))))) h = refl
codes-digit (suc (suc (suc (suc (suc (suc (suc zero))))))) h = refl
codes-digit (suc (suc (suc (suc (suc (suc (suc (suc zero)))))))) h = refl
codes-digit (suc (suc (suc (suc (suc (suc (suc (suc (suc zero))))))))) h = refl
codes-digit (suc (suc (suc (suc (suc (suc (suc (suc (suc (suc n)))))))))) h =
    absurd (omega (arith, h))

decimal_value-decimal_on : (fuel n : ℕ) → n < fuel → decimal_value 0 (codes (decimal_on fuel n)) ≡ n
unfolding decimal_on
decimal_value-decimal_on zero n h = omega (arith, h)
decimal_value-decimal_on (suc fuel) n h = elim (Bool-cases (ltb n 10)) [
  | inl small ↦ rw (small, codes-digit n (ground arith)) (omega arith)
  | inr large ↦
      rw
        (
          large,
          codes-append,
          codes-digit (n % 10) (omega arith),
          decimal_value-append,
          decimal_value-decimal_on fuel (n / 10) (ground arith),
        )
        (omega arith)
]

-- `int(str(n))` is `n`.
int_of-decimal : (n : ℕ) → int_of (decimal n) ≡ n
unfolding int_of decimal
int_of-decimal n = decimal_value-decimal_on (suc n) n (omega arith)

cleaned_min_length :
    (given : GivenRule) (n : ℕ) (rule : RoutingRule)
    → given.match_type ≡ Detail.text "min_length"
    → given.match_value ≡ Detail.number n
    → clean_rule given ≡ ok rule
    → (rule.match_type ≡ MatchType.min_length) × (rule.match_value ≡ decimal n)
unfolding clean_rule clean_match_value
cleaned_min_length given n rule t v e = (ground arith, ground arith)

-- A rule on the length that was accepted matches exactly the messages of at least the length given.
pub clean_rule-rule_matches :
    (given : GivenRule) (n : ℕ) (rule : RoutingRule) (text : String)
    → given.match_type ≡ Detail.text "min_length"
    → given.match_value ≡ Detail.number n
    → clean_rule given ≡ ok rule
    → rule_matches rule text ≡ leb n (count text)
unfolding rule_matches
clean_rule-rule_matches given n rule text t v e =
    let (kind, value) = cleaned_min_length given n rule t v e in
    rw (kind, value, rule_matches, int_of-decimal n) refl
