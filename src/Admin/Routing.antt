-- ===== src/Admin/Routing.antt =====
-- app/admin/routing.py: which model answers a message of an agent that has none. The names of
-- `model_ctx_sizes` and the rules are JSON values; a rule's fields are given each as a value or
-- nothing.
pub mod First
use Prim.Native.Char.{Char, code}
use Prim.Native.String.{count}
use channel_agent.Prelude.{
  ℕ, zero, suc, ◌+◌, ◌*◌, ◌-◌, String, ◌&&◌, ◌||◌, not, Bool, true, false, Option, none, some, List,
  [], ◌∷◌, ◌++◌, length, any, map, strip, str_eq, ltb, leb, ◌==◌, if◌then◌else◌,
}
use channel_agent.Env.{Env}
use channel_agent.Exec.{Exec, Result, ok, err, invalid_input, pure, gets, modify, lift, ◌>>=◌, ◌>>◌}
use channel_agent.Model.{Database, Detail}
use channel_agent.Prelude.{codes, starts_with}
use channel_agent.Admin.Settings.{clean_model}
use channel_agent.Admin.Events.{record_admin_event}
use channel_agent.Admin.Deletion.{decimal}

pub data MatchType : Type 0 where
  min_length command_prefix : MatchType

-- A row of `routing_rules`, in the order of `position`.
pub record RoutingRule : Type 0 where
  pub match_type : MatchType
  pub match_value : String
  pub model : String

-- The row of `routing_config`, and the rules.
pub record Routing : Type 0 where
  pub default_model : Option String
  pub model_ctx_sizes : List (String × ℕ)
  pub rules : List RoutingRule

abbrev pub max_match_value_length : ℕ
max_match_value_length = 200

abbrev pub max_rules : ℕ
max_rules = 50

-- A rule as the request gives it, with a field that is missing as `null`; `extra` says whether it
-- has another field.
pub record GivenRule : Type 0 where
  pub match_type : Detail
  pub match_value : Detail
  pub model : Detail
  pub extra : Bool

unfoldable pub clean_match_value : MatchType → Detail → Result String
clean_match_value min_length (Detail.number n) =
    if ltb n 1 then err invalid_input else ok (decimal n)
clean_match_value min_length _ = err invalid_input
clean_match_value command_prefix (Detail.text s) =
    if str_eq (strip s) "" || ltb max_match_value_length (count s) then err invalid_input else ok s
clean_match_value command_prefix _ = err invalid_input

abbrev match_type_of : Detail → Result MatchType
match_type_of (Detail.text s) =
    if str_eq s "min_length"
    then ok min_length
    else if str_eq s "command_prefix"
    then ok command_prefix
    else err invalid_input
match_type_of _ = err invalid_input

infixl 5 ◌then◌
abbrev ◌then◌ : {A B : Type 0} → Result A → (A → Result B) → Result B
ok a then f = f a
err e then f = err e

-- `if model is None: raise`
abbrev required : {A : Type 0} → Option A → Result A
required none = err invalid_input
required (some a) = ok a

unfoldable pub clean_rule : GivenRule → Result RoutingRule
clean_rule given =
    if given.extra
    then err invalid_input
    else match_type_of given.match_type then λ match_type. clean_model given.model then λ cleaned.
        required cleaned then λ model.
        clean_match_value match_type given.match_value then λ match_value.
        ok (record { match_type = match_type; match_value = match_value; model = model })

clean_each : List GivenRule → Result (List RoutingRule)
clean_each [] = ok []
clean_each (g ∷ gs) = clean_rule g then λ rule. clean_each gs then λ rest. ok (rule ∷ rest)

unfoldable pub clean_rules : List GivenRule → Result (List RoutingRule)
unfolding clean_each
clean_rules rules = if ltb max_rules (length rules) then err invalid_input else clean_each rules

-- `cleaned[model] = size`
unfoldable pub set_size : String → ℕ → List (String × ℕ) → List (String × ℕ)
set_size name size [] = (name, size) ∷ []
set_size name size ((n, s) ∷ rest) =
    if str_eq n name then (n, size) ∷ rest else (n, s) ∷ set_size name size rest

abbrev size_of : Detail → Result ℕ
size_of (Detail.number n) = if ltb n 1 then err invalid_input else ok n
size_of _ = err invalid_input

clean_sizes : List (String × ℕ) → List (String × Detail) → Result (List (String × ℕ))
clean_sizes cleaned [] = ok cleaned
clean_sizes cleaned ((name, size) ∷ rest) = clean_model (Detail.text name) then λ model.
    required model then λ m. size_of size then λ s. clean_sizes (set_size m s cleaned) rest

unfoldable pub clean_model_ctx_sizes : List (String × Detail) → Result (List (String × ℕ))
unfolding clean_sizes
clean_model_ctx_sizes value = clean_sizes [] value

-- `int(text)` of a text of digits
abbrev decimal_value : ℕ → List ℕ → ℕ
decimal_value n [] = n
decimal_value n (c ∷ cs) = decimal_value (n * 10 + (c - b'0')) cs

unfoldable pub int_of : String → ℕ
int_of s = decimal_value 0 (codes s)

-- `_rule_matches`; a stored rule has one of the two types.
unfoldable pub rule_matches : RoutingRule → String → Bool
rule_matches rule text = elim rule.match_type [
  | min_length ↦ leb (int_of rule.match_value) (count text)
  | command_prefix ↦ starts_with (codes rule.match_value) (codes text)
]

unfoldable pub select_model : String → List RoutingRule → Option String → Option String
select_model text [] default_model = default_model
select_model text (rule ∷ rules) default_model =
    let rest = select_model text rules default_model in
    if rule_matches rule text then some rule.model else rest

-- A routing table beside the main database, `none` when nothing was ever set.
abbrev pub Configured : Type 0
Configured = Database × Option Routing

unfoldable pub get_routing : Exec Configured Routing
get_routing = gets (λ s. elim s.1 [
  | none ↦ record { default_model = none; model_ctx_sizes = []; rules = [] }
  | some r ↦ r
])

abbrev name_or_null : Option String → Detail
name_or_null none = Detail.null
name_or_null (some s) = Detail.text s

abbrev on_database : {A : Type 0} → Exec Database A → Exec Configured A
on_database m (db, r) = let (result, db') = m db in (result, (db', r))

-- `set_routing` replaces the whole table.
module _ ⦃env : Env⦄ where
  unfoldable pub set_routing :
      Detail → List GivenRule → List (String × Detail) → String → Exec Configured Routing
  set_routing default_model rules sizes actor = do
    cleaned_default ← lift (clean_model default_model)
    cleaned_rules ← lift (clean_rules rules)
    cleaned_sizes ← lift (clean_model_ctx_sizes sizes)
    let table : Routing = record {
      default_model = cleaned_default;
      model_ctx_sizes = cleaned_sizes;
      rules = cleaned_rules;
    }
    modify (λ s. (s.0, some table))
    on_database (
        record_admin_event actor "routing.set" "routing" none (
          ("default_model", name_or_null cleaned_default)
          ∷ ("rules", Detail.number (length cleaned_rules))
          ∷ ("model_ctx_sizes", Detail.numbers cleaned_sizes)
          ∷ []))
    get_routing
