-- ===== src/Config/EnvFile/Dict.antt =====
-- app/settings_rules.py: a name has the value of its last assignment.
use channel_agent.Prelude.{
  ◌≡◌, refl, Option, none, some, List, [], ◌∷◌, Codes, same_codes, same_codes_refl,
  eq_of_same_codes, arith, if◌then◌else◌,
}
use channel_agent.Config.EnvFile.{Values, insert, lookup, insert_assignment, values_of, assignment}

-- The value that one line gives a name.
abbrev pub value_if : Codes → Option (Codes × Codes) → Option Codes
value_if key none = none
value_if key (some (k, v)) = if same_codes k key then some v else none

abbrev pub or_else : Option Codes → Option Codes → Option Codes
or_else (some v) other = some v
or_else none other = other

-- The value that the last assignment gives a name.
unfoldable pub last_value : Codes → List Codes → Option Codes
last_value key [] = none
last_value key (l ∷ ls) = or_else (last_value key ls) (value_if key (assignment l))

pub lookup-insert :
    (key k v : Codes) (values : Values)
    → lookup key (insert k v values) ≡ (if same_codes k key then some v else lookup key values)
unfolding lookup insert
lookup-insert key k v [] = refl
lookup-insert key k v ((j, w) ∷ values) = ground (
  arith,
  lookup-insert key k v values,
  eq_of_same_codes j k,
  eq_of_same_codes k key,
  same_codes_refl k,
)

lookup-insert_assignment :
    (key : Codes) (a : Option (Codes × Codes)) (values : Values)
    → lookup key (insert_assignment a values) ≡ or_else (value_if key a) (lookup key values)
lookup-insert_assignment key none values = refl
lookup-insert_assignment key (some (k, v)) values = ground (arith, lookup-insert key k v values)

pub lookup-values_of :
    (key : Codes) (ls : List Codes) (values : Values)
    → lookup key (values_of ls values) ≡ or_else (last_value key ls) (lookup key values)
unfolding values_of last_value
lookup-values_of key [] values = refl
lookup-values_of key (l ∷ ls) values = ground (
  arith,
  lookup-values_of key ls (insert_assignment (assignment l) values),
  lookup-insert_assignment key (assignment l) values,
)
