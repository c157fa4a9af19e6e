-- ===== src/Mcp/Manager/Replace.antt =====
-- app/mcp/manager.py: a new configuration keeps the connections of the servers that did not change.
use mathlib.Core.Path.{subst}
use channel_agent.Prelude.{
  ◌≡◌, refl, ap, ◌∙◌, inl, inr, Bool, true, false, Option, none, some, List, [], ◌∷◌, ◌++◌, any,
  any-append, select, first, if◌then◌else◌, Codes, same_codes_refl, eq_of_same_codes, Bool-cases,
  arith,
}
use channel_agent.Mcp.Server.{ServerConfig, Managed, managed}
use channel_agent.Mcp.Manager.{
  same_config, has_name, is_config_of, set_config_of, wanted_from, wanted_one, is_kept, is_known,
  with_new, configure, get,
}

-- The last configuration of a name.
unfoldable pub last_config : Codes → List ServerConfig → Option ServerConfig
last_config name [] = none
last_config name (c ∷ cs) = elim (last_config name cs) [
  | some d ↦ some d
  | none ↦ if is_config_of name c then some c else none
]

abbrev or_first : Option ServerConfig → Option ServerConfig → Option ServerConfig
or_first (some d) other = some d
or_first none other = other

first-set :
    (name : Codes) (c : ServerConfig) (wanted : List ServerConfig)
    → first (is_config_of name) (set_config_of c wanted)
      ≡ (if is_config_of name c then some c else first (is_config_of name) wanted)
unfolding first
first-set name c [] = refl
first-set name c (d ∷ ds) = ground (
  arith,
  first-set name c ds,
  eq_of_same_codes d.name c.name,
  eq_of_same_codes c.name name,
  same_codes_refl c.name,
)

first-wanted :
    (name : Codes) (cs wanted : List ServerConfig)
    → first (is_config_of name) (wanted_from wanted cs)
      ≡ or_first (last_config name cs) (first (is_config_of name) wanted)
unfolding wanted_from last_config first
first-wanted name [] wanted = refl
first-wanted name (c ∷ cs) wanted =
    ground (arith, first-wanted name cs (set_config_of c wanted), first-set name c wanted)

-- The server that a configuration asks for: the present one, if it is the same, or a fresh one.
unfoldable pub replaced : Option ServerConfig → Option Managed → Option Managed
replaced none present = none
replaced (some c) none = some (managed c)
replaced (some c) (some m) = if same_config m.config c then some m else some (managed c)

-- The names of the servers are different.
abbrev pub HasDistinctNames : List Managed → Type 0
HasDistinctNames [] = Unit {0}
HasDistinctNames (m ∷ ms) = (any (has_name m.config.name) ms ≡ false) × HasDistinctNames ms

abbrev keep_if : (Managed → Bool) → Option Managed → Option Managed
keep_if p none = none
keep_if p (some m) = if p m then some m else none

get-absent :
    (p : Managed → Bool) (name : Codes) (ms : List Managed)
    → any (has_name name) ms ≡ false
    → get name (select p ms) ≡ none
unfolding get first select
get-absent p name [] h = refl
get-absent p name (m ∷ ms) h = ground (arith, get-absent p name ms)

get-select :
    (p : Managed → Bool) (name : Codes) (ms : List Managed)
    → HasDistinctNames ms
    → get name (select p ms) ≡ keep_if p (get name ms)
unfolding get first select
get-select p name [] h = refl
get-select p name (m ∷ ms) h = elim (Bool-cases (has_name name m)) [
  | inl here ↦ rw here (
      ground (
        arith,
        here,
        get-absent p name ms (
            subst (λ (n : Codes). any (has_name n) ms ≡ false)
              (eq_of_same_codes m.config.name name here) h.0),
      ))
  | inr other ↦ rw other (ground (arith, other, get-select p name ms h.1))
]

abbrev or_new : Option Managed → Option ServerConfig → Option Managed
or_new (some m) c = some m
or_new none none = none
or_new none (some c) = some (managed c)

get-append :
    (name : Codes) (ms : List Managed) (m : Managed)
    → get name (ms ++ m ∷ [])
      ≡ (elim (get name ms) [ some n ↦ some n | none ↦ if has_name name m then some m else none ])
unfolding get first
get-append name [] m = refl
get-append name (n ∷ ms) m = ground (arith, get-append name ms m)

known_lem :
    (name : Codes) (ms : List Managed)
    → any (has_name name) ms ≡ (elim (get name ms) [ some m ↦ true | none ↦ false ])
unfolding get first
known_lem name [] = refl
known_lem name (m ∷ ms) = ground (arith, known_lem name ms)

get-grown :
    (name : Codes) (c : ServerConfig) (ms : List Managed) (cs : List ServerConfig)
    → or_new
        (get name (if is_known ms c then ms else ms ++ managed c ∷ []))
        (first (is_config_of name) cs)
      ≡ or_new (get name ms) (first (is_config_of name) (c ∷ cs))
unfolding first managed
get-grown name c ms cs = ground (
  arith,
  known_lem c.name ms,
  known_lem name ms,
  eq_of_same_codes c.name name,
  get-append name ms (managed c),
)

get-with_new :
    (name : Codes) (cs : List ServerConfig) (ms : List Managed)
    → get name (with_new cs ms) ≡ or_new (get name ms) (first (is_config_of name) cs)
unfolding with_new first
get-with_new name [] ms = ground (arith)
get-with_new name (c ∷ cs) ms =
    get-with_new name cs (if is_known ms c then ms else ms ++ managed c ∷ [])
    ∙ get-grown name c ms cs

get-name :
    (name : Codes) (ms : List Managed) (m : Managed) → get name ms ≡ some m → m.config.name ≡ name
unfolding get first
get-name name [] m h = cc
get-name name (n ∷ ms) m h = elim (Bool-cases (has_name name n)) [
  | inl here ↦ ground (arith, h, here, eq_of_same_codes n.config.name name here)
  | inr other ↦ get-name name ms m (ground (arith, h, other))
]

merge_lem :
    (name : Codes) (wanted : List ServerConfig) (present : Option Managed)
    → ((m : Managed) → present ≡ some m → m.config.name ≡ name)
    → or_new (keep_if (is_kept wanted) present) (first (is_config_of name) wanted)
      ≡ replaced (first (is_config_of name) wanted) present
unfolding replaced
merge_lem name wanted none h = ground arith
merge_lem name wanted (some m) h =
    subst
      (λ (n : Codes).
        or_new (if wanted_one (first (is_config_of m.config.name) wanted) m then some m else none)
          (first (is_config_of n) wanted)
        ≡ replaced (first (is_config_of n) wanted) (some m))
      (h m refl) (cases (first (is_config_of m.config.name) wanted))
  where
    cases :
        (w : Option ServerConfig)
        → or_new (if wanted_one w m then some m else none) w ≡ replaced w (some m)
    cases none = refl
    cases (some c) = ground arith

-- After a new configuration, a name has the server that its last configuration asks for.
pub get-configure :
    (name : Codes) (configs : List ServerConfig) (servers : List Managed)
    → HasDistinctNames servers
    → get name (configure configs servers).0
      ≡ replaced (last_config name configs) (get name servers)
unfolding configure
get-configure name configs servers h =
    get-with_new name wanted (select (is_kept wanted) servers)
    ∙ ap (λ o. or_new o (first (is_config_of name) wanted))
        (get-select (is_kept wanted) name servers h)
    ∙ merge_lem name wanted (get name servers) (get-name name servers)
    ∙ ap (λ o. replaced o (get name servers))
        (first-wanted name configs [] ∙ last_only (last_config name configs))
  where
    wanted : List ServerConfig
    wanted = wanted_from [] configs

    last_only : (o : Option ServerConfig) → or_first o (first (is_config_of name) []) ≡ o
    last_only none = unfold first in refl
    last_only (some c) = refl

absent-select :
    (p : Managed → Bool) (name : Codes) (ms : List Managed)
    → any (has_name name) ms ≡ false
    → any (has_name name) (select p ms) ≡ false
unfolding select
absent-select p name [] h = refl
absent-select p name (m ∷ ms) h = ground (arith, absent-select p name ms)

HasDistinctNames-select :
    (p : Managed → Bool) (ms : List Managed) → HasDistinctNames ms → HasDistinctNames (select p ms)
unfolding select
HasDistinctNames-select p [] h = tt
HasDistinctNames-select p (m ∷ ms) h = elim (Bool-cases (p m)) [
  | inl kept ↦ rw kept (absent-select p m.config.name ms h.0, HasDistinctNames-select p ms h.1)
  | inr dropped ↦ rw dropped (HasDistinctNames-select p ms h.1)
]

HasDistinctNames-append :
    (c : ServerConfig) (ms : List Managed)
    → is_known ms c ≡ false
    → HasDistinctNames ms
    → HasDistinctNames (ms ++ managed c ∷ [])
unfolding managed
HasDistinctNames-append c [] k h = (refl, tt)
HasDistinctNames-append c (m ∷ ms) k h = (
  ground (
    arith,
    h.0,
    k,
    any-append (has_name m.config.name) ms (managed c ∷ []),
    eq_of_same_codes c.name m.config.name,
    same_codes_refl m.config.name,
  ),
  HasDistinctNames-append c ms (ground (arith, k)) h.1,
)

HasDistinctNames-with_new :
    (cs : List ServerConfig) (ms : List Managed)
    → HasDistinctNames ms
    → HasDistinctNames (with_new cs ms)
unfolding with_new
HasDistinctNames-with_new [] ms h = h
HasDistinctNames-with_new (c ∷ cs) ms h = elim (Bool-cases (is_known ms c)) [
  | inl known ↦ rw known (HasDistinctNames-with_new cs ms h)
  | inr new ↦
      rw new
        (HasDistinctNames-with_new cs (ms ++ managed c ∷ []) (HasDistinctNames-append c ms new h))
]

pub HasDistinctNames-configure :
    (configs : List ServerConfig) (servers : List Managed)
    → HasDistinctNames servers
    → HasDistinctNames (configure configs servers).0
unfolding configure
HasDistinctNames-configure configs servers h =
    HasDistinctNames-with_new (wanted_from [] configs) _
      (HasDistinctNames-select (is_kept (wanted_from [] configs)) servers h)
