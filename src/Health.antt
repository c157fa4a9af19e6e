-- ===== src/Health.antt =====
-- app/health.py: whether the application beats. Times are milliseconds of a clock that does not go
-- back; the file is the time at which it was touched.
use channel_agent.Prelude.{
  ℕ, ◌≡◌, refl, ◌+◌, ◌-◌, ◌*◌, ◌≤◌, not, Bool, true, false, Option, none, some, List, [], ◌∷◌, any,
  map, select, delete, update, ltb, leb, String, str_eq, if◌then◌else◌, arith,
}

-- An entry of `_components`: its largest age, and its last success.
pub record Expected : Type 0 where
  pub name : String
  pub max_age : ℕ
  pub last_success : ℕ

abbrev pub is_named : String → Expected → Bool
is_named name c = str_eq name c.name

abbrev interval : ℕ
interval = 15 * 1000

abbrev max_age_of_file : ℕ
max_age_of_file = 60 * 1000

-- `register`: the entry of a name is replaced.
unfoldable pub register : String → ℕ → ℕ → List Expected → List Expected
unfolding delete
register name max_age now components =
    record { name = name; max_age = max_age; last_success = now }
    ∷ delete (is_named name) components

unfoldable pub unregister : String → List Expected → List Expected
unfolding delete
unregister name components = delete (is_named name) components

unfoldable pub mark : String → ℕ → List Expected → List Expected
unfolding update
mark name now components = update (is_named name) (λ c. record c { last_success = now }) components

abbrev pub is_stale : ℕ → Expected → Bool
is_stale now c = ltb c.max_age (now - c.last_success)

-- `stale_components`, without their order
unfoldable pub stale_components : ℕ → List Expected → List String
unfolding select
stale_components now components = map (λ c. c.name) (select (is_stale now) components)

-- `snapshot`, without its order: the name, the age and whether it is within the limit
unfoldable pub snapshot : ℕ → List Expected → List (String × ℕ × Bool)
snapshot now components =
    map (λ c. (c.name, now - c.last_success, leb (now - c.last_success) c.max_age)) components

abbrev is_empty : List String → Bool
is_empty [] = true
is_empty (name ∷ names) = false

-- No component at all, or one that has not ended.
abbrev beats : List Bool → Bool
beats [] = true
beats (t ∷ ts) = any not (t ∷ ts)

beats_when_running : (tasks : List Bool) → any not tasks ≡ true → beats tasks ≡ true
beats_when_running [] h = refl
beats_when_running (t ∷ ts) h = h

-- One round of `heartbeat`: `none` when it ends, else the file. The tasks say whether they are done.
unfoldable pub beat_round : List Bool → ℕ → List Expected → Option ℕ → Option (Option ℕ)
unfolding stale_components
beat_round tasks now components file =
    if not (beats tasks)
    then none
    else if is_empty (stale_components now components)
    then some (some now)
    else some file

-- `check`
unfoldable pub check : ℕ → Option ℕ → Bool
check now none = false
check now (some touched) = not (ltb max_age_of_file (now - touched))

-- While nothing is stale and something runs, a round keeps the check content for a minute.
beat_round-check :
    (tasks : List Bool) (now later : ℕ) (components : List Expected) (file : Option ℕ)
    → any not tasks ≡ true
    → stale_components now components ≡ []
    → later ≤ now + max_age_of_file
    → (beat_round tasks now components file ≡ some (some now)) × (check later (some now) ≡ true)
unfolding beat_round check
beat_round-check tasks now later components file runs fresh soon =
    (rw (fresh, beats_when_running tasks runs) refl, ground (arith, soon))
