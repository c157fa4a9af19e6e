-- ===== src/Api/Keys.antt =====
-- app/api/deps.py: the bearer key of the Admin API, and the limit on failed attempts for each source
-- address. Times are in milliseconds of the monotonic clock. A dict keeps the order of insertion.
pub mod Table
pub mod Guesses
use Prim.Native.Char.{Char, code}
use Prim.Native.String
use channel_agent.Prelude.{
  ℕ, ◌+◌, ◌-◌, suc, String, ◌&&◌, ◌||◌, not, Bool, true, false, Option, none, some, List, [], ◌∷◌,
  ◌++◌, length, str_eq, ltb, leb, if◌then◌else◌,
}
use channel_agent.Api.Scopes.{Principal, Scope, owner}

abbrev pub failure_limit : ℕ
failure_limit = 10

-- FAILURE_WINDOW_SECONDS
abbrev pub failure_window : ℕ
failure_window = 60000

abbrev pub max_tracked_addresses : ℕ
max_tracked_addresses = 1024

abbrev pub Failures : Type 0
Failures = List (String × List ℕ)

-- `_failures.get(address)`
unfoldable pub window_of : String → Failures → Option (List ℕ)
window_of a [] = none
window_of a ((b, w) ∷ f) = if str_eq b a then some w else window_of a f

-- `_failures[address] = window`
unfoldable pub set_window : String → List ℕ → Failures → Failures
set_window a w [] = (a, w) ∷ []
set_window a w ((b, v) ∷ f) = if str_eq b a then (b, w) ∷ f else (b, v) ∷ set_window a w f

-- `del _failures[address]`
unfoldable pub remove_window : String → Failures → Failures
remove_window a [] = []
remove_window a ((b, v) ∷ f) = if str_eq b a then f else (b, v) ∷ remove_window a f

-- `while window and now - window[0] > FAILURE_WINDOW_SECONDS: window.popleft()`
unfoldable pub prune : ℕ → List ℕ → List ℕ
prune now [] = []
prune now (t ∷ ts) =
    let rest = prune now ts in if ltb failure_window (now - t) then rest else t ∷ ts

abbrev pruned : String → List ℕ → Failures → List ℕ × Failures
pruned a [] f = ([], remove_window a f)
pruned a (t ∷ ts) f = (t ∷ ts, set_window a (t ∷ ts) f)

-- `_recent_failures`: the window, and the table, whose window is pruned in place.
unfoldable pub recent_failures : String → ℕ → Failures → List ℕ × Failures
recent_failures a now f = elim (window_of a f) [
  | none ↦ ([], f)
  | some w ↦ pruned a (prune now w) f
]

-- `while len(_failures) > MAX_TRACKED_ADDRESSES: del _failures[next(iter(_failures))]`
unfoldable pub evict : Failures → Failures
evict [] = []
evict (e ∷ f) =
    let rest = evict f in if ltb max_tracked_addresses (suc (length f)) then rest else e ∷ f

-- `_record_failure`
unfoldable pub record_failure : String → ℕ → Failures → Failures
record_failure a now f =
    let (window, f') = recent_failures a now f in evict (set_window a (window ++ now ∷ []) f')

abbrev is_ascii : String → Bool
is_ascii String.[] = true
is_ascii (String.◌∷◌ c s) = ltb (code c) 128 && is_ascii s

-- `secrets.compare_digest` of two `str`: it raises TypeError unless both are ASCII.
pub data Comparison : Type 0 where
  equal different not_comparable : Comparison

unfoldable pub compare_digest : String → String → Comparison
compare_digest s t =
    if is_ascii s && is_ascii t then (if str_eq s t then equal else different) else not_comparable

pub data Response : Type 0 where
  accepted : Principal → Response
  unavailable too_many unauthorized type_error : Response

abbrev expected : String → String
expected key = String.◌++◌ "Bearer " key

abbrev refused : String → ℕ → Failures → Response × Failures
refused address now f = (unauthorized, record_failure address now f)

-- The check of the header, once the address is not blocked.
unfoldable pub check_header :
    String → String → String → ℕ → Option String → Failures → Response × Failures
check_header key actor address now none f = refused address now f
check_header key actor address now (some authorization) f =
    elim (compare_digest authorization (expected key)) [
      | equal ↦ (accepted (record { actor = actor; scope = owner }), f)
      | different ↦ refused address now f
      | not_comparable ↦ (type_error, f)
    ]

-- `verify_api_key`: the configured key ("" if there is none), the actor that the header names, the
-- address, the time and the Authorization header.
unfoldable pub verify_api_key :
    String → String → String → ℕ → Option String → Failures → Response × Failures
verify_api_key key actor address now authorization f =
    if str_eq key ""
    then (unavailable, f)
    else let (window, f') = recent_failures address now f in
      if leb failure_limit (length window)
      then (too_many, f')
      else check_header key actor address now authorization f'
