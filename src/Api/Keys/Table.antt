-- ===== src/Api/Keys/Table.antt =====
-- app/api/deps.py: the table of failed attempts, which is bounded and finds what was set.
use channel_agent.Prelude.{
  ℕ, ◌+◌, ◌≤◌, String, ◌≡◌, refl, some, List, [], ◌∷◌, ◌++◌, length, All, str_eq, str_eq_iff, arith,
  if◌then◌else◌,
}
use channel_agent.Api.Keys.{
  Failures, max_tracked_addresses, failure_window, window_of, set_window, prune, evict,
  record_failure, recent_failures,
}

-- However many addresses fail, at most 1024 are tracked.
pub length-evict : (f : Failures) → length (evict f) ≤ max_tracked_addresses
unfolding evict
length-evict [] = omega arith
length-evict (e ∷ f) = ground (arith, length-evict f)

pub evict_of_le : (f : Failures) → length f ≤ max_tracked_addresses → evict f ≡ f
unfolding evict
evict_of_le [] h = refl
evict_of_le (e ∷ f) h = ground arith

pub window_of-set_window :
    (a b : String) (w : List ℕ) (f : Failures)
    → window_of b (set_window a w f) ≡ (if str_eq a b then some w else window_of b f)
unfolding window_of set_window
window_of-set_window a b w [] = refl
window_of-set_window a b w ((c, v) ∷ f) =
    ground (arith, str_eq_iff a b, str_eq_iff c a, str_eq_iff c b, window_of-set_window a b w f)

pub length-set_window_present :
    (a : String) (w v : List ℕ) (f : Failures)
    → window_of a f ≡ some v
    → length (set_window a w f) ≡ length f
unfolding window_of set_window
length-set_window_present a w v [] h = cc
length-set_window_present a w v ((c, u) ∷ f) h = ground (arith, length-set_window_present a w v f)

pub length-set_window_le :
    (a : String) (w : List ℕ) (f : Failures) → length (set_window a w f) ≤ length f + 1
unfolding set_window
length-set_window_le a w [] = omega arith
length-set_window_le a w ((c, u) ∷ f) = ground (arith, length-set_window_le a w f)

-- Failures within the window stay.
pub prune_of_All : (now : ℕ) (w : List ℕ) → All (λ t. now ≤ t + failure_window) w → prune now w ≡ w
unfolding prune
prune_of_All now [] h = refl
prune_of_All now (t ∷ ts) h = ground (arith, h.0)

-- `_record_failure` never leaves more than 1024 addresses.
pub length-record_failure :
    (a : String) (now : ℕ) (f : Failures) → length (record_failure a now f) ≤ max_tracked_addresses
unfolding record_failure
length-record_failure a now f =
    let (w, f') = recent_failures a now f in length-evict (set_window a (w ++ now ∷ []) f')
