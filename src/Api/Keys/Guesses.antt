-- ===== src/Api/Keys/Guesses.antt =====
-- app/api/deps.py: how many guesses of the key one address can make.
use channel_agent.Prelude.{
  ℕ, ◌+◌, ◌≤◌, ◌<◌, String, ◌≡◌, refl, false, Option, none, some, List, [], ◌∷◌, ◌++◌, length, All,
  All-append, length-append, str_eq, str_eq_refl, ◌⊎◌, arith, ltb, Bool-cases, inl, inr,
}
use channel_agent.Api.Keys.{
  Failures, Response, unauthorized, too_many, type_error, not_comparable, max_tracked_addresses,
  failure_window, failure_limit, window_of, set_window, record_failure, recent_failures,
  compare_digest, different, expected, check_header, verify_api_key,
}
use channel_agent.Api.Keys.Table.{
  evict_of_le, window_of-set_window, length-set_window_present, length-set_window_le, prune_of_All,
}

-- A header that is not the right key: missing, another ASCII text, or one that is not ASCII, which the
-- comparison raises a TypeError for.
pub data IsWrong (key : String) : Option String → Type 0 where
  missing : IsWrong key none
  differs : (s : String) → compare_digest s (expected key) ≡ different → IsWrong key (some s)
  not_ascii : (s : String) → compare_digest s (expected key) ≡ not_comparable → IsWrong key (some s)

check_wrong :
    {key : String} {header : Option String} (actor address : String) (now : ℕ) (f : Failures)
    → IsWrong key header
    → (check_header key actor address now header f ≡ (unauthorized, record_failure address now f))
      ⊎ (check_header key actor address now header f ≡ (type_error, f))
unfolding check_header
check_wrong actor address now f missing = inl refl
check_wrong {key} actor address now f (differs s h) = inl (rw (h, check_header) refl)
check_wrong {key} actor address now f (not_ascii s h) = inr (rw (h, check_header) refl)

recent_failures_fresh :
    (a : String) (now : ℕ) (f : Failures) → window_of a f ≡ none → recent_failures a now f ≡ ([], f)
unfolding recent_failures
recent_failures_fresh a now f fresh = rw (fresh, recent_failures) refl

-- Requests from one address, each with its time and its header, and how many were compared with the
-- key.
pub record Guess : Type 0 where
  pub now : ℕ
  pub header : Option String

abbrev is_guess : Response → ℕ
is_guess unauthorized = 1
is_guess _ = 0

unfoldable pub guesses : String → String → String → List Guess → Failures → ℕ
guesses key actor address [] f = 0
guesses key actor address (g ∷ gs) f =
    let (r, f') = verify_api_key key actor address g.now g.header f in
    is_guess r + guesses key actor address gs f'

-- Requests in the window that starts then, none with the right key.
abbrev pub AreWrong : String → ℕ → List Guess → Type 0
AreWrong key start gs =
    All (λ g. (start ≤ g.now) × (g.now ≤ start + failure_window) × IsWrong key g.header) gs

module _ (key actor address : String) (configured : str_eq key "" ≡ false) (start : ℕ) where
  -- The address has failed at the times of `w`, none before `start`.
  record IsTracked (w : List ℕ) (f : Failures) : Type 0 where
    window : window_of address f ≡ some w
    recent : All (λ t. start ≤ t) w
    size : length f ≤ max_tracked_addresses

  recent_of_tracked :
      (now : ℕ) (w : List ℕ)
      → now ≤ start + failure_window
      → All (λ t. start ≤ t) w
      → All (λ t. now ≤ t + failure_window) w
  recent_of_tracked now [] h r = tt
  recent_of_tracked now (t ∷ ts) h r = (omega arith, recent_of_tracked now ts h r.1)

  recent_failures_tracked :
      (now t : ℕ) (ts : List ℕ) (f : Failures)
      → now ≤ start + failure_window
      → IsTracked (t ∷ ts) f
      → recent_failures address now f ≡ (t ∷ ts, set_window address (t ∷ ts) f)
  unfolding recent_failures
  recent_failures_tracked now t ts f h k =
      rw (k.window, recent_failures)
        (rw (prune_of_All now (t ∷ ts) (recent_of_tracked now (t ∷ ts) h k.recent)) refl)

  IsTracked-set :
      (w v : List ℕ) (f : Failures)
      → IsTracked w f
      → All (λ t. start ≤ t) v
      → IsTracked v (set_window address v f)
  IsTracked-set w v f k r = record {
    window = ground (arith, window_of-set_window address address v f, str_eq_refl address);
    recent = r;
    size = ground (arith, length-set_window_present address v w f k.window, k.size);
  }

  -- A tracked address that has ten failures is blocked; otherwise the guess is one more.
  step_blocked :
      (header : Option String) (now t : ℕ) (ts : List ℕ) (f : Failures)
      → now ≤ start + failure_window
      → IsTracked (t ∷ ts) f
      → failure_limit ≤ length (t ∷ ts)
      → verify_api_key key actor address now header f ≡ (too_many, set_window address (t ∷ ts) f)
  unfolding verify_api_key
  step_blocked header now t ts f h k full =
      rw (configured, recent_failures_tracked now t ts f h k, verify_api_key) (ground arith)

  step_guess :
      (header : Option String) (now t : ℕ) (ts : List ℕ) (f : Failures)
      → now ≤ start + failure_window
      → IsTracked (t ∷ ts) f
      → length (t ∷ ts) < failure_limit
      → verify_api_key key actor address now header f
        ≡ check_header key actor address now header (set_window address (t ∷ ts) f)
  unfolding verify_api_key
  step_guess header now t ts f h k room =
      rw (configured, recent_failures_tracked now t ts f h k, verify_api_key) (ground arith)

  record_failure-IsTracked :
      (now t : ℕ) (ts : List ℕ) (f : Failures)
      → now ≤ start + failure_window
      → start ≤ now
      → IsTracked (t ∷ ts) f
      → IsTracked (t ∷ ts ++ now ∷ []) (record_failure address now f)
  unfolding record_failure
  record_failure-IsTracked now t ts f h l k =
      let w : List ℕ = t ∷ ts in
      let k' = IsTracked-set w w f k k.recent in
      let done =
        IsTracked-set w (w ++ now ∷ []) (set_window address w f) k'
          (All-append (λ x. start ≤ x) w (now ∷ []) k.recent (l, tt)) in
      rw (recent_failures_tracked now t ts f h k, record_failure)
        (rw (evict_of_le (set_window address (w ++ now ∷ []) (set_window address w f)) done.size)
          done)

  guesses_tracked :
      (gs : List Guess) (t : ℕ) (ts : List ℕ) (f : Failures)
      → AreWrong key start gs
      → IsTracked (t ∷ ts) f
      → length (t ∷ ts) ≤ failure_limit
      → guesses key actor address gs f + length (t ∷ ts) ≤ failure_limit
  unfolding guesses
  guesses_tracked [] t ts f h k room = omega (arith, room)
  guesses_tracked (g ∷ gs) t ts f h k room =
      let f' = set_window address (t ∷ ts) f in
      let k' = IsTracked-set (t ∷ ts) (t ∷ ts) f k k.recent in
      elim (Bool-cases (ltb (length (t ∷ ts)) failure_limit)) [
        | inl less ↦ elim (check_wrong actor address g.now f' h.0.2) [
          | inl compared ↦
              rw (step_guess g.header g.now t ts f h.0.1 k (ground arith), compared, guesses)
                (ground (
                  arith,
                  guesses_tracked gs t (ts ++ g.now ∷ []) (record_failure address g.now f') h.1
                      (record_failure-IsTracked g.now t ts f' h.0.1 h.0.0 k'),
                  length-append ts (g.now ∷ []),
                ))
          | inr failed ↦
              rw (step_guess g.header g.now t ts f h.0.1 k (ground arith), failed, guesses)
                (omega (arith, guesses_tracked gs t ts f' h.1 k' room))
        ]
        | inr full ↦
            rw (step_blocked g.header g.now t ts f h.0.1 k (ground arith), guesses)
              (omega (arith, guesses_tracked gs t ts f' h.1 k' room))
      ]

  first_failure :
      (now : ℕ) (f : Failures)
      → start ≤ now
      → window_of address f ≡ none
      → length f < max_tracked_addresses
      → IsTracked (now ∷ []) (record_failure address now f)
  unfolding record_failure
  first_failure now f l fresh size =
      let f' = set_window address (now ∷ []) f in
      let le : length f' ≤ max_tracked_addresses =
        ground (arith, length-set_window_le address (now ∷ []) f) in
      rw (recent_failures_fresh address now f fresh, record_failure)
        (rw (evict_of_le f' le) (record {
          window =
              ground
                (arith, window_of-set_window address address (now ∷ []) f, str_eq_refl address);
          recent = (l, tt);
          size = le;
        }))

  step_first :
      (header : Option String) (now : ℕ) (f : Failures)
      → window_of address f ≡ none
      → verify_api_key key actor address now header f ≡ check_header key actor address now header f
  unfolding verify_api_key
  step_first header now f fresh =
      rw (configured, recent_failures_fresh address now f fresh, verify_api_key) (ground arith)

  -- A key is configured. An address that the table does not hold, while fewer than 1024 are
  -- tracked, sends requests, none with the right key and each with a header of its own, within
  -- sixty seconds, and no other address sends one in between: at most ten of them are compared
  -- with the key and answered 401, however many it sends.
  pub guesses_le :
      (gs : List Guess) (f : Failures)
      → AreWrong key start gs
      → window_of address f ≡ none
      → length f < max_tracked_addresses
      → guesses key actor address gs f ≤ failure_limit
  unfolding guesses
  guesses_le [] f h fresh size = omega arith
  guesses_le (g ∷ gs) f h fresh size = elim (check_wrong actor address g.now f h.0.2) [
    | inl compared ↦
        rw (step_first g.header g.now f fresh, compared, guesses)
          (ground (
            arith,
            guesses_tracked gs g.now [] (record_failure address g.now f) h.1
                (first_failure g.now f h.0.0 fresh size),
          ))
    | inr failed ↦
        rw (step_first g.header g.now f fresh, failed, guesses)
          (omega (arith, guesses_le gs f h.1 fresh size))
  ]
