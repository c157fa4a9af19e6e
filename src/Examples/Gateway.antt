-- ===== src/Examples/Gateway.antt =====
-- The bearer key and the scopes: somebody who guesses, and an application with two routes.
use channel_agent.Prelude.{
  ℕ, ◌≡◌, ◌≤◌, ◌↔◌, refl, true, String, Option, none, some, List, [], ◌∷◌, arith,
}
use channel_agent.Api.Keys.{failure_limit, compare_digest, window_of}
use channel_agent.Api.Keys.Guesses.{
  Guess, guesses, guesses_le, AreWrong, missing, differs, not_ascii,
}
use channel_agent.Api.Scopes.{Routes, nil, cons, api, included, read, owner, verify_scopes}
use channel_agent.Api.Scopes.Cover.{AreScoped, verify_scopes_iff}

abbrev at : ℕ → Option String → Guess
at now header = record { now = now; header = header }

abbrev sent : List Guess
sent =
    at 1 none
    ∷ at 2 (some "Bearer a")
    ∷ at 3 (some "Bearer b")
    ∷ at 4 (some "secret")
    ∷ at 5 none
    ∷ at 6 none
    ∷ at 7 none
    ∷ at 8 none
    ∷ at 9 none
    ∷ at 10 none
    ∷ at 11 (some "Bearer ä")
    ∷ at 12 none
    ∷ []

sent-AreWrong : AreWrong "secret" 0 sent
unfolding compare_digest
sent-AreWrong = (
  (omega arith, omega arith, missing),
  (
    (omega arith, omega arith, differs "Bearer a" refl),
    (
      (omega arith, omega arith, differs "Bearer b" refl),
      (
        (omega arith, omega arith, differs "secret" refl),
        (
          (omega arith, omega arith, missing),
          (
            (omega arith, omega arith, missing),
            (
              (omega arith, omega arith, missing),
              (
                (omega arith, omega arith, missing),
                (
                  (omega arith, omega arith, missing),
                  (
                    (omega arith, omega arith, missing),
                    (
                      (omega arith, omega arith, not_ascii "Bearer ä" refl),
                      ((omega arith, omega arith, missing), tt),
                    ),
                  ),
                ),
              ),
            ),
          ),
        ),
      ),
    ),
  ),
)

nobody : window_of "10.0.0.9" [] ≡ none
unfolding window_of
nobody = refl

guesses_le_example : guesses "secret" "api" "10.0.0.9" sent [] ≤ failure_limit
guesses_le_example =
    guesses_le "secret" "api" "10.0.0.9" refl 0 sent [] sent-AreWrong nobody (omega arith)

abbrev routes : Routes
routes = cons (api (read ∷ [])) (cons (included (cons (api (owner ∷ [])) nil)) nil)

verify_scopes_example : (verify_scopes routes ≡ true) ↔ AreScoped routes
verify_scopes_example = verify_scopes_iff routes
