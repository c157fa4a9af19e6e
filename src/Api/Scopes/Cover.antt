-- ===== src/Api/Scopes/Cover.antt =====
-- app/api/scopes.py: an application that starts has no route without a scope, and a route is granted
-- by level.
use channel_agent.Prelude.{
  ◌≡◌, ◌↔◌, ◌∙◌, sym, refl, true, false, List, [], ◌∷◌, ◌++◌, length, arith,
}
use channel_agent.Api.Scopes.{
  Route, Routes, api, other, included, nil, cons, api_routes, inner_routes, missing, verify_scopes,
}

-- Every route in the tree is an API route with exactly one scope.
mutual
  pub AreScoped : Routes → Type 0
  AreScoped nil = Unit {0}
  AreScoped (cons r rs) = IsScoped r × AreScoped rs

  pub IsScoped : Route → Type 0
  IsScoped (api scopes) = length scopes ≡ 1
  IsScoped other = false ≡ true
  IsScoped (included rs) = AreScoped rs

missing-append : (xs ys : List Route) → missing (xs ++ ys) ≡ missing xs ++ missing ys
unfolding missing
missing-append [] ys = refl
missing-append (x ∷ xs) ys = ground (arith, missing-append xs ys)

append-nil_both : (xs ys : List Route) → (xs ++ ys ≡ []) ↔ ((xs ≡ []) × (ys ≡ []))
append-nil_both [] ys = (λ h. (refl, h), λ h. h.1)
append-nil_both (x ∷ xs) ys = ground arith

mutual
  unfolding api_routes missing AreScoped

  AreScoped-of_none : (rs : Routes) → missing (api_routes rs) ≡ [] → AreScoped rs
  AreScoped-of_none nil h = tt
  AreScoped-of_none (cons r rs) h =
      let (a, b) =
        (append-nil_both (missing (inner_routes r)) (missing (api_routes rs))).0
          (sym (missing-append (inner_routes r) (api_routes rs)) ∙ h) in
      (IsScoped-route r a, AreScoped-of_none rs b)

  IsScoped-route : (r : Route) → missing (inner_routes r) ≡ [] → IsScoped r
  IsScoped-route (api scopes) h = ground arith
  IsScoped-route other h = ground arith
  IsScoped-route (included rs) h = AreScoped-of_none rs h

mutual
  unfolding api_routes missing AreScoped

  none_of_scoped : (rs : Routes) → AreScoped rs → missing (api_routes rs) ≡ []
  none_of_scoped nil h = refl
  none_of_scoped (cons r rs) h =
      rw (missing-append, none_of_route r h.0, none_of_scoped rs h.1) refl

  none_of_route : (r : Route) → IsScoped r → missing (inner_routes r) ≡ []
  none_of_route (api scopes) h = ground arith
  none_of_route other h = ground arith
  none_of_route (included rs) h = none_of_scoped rs h

-- The application starts exactly if every route, inside included routers too, is an API route that
-- declares exactly one scope.
pub verify_scopes_iff : (rs : Routes) → (verify_scopes rs ≡ true) ↔ AreScoped rs
unfolding verify_scopes
verify_scopes_iff rs =
    (λ h. AreScoped-of_none rs (ground arith), λ h. rw (none_of_scoped rs h, verify_scopes) refl)
