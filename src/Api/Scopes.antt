-- ===== src/Api/Scopes.antt =====
-- app/api/scopes.py: the scope that each route needs. Every API route declares exactly one, or the
-- application does not start.
pub mod Cover
use channel_agent.Prelude.{
  ℕ, String, Bool, true, false, not, Option, none, some, List, [], ◌∷◌, ◌++◌, length, ltb, ◌==◌,
  if◌then◌else◌,
}

pub data Scope : Type 0 where
  read operate admin owner : Scope

-- The value of the member of the IntEnum.
abbrev pub level : Scope → ℕ
level read = 1
level operate = 2
level admin = 3
level owner = 4

pub record Principal : Type 0 where
  pub actor : String
  pub scope : Scope

pub data Access : Type 0 where
  granted unauthenticated forbidden : Access

-- `get_principal` and `_Requirement.__call__`
unfoldable pub check_scope : Scope → Option Principal → Access
check_scope needed none = unauthenticated
check_scope needed (some p) = if ltb (level p.scope) (level needed) then forbidden else granted

-- An API route with the scopes of its requirements, a route of another kind, or an included router.
mutual
  pub data Route : Type 0 where
    api : List Scope → Route
    other : Route
    included : Routes → Route

  pub data Routes : Type 0 where
    nil : Routes
    cons : Route → Routes → Routes

-- `_api_routes`: every route, looking inside included routers.
unfoldable mutual
  pub api_routes : Routes → List Route
  api_routes nil = []
  api_routes (cons r rs) = inner_routes r ++ api_routes rs

  pub inner_routes : Route → List Route
  inner_routes (api scopes) = api scopes ∷ []
  inner_routes other = other ∷ []
  inner_routes (included rs) = api_routes rs

-- Whether `verify_scopes` lists the route as missing.
abbrev is_missing : Route → Bool
is_missing (api scopes) = not (length scopes == 1)
is_missing other = true
is_missing (included rs) = true

unfoldable pub missing : List Route → List Route
missing [] = []
missing (r ∷ rs) = let rest = missing rs in if is_missing r then r ∷ rest else rest

-- `verify_scopes`: whether the application starts.
unfoldable pub verify_scopes : Routes → Bool
unfolding missing
verify_scopes rs = elim (missing (api_routes rs)) [ [] ↦ true | _ ∷ _ ↦ false ]
