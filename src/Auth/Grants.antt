-- ===== src/Auth/Grants.antt =====
-- app/security/auth.py: what granting and revoking change in the permissions held.
use channel_agent.Prelude.{
  if◌then◌else◌, ℕ, ◌≡◌, refl, Bool, true, false, ◌&&◌, ◌||◌, List, [], ◌∷◌, ◌++◌, any, select,
  delete, any-append, any_of_select, any_of_select_nil, select_holds, delete-none, arith, ◌==◌,
  ==-refl,
}
use channel_agent.Env.{Env}
use channel_agent.Exec.{ok}
use channel_agent.Model.{Database, ChannelIdentity, Permission, PermissionKind, same_kind}
use channel_agent.Auth.{is_grant, has_id, holds, grant_permission, revoke_permission}

-- The rows of a permission table have different ids.
abbrev pub HasDistinctIds : List Permission → Type 0
HasDistinctIds [] = Unit
HasDistinctIds (p ∷ ps) = (any (has_id p.id) ps ≡ false) × HasDistinctIds ps

-- Which permissions a table holds, after a row is added.
holds-append :
    (j : ℕ) (k : PermissionKind) (ps : List Permission) (p : Permission)
    → holds j k (ps ++ p ∷ []) ≡ (holds j k ps || is_grant j k p)
holds-append j k ps p = rw any-append (ground arith)

module _ ⦃env : Env⦄ (identity : ChannelIdentity) (kind : PermissionKind) (db : Database) where
  -- What is held after a grant: what was held, and the permission itself.
  abbrev pub GrantAdds : Permission → Database → Type 0
  GrantAdds p db' =
      (db'.users ≡ db.users)
      × (db'.identities ≡ db.identities)
      × ((j : ℕ) (k : PermissionKind)
          → holds j k db'.permissions
            ≡ (holds j k db.permissions || (identity.id == j && same_kind kind k)))

  grant_permission_rows :
      (rows : List Permission)
      → select (is_grant identity.id kind) db.permissions ≡ rows
      → (p : Permission) (db' : Database) → grant_permission identity kind db ≡ (ok p, db')
      → GrantAdds p db'
  unfolding grant_permission
  grant_permission_rows [] e p db' h =
      (ground arith, ground arith, λ j k. ground (arith, holds-append j k db.permissions p))
  grant_permission_rows (x ∷ []) e p db' h = (
    ground arith,
    ground arith,
    λ j k. ground (arith, any_of_select (is_grant identity.id kind) db.permissions x []),
  )
  grant_permission_rows (x ∷ y ∷ rows) e p db' h = ground arith

  -- After a grant that returned, an identity holds a permission exactly if it held it before or it
  -- is the one granted; users and identities are unchanged.
  pub grant_permission-holds :
      (p : Permission) (db' : Database)
      → grant_permission identity kind db ≡ (ok p, db')
      → GrantAdds p db'
  grant_permission-holds p db' h = grant_permission_rows _ refl p db' h

  -- Granting again what an identity holds in one row returns that row and changes nothing.
  pub grant_permission_idempotent :
      (p : Permission)
      → select (is_grant identity.id kind) db.permissions ≡ p ∷ []
      → grant_permission identity kind db ≡ (ok p, db)
  unfolding grant_permission
  grant_permission_idempotent p e = rw e refl

-- Deleting by id a row that is the only one with its identity and kind.
select_nil_any :
    (q r : Permission → Bool) (ps : List Permission)
    → select q ps ≡ []
    → any q (delete r ps) ≡ false
unfolding select delete
select_nil_any q r [] h = refl
select_nil_any q r (x ∷ xs) h = ground (arith, select_nil_any q r xs)

any-delete_only :
    (q : Permission → Bool) (p : Permission) (ps : List Permission)
    → select q ps ≡ p ∷ []
    → any q (delete (has_id p.id) ps) ≡ false
unfolding select delete
any-delete_only q p [] h = refl
any-delete_only q p (x ∷ xs) h =
    ground (arith, any-delete_only q p xs, select_nil_any q (has_id p.id) xs, ==-refl p.id)

any_id_of_select :
    (q : Permission → Bool) (p : Permission) (ps : List Permission)
    → select q ps ≡ p ∷ []
    → any (has_id p.id) ps ≡ true
unfolding select
any_id_of_select q p [] h = cc
any_id_of_select q p (x ∷ xs) h = ground (arith, any_id_of_select q p xs, ==-refl p.id)

any-delete_other :
    (q q' : Permission → Bool) (p : Permission) (ps : List Permission)
    → HasDistinctIds ps
    → select q ps ≡ p ∷ []
    → q' p ≡ false
    → any q' (delete (has_id p.id) ps) ≡ any q' ps
unfolding select delete
any-delete_other q q' p [] d h n = refl
any-delete_other q q' p (x ∷ xs) d h n = ground (
  arith,
  any-delete_other q q' p xs d.1,
  any_id_of_select q p xs,
  delete-none (has_id p.id) xs,
  ==-refl p.id,
)

module _ (identity : ChannelIdentity) (kind : PermissionKind) (db : Database) where
  abbrev pub RevokeRemoves : Bool → Database → Type 0
  RevokeRemoves found db' =
      (holds identity.id kind db.permissions ≡ found)
      × ((j : ℕ) (k : PermissionKind)
          → holds j k db'.permissions
            ≡ (if identity.id == j && same_kind kind k then false else holds j k db.permissions))

  revoke_permission_rows :
      (rows : List Permission)
      → select (is_grant identity.id kind) db.permissions ≡ rows
      → (found : Bool) (db' : Database) → HasDistinctIds db.permissions
      → revoke_permission identity kind db ≡ (ok found, db')
      → RevokeRemoves found db'
  unfolding revoke_permission
  revoke_permission_rows [] e found db' d h = (
    ground (arith, any_of_select_nil (is_grant identity.id kind) db.permissions e),
    λ j k. ground (arith, any_of_select_nil (is_grant identity.id kind) db.permissions e),
  )
  revoke_permission_rows (x ∷ []) e found db' d h = (
    ground (arith, any_of_select (is_grant identity.id kind) db.permissions x []),
    λ j k. ground (
      arith,
      any-delete_only (is_grant identity.id kind) x db.permissions,
      any-delete_other (is_grant identity.id kind) (is_grant j k) x db.permissions,
      select_holds (is_grant identity.id kind) db.permissions x [],
    ),
  )
  revoke_permission_rows (x ∷ y ∷ rows) e found db' d h = ground arith

  -- Where the rows have different ids, a revocation that returned says whether the permission was
  -- held, leaves it not held, and leaves every other permission as it was.
  pub revoke_permission-holds :
      (found : Bool) (db' : Database)
      → HasDistinctIds db.permissions
      → revoke_permission identity kind db ≡ (ok found, db')
      → RevokeRemoves found db'
  revoke_permission-holds found db' d h = revoke_permission_rows _ refl found db' d h
