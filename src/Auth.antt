-- ===== src/Auth.antt =====
-- app/security/hashing.py and app/security/auth.py: the keys under which identities are stored, and
-- the decision that every message passes.
pub mod Decision
pub mod Grants
use channel_agent.Prelude.{
  ℕ, String, Bool, true, false, ◌&&◌, ◌||◌, not, Option, none, some, List, [], ◌∷◌, ◌++◌, map, any,
  select, first, delete, strip, str_eq, ◌==◌, if◌then◌else◌,
}
use channel_agent.Env.{Env}
use channel_agent.Exec.{
  Exec, ok, err, missing_row, pure, gets, lift, modify, one_or_none, or_raise, ◌>>=◌, ◌>>◌,
}
use channel_agent.Model.{
  Database, Channel, email, User, ChannelIdentity, Permission, PermissionKind, chat, admin,
  same_channel, same_kind,
}

pub record AuthDecision : Type 0 where
  pub allowed : Bool
  pub user : Option User
  pub is_admin : Bool
  pub identity : Option ChannelIdentity

-- ChannelIdentity.channel == channel, ChannelIdentity.external_id == key
abbrev pub has_key : Channel → String → ChannelIdentity → Bool
has_key channel key i = same_channel i.channel channel && str_eq i.external_id key

abbrev pub has_user_id : ℕ → User → Bool
has_user_id id u = u.id == id

-- Permission.channel_identity_id == id
abbrev pub of_identity : ℕ → Permission → Bool
of_identity id p = p.channel_identity_id == id

abbrev pub is_grant : ℕ → PermissionKind → Permission → Bool
is_grant id kind p = p.channel_identity_id == id && same_kind p.kind kind

abbrev pub has_id : ℕ → Permission → Bool
has_id id p = p.id == id

-- `kind in {p.kind for p in identity.permissions}`
abbrev pub holds : ℕ → PermissionKind → List Permission → Bool
holds id kind ps = any (is_grant id kind) ps

abbrev pub no_decision : AuthDecision
no_decision = record { allowed = false; user = none; is_admin = false; identity = none }

abbrev decide_for : ChannelIdentity → User → List Permission → AuthDecision
decide_for identity user permissions = if not user.is_active then no_decision else record {
  allowed = holds identity.id chat permissions || holds identity.id admin permissions;
  user = some user;
  is_admin = holds identity.id admin permissions;
  identity = some identity;
}

-- What `authorize` does with the row that it found.
abbrev decide : Option ChannelIdentity → Exec Database AuthDecision
decide none = pure no_decision
decide (some identity) = do
  rows ← gets (λ db. first (has_user_id identity.user_id) db.users)
  user ← or_raise rows missing_row
  gets (λ db. decide_for identity user db.permissions)

module _ ⦃env : Env⦄ where
  unfoldable pub hash_email : String → String
  hash_email address = env.sha256_hex (env.lower (strip address))

  unfoldable pub channel_identifier_key : Channel → String → String
  channel_identifier_key email raw_id = hash_email raw_id
  channel_identifier_key _ raw_id = raw_id

  unfoldable pub authorize : Channel → String → Exec Database AuthDecision
  authorize channel user_id = do
    let key = channel_identifier_key channel user_id
    rows ← gets (λ db. select (has_key channel key) db.identities)
    identity ← lift (one_or_none rows)
    decide identity

  abbrev grant_missing :
      ChannelIdentity → PermissionKind → Option Permission → Exec Database Permission
  grant_missing identity kind (some existing) = pure existing
  grant_missing identity kind none = do
    id ← gets (λ db. env.new_id (map (λ p. p.id) db.permissions))
    let permission : Permission = record { id = id; channel_identity_id = identity.id; kind = kind }
    modify (λ db. record db { permissions = db.permissions ++ permission ∷ [] })
    pure permission

  unfoldable pub grant_permission : ChannelIdentity → PermissionKind → Exec Database Permission
  grant_permission identity kind = do
    rows ← gets (λ db. select (is_grant identity.id kind) db.permissions)
    existing ← lift (one_or_none rows)
    grant_missing identity kind existing

abbrev revoke_existing : Option Permission → Exec Database Bool
revoke_existing none = pure false
revoke_existing (some p) = do
  modify (λ db. record db { permissions = delete (has_id p.id) db.permissions })
  pure true

unfoldable pub revoke_permission : ChannelIdentity → PermissionKind → Exec Database Bool
revoke_permission identity kind = do
  rows ← gets (λ db. select (is_grant identity.id kind) db.permissions)
  existing ← lift (one_or_none rows)
  revoke_existing existing
