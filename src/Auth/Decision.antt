-- ===== src/Auth/Decision.antt =====
-- app/security/auth.py: when `authorize` allows.
use channel_agent.Prelude.{
  String, ◌≡◌, refl, true, ◌↔◌, ◌⊎◌, inl, inr, some, List, [], ◌∷◌, select, first, arith,
  Option-cases,
}
use channel_agent.Env.{Env}
use channel_agent.Exec.{ok}
use channel_agent.Model.{Database, Channel, User, ChannelIdentity, chat, admin}
use channel_agent.Auth.{
  AuthDecision, has_key, has_user_id, holds, decide_for, channel_identifier_key, authorize,
}

-- The identity with this key is linked to an active user, and holds CHAT or ADMIN.
pub record IsAuthorized (db : Database) (channel : Channel) (key : String) : Type 0 where
  pub identity : ChannelIdentity
  pub user : User
  pub found : select (has_key channel key) db.identities ≡ identity ∷ []
  pub owner : first (has_user_id identity.user_id) db.users ≡ some user
  pub active : user.is_active ≡ true
  pub held :
      (holds identity.id chat db.permissions ≡ true)
      ⊎ (holds identity.id admin db.permissions ≡ true)

module _ ⦃env : Env⦄ (channel : Channel) (user_id : String) (db : Database) where
  -- An authorized sender is allowed.
  pub authorize_allows :
      (a : IsAuthorized db channel (channel_identifier_key channel user_id))
      → (d : AuthDecision) × (authorize channel user_id db ≡ (ok d, db))
        × (d.allowed ≡ true)
        × (d.user ≡ some a.user)
        × (d.identity ≡ some a.identity)
  unfolding authorize
  authorize_allows a = (
    decide_for a.identity a.user db.permissions,
    rw (a.found, a.owner),
    ground (arith, a.active, a.held),
    ground (arith, a.active),
    ground (arith, a.active),
  )

  allowed-IsAuthorized_rows :
      (rows : List ChannelIdentity)
      → select (has_key channel (channel_identifier_key channel user_id)) db.identities ≡ rows
      → (d : AuthDecision) (db' : Database) → authorize channel user_id db ≡ (ok d, db')
      → d.allowed ≡ true
      → IsAuthorized db channel (channel_identifier_key channel user_id)
  unfolding authorize
  allowed-IsAuthorized_rows [] e d db' h a = ground arith
  allowed-IsAuthorized_rows (i ∷ []) e d db' h a =
      elim (Option-cases (first (has_user_id i.user_id) db.users)) [
        | inl nobody ↦ ground arith
        | inr (u, owner) ↦ record {
          identity = i;
          user = u;
          found = e;
          owner = owner;
          active = ground arith;
          held = ground arith;
        }
      ]
  allowed-IsAuthorized_rows (i ∷ j ∷ rows) e d db' h a = ground arith

  authorize_state :
      (rows : List ChannelIdentity)
      → select (has_key channel (channel_identifier_key channel user_id)) db.identities ≡ rows
      → (authorize channel user_id db).1 ≡ db
  unfolding authorize
  authorize_state [] e = rw e refl
  authorize_state (i ∷ []) e = ground arith
  authorize_state (i ∷ j ∷ rows) e = rw e refl

  -- `authorize` fails closed and changes nothing: when it returns, the database is as it was, and
  -- the sender is allowed exactly if its stored key has one identity, which belongs to an active
  -- user and holds CHAT or ADMIN.
  pub authorize-IsAuthorized :
      (d : AuthDecision) (db' : Database)
      → authorize channel user_id db ≡ (ok d, db')
      → (db' ≡ db)
        × ((d.allowed ≡ true) ↔ IsAuthorized db channel (channel_identifier_key channel user_id))
  authorize-IsAuthorized d db' h = (
    cc (authorize_state _ refl),
    (λ a. allowed-IsAuthorized_rows _ refl d db' h a, λ a. ground (arith, authorize_allows a)),
  )
