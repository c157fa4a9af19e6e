-- ===== src/Admin/Requests/Admit.antt =====
-- app/admin/service.py: how an approval lets a sender in, with the identity that exists or a new one.
use channel_agent.Prelude.{
  ◌≡◌, refl, true, inl, none, some, List, [], ◌∷◌, ◌++◌, map, select, first, select-append,
  first-append_none, first_id-none, arith, ==-refl, str_eq_refl,
}
use channel_agent.Env.{Env, EnvLaws}
use channel_agent.Exec.{Result, ok, err}
use channel_agent.Model.{Database, User, ChannelIdentity, Permission, AccessRequest, chat}
use channel_agent.Auth.{has_key, has_user_id, grant_permission}
use channel_agent.Auth.Decision.{IsAuthorized}
use channel_agent.Auth.Grants.{grant_permission-holds}
use channel_agent.Admin.Requests.{admit, approved_name}
use channel_agent.Admin.Requests.Unique.{same_channel_refl}

module _ ⦃env : Env⦄ (r : AccessRequest) (db : Database) where
  -- The identity, its user and the tables before the grant.
  IsAuthorized-grant :
      (identity : ChannelIdentity) (user : User) (p : Permission) (db' : Database)
      → grant_permission identity chat db ≡ (ok p, db')
      → select (has_key r.channel r.external_id) db.identities ≡ identity ∷ []
      → first (has_user_id identity.user_id) db.users ≡ some user
      → user.is_active ≡ true
      → IsAuthorized db' r.channel r.external_id
  IsAuthorized-grant identity user p db' g found owner active =
      let (users, identities, held) = grant_permission-holds identity chat db p db' g in
      record {
        identity = identity;
        user = user;
        found = rw identities found;
        owner = rw users owner;
        active = active;
        held = inl (ground (arith, held identity.id chat, ==-refl identity.id));
      }

  -- The rows that an approval adds for a sender with no identity.
  abbrev new_user : User
  new_user = record {
    id = env.new_id (map (λ u. u.id) db.users);
    display_name = some (approved_name r.channel);
    is_active = true;
  }

  abbrev new_identity : ChannelIdentity
  new_identity = record {
    id = env.new_id (map (λ i. i.id) db.identities);
    user_id = new_user.id;
    channel = r.channel;
    external_id = r.external_id;
    raw_address = none;
    active_agent_id = none;
  }

  abbrev with_new_identity : Database
  with_new_identity = record db {
    users = db.users ++ new_user ∷ [];
    identities = db.identities ++ new_identity ∷ [];
  }

  first-new_user :
      EnvLaws env → first (has_user_id new_user.id) (db.users ++ new_user ∷ []) ≡ some new_user
  unfolding first
  first-new_user laws =
      rw
        (first-append_none (has_user_id new_user.id) db.users (new_user ∷ [])
          (first_id-none (λ u. u.id) new_user.id db.users (laws.new_id_grows _)))
        (ground (arith, ==-refl new_user.id))

  select-new_identity :
      select (has_key r.channel r.external_id) db.identities ≡ []
      → select (has_key r.channel r.external_id) (db.identities ++ new_identity ∷ [])
        ≡ new_identity ∷ []
  unfolding select
  select-new_identity h =
      rw (select-append, h) (ground (arith, same_channel_refl r.channel, str_eq_refl r.external_id))

module _ ⦃env : Env⦄ (r : AccessRequest) (db : Database) where
  admit_new :
      EnvLaws env
      → select (has_key r.channel r.external_id) db.identities ≡ []
      → (user : User) (db' : Database) → admit r db ≡ (ok user, db')
      → IsAuthorized db' r.channel r.external_id
  unfolding admit
  admit_new laws h user db' e = go _ refl
    where
      go :
          (m : Result Permission × Database)
          → grant_permission (new_identity r db) chat (with_new_identity r db) ≡ m
          → IsAuthorized db' r.channel r.external_id
      go (ok p, db2) g =
          let same : db' ≡ db2 = ground arith in
          rw same (
            IsAuthorized-grant r (with_new_identity r db) (new_identity r db) (new_user r db) p db2
              g (select-new_identity r db h) (first-new_user r db laws) refl)
      go (err x, db2) g = ground arith

  admit_known :
      (i : ChannelIdentity)
      → select (has_key r.channel r.external_id) db.identities ≡ i ∷ []
      → (user : User) (db' : Database) → user.is_active ≡ true
      → admit r db ≡ (ok user, db')
      → IsAuthorized db' r.channel r.external_id
  unfolding admit
  admit_known i h user db' active e = go _ refl
    where
      go :
          (m : Result Permission × Database)
          → grant_permission i chat db ≡ m
          → IsAuthorized db' r.channel r.external_id
      go (ok p, db2) g =
          let same : db' ≡ db2 = ground arith in
          rw same (IsAuthorized-grant r db i user p db2 g h (ground arith) active)
      go (err x, db2) g = ground arith

  pub admit-IsAuthorized :
      EnvLaws env
      → (user : User) (db' : Database) → user.is_active ≡ true
      → admit r db ≡ (ok user, db')
      → IsAuthorized db' r.channel r.external_id
  admit-IsAuthorized laws user db' active e = go _ refl
    where
      go :
          (rows : List ChannelIdentity)
          → select (has_key r.channel r.external_id) db.identities ≡ rows
          → IsAuthorized db' r.channel r.external_id
      go [] h = admit_new laws h user db' e
      go (i ∷ []) h = admit_known i h user db' active e
      go (i ∷ j ∷ rest) h = absurd (unfold admit in ground arith)
