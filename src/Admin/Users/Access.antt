-- ===== src/Admin/Users/Access.antt =====
-- app/admin/service.py and app/security/auth.py: what linking, granting and removing mean for the
-- sender.
use mathlib.Core.Path.{subst}
use channel_agent.Prelude.{
  ℕ, String, ◌≡◌, ◌∙◌, sym, ap, refl, Bool, true, inl, inr, Option, some, List, [], ◌∷◌, select,
  first, delete, strip, arith, Option-cases, Bool-cases, ==-refl, ◌==◌,
}
use channel_agent.Env.{Env}
use channel_agent.Exec.{Exec, Result, ok, err, continue, pure, gets, ◌>>=◌, ◌>>◌}
use channel_agent.Model.{
  Database, Channel, User, ChannelIdentity, Permission, PermissionKind, chat, channel_value,
  kind_value, AccessRequest, Detail, RequestStatus,
}
use channel_agent.Auth.{
  AuthDecision, has_key, has_user_id, authorize, grant_permission, channel_identifier_key,
  no_decision,
}
use channel_agent.Auth.Decision.{IsAuthorized, authorize_allows}
use channel_agent.Auth.Grants.{grant_permission-holds}
use channel_agent.Admin.Events.{
  record_admin_event, require_user, identity_of_user, has_identity_id, actor_is_refused,
}
use channel_agent.Admin.Requests.{
  resolve_requests_for_identity, auto_approve, resolved, save_request,
}
use channel_agent.Admin.Users.{grant_identity_permission, remove_channel_identity}

-- The tables that `authorize` reads.
record SameAccess (db db' : Database) : Type 0 where
  users : db'.users ≡ db.users
  identities : db'.identities ≡ db.identities
  permissions : db'.permissions ≡ db.permissions

-- Whatever happens, `m` leaves those tables.
record Keeps {A : Type 0} (m : Exec Database A) : Type 0 where
  keeps : (db : Database) → SameAccess db (m db).1

Keeps-pure : {A : Type 0} (a : A) → Keeps (pure a)
Keeps-pure a = record {
  keeps = λ db. record { users = refl; identities = refl; permissions = refl };
}

Keeps-gets : {A : Type 0} (f : Database → A) → Keeps (gets f)
Keeps-gets f = record {
  keeps = λ db. record { users = refl; identities = refl; permissions = refl };
}

Keeps-bind :
    {A B : Type 0} (m : Exec Database A) (f : A → Exec Database B)
    → Keeps m
    → ((a : A) → Keeps (f a))
    → Keeps (m >>= f)
Keeps-bind {A} {B} m f h k = record { keeps = λ db. go db (m db) refl }
  where
    go : (db : Database) (r : Result A × Database) → m db ≡ r → SameAccess db (continue r.0 f r.1).1
    go db (ok a, db') e =
        let one : SameAccess db db' =
          subst (λ (q : Result A × Database). SameAccess db q.1) e (h.keeps db) in
        let two : SameAccess db' (f a db').1 = (k a).keeps db' in
        record {
          users = two.users ∙ one.users;
          identities = two.identities ∙ one.identities;
          permissions = two.permissions ∙ one.permissions;
        }
    go db (err x, db') e = subst (λ (q : Result A × Database). SameAccess db q.1) e (h.keeps db)

Keeps-then :
    {A B : Type 0} (m : Exec Database A) (k : Exec Database B) → Keeps m → Keeps k → Keeps (m >> k)
Keeps-then m k h l = Keeps-bind m (λ _. k) h (λ _. l)

module _ ⦃env : Env⦄ where
  Keeps-event :
      (actor action target : String) (id : Option ℕ) (details : List (String × Detail))
      → Keeps (record_admin_event actor action target id details)
  unfolding record_admin_event
  Keeps-event actor action target id details = record {
    keeps = λ db. elim (Bool-cases (actor_is_refused (strip actor))) [
      | inl bad ↦ record {
        users = ground arith;
        identities = ground arith;
        permissions = ground arith;
      }
      | inr good ↦ record {
        users = ground arith;
        identities = ground arith;
        permissions = ground arith;
      }
    ];
  }

  Keeps-save : (r : AccessRequest) → Keeps (save_request r)
  Keeps-save r = record {
    keeps = λ db. record { users = refl; identities = refl; permissions = refl };
  }

  Keeps-auto :
      (c : Channel) (actor : String) (rs : List AccessRequest) → Keeps (auto_approve c actor rs)
  unfolding auto_approve
  Keeps-auto c actor [] = Keeps-pure tt
  Keeps-auto c actor (r ∷ rs) =
      let approved = resolved r RequestStatus.approved (some actor) in
      let details = ("channel", Detail.text (channel_value c)) ∷ [] in
      let event =
        record_admin_event actor "request.auto_approve" "access_request" (some r.id) details in
      Keeps-then (save_request approved) (event >> auto_approve c actor rs) (Keeps-save approved) (
        Keeps-then event (auto_approve c actor rs) (Keeps-event actor _ _ _ details)
          (Keeps-auto c actor rs))

  Keeps-resolve :
      (c : Channel) (key actor : String) → Keeps (resolve_requests_for_identity c key actor)
  unfolding resolve_requests_for_identity
  Keeps-resolve c key actor = search (Keeps-bind, Keeps-then, Keeps-gets, Keeps-pure, Keeps-auto)

  -- The tables after the grant, and those that the rest of the operation leaves.
  record GrantsTo (identity : ChannelIdentity) (kind : PermissionKind) (db db' : Database)
      : Type 0 where
    permission : Permission
    granted : Database
    grants : grant_permission identity kind db ≡ (ok permission, granted)
    users : db'.users ≡ granted.users
    identities : db'.identities ≡ granted.identities
    permissions : db'.permissions ≡ granted.permissions

  -- What `grant_identity_permission` does after the grant.
  after_grant :
      ℕ → ℕ → PermissionKind → String → ChannelIdentity → Permission → Exec Database Permission
  after_grant user_id id kind actor i permission = do
    record_admin_event actor "permission.grant" "user" (some user_id)
        (("identity_id", Detail.number id) ∷ ("kind", Detail.text (kind_value kind)) ∷ [])
    resolve_requests_for_identity i.channel i.external_id actor
    pure permission

  Keeps-after_grant :
      (user_id id : ℕ) (kind : PermissionKind) (actor : String) (i : ChannelIdentity)
      (p : Permission)
      → Keeps (after_grant user_id id kind actor i p)
  unfolding after_grant
  Keeps-after_grant user_id id kind actor i p =
      search (Keeps-then, Keeps-event, Keeps-resolve, Keeps-pure)

  grant_tail :
      (user_id id : ℕ) (kind : PermissionKind) (actor : String) (db db1 : Database) (q : Permission)
      (u : User) (i : ChannelIdentity)
      → first (has_user_id user_id) db.users ≡ some u
      → first (has_identity_id id) db.identities ≡ some i
      → (i.user_id == user_id) ≡ true
      → grant_permission i kind db ≡ (ok q, db1)
      → grant_identity_permission user_id id kind actor db
        ≡ after_grant user_id id kind actor i q db1
  unfolding grant_identity_permission identity_of_user require_user after_grant
  grant_tail user_id id kind actor db db1 q u i user row owner h = rw (user, row, owner, h) refl

  remove_stages :
      (user_id id : ℕ) (actor : String) (db db' : Database) (i : ChannelIdentity)
      → first (has_identity_id id) db.identities ≡ some i
      → remove_channel_identity user_id id actor db ≡ (ok tt, db')
      → db'.identities ≡ delete (has_identity_id i.id) db.identities
  unfolding remove_channel_identity identity_of_user require_user record_admin_event
  remove_stages user_id id actor db db' i row e =
      elim (Option-cases (first (has_user_id user_id) db.users)) [
        | inl nobody ↦ ground arith
        | inr (u, found) ↦ ground arith
      ]

  grant_stages :
      (user_id id : ℕ) (kind : PermissionKind) (actor : String) (db db' : Database) (p : Permission)
      (u : User) (i : ChannelIdentity)
      → first (has_user_id user_id) db.users ≡ some u
      → first (has_identity_id id) db.identities ≡ some i
      → i.user_id ≡ user_id
      → grant_identity_permission user_id id kind actor db ≡ (ok p, db')
      → GrantsTo i kind db db'
  unfolding grant_identity_permission identity_of_user require_user
  grant_stages user_id id kind actor db db' p u i user row owner e = go _ refl
    where
      go :
          (m : Result Permission × Database)
          → grant_permission i kind db ≡ m
          → GrantsTo i kind db db'
      go (err x, db1) h = ground arith
      go (ok q, db1) h =
          let tail =
            grant_tail user_id id kind actor db db1 q u i user row (ground (arith, owner)) h in
          let done : db' ≡ (after_grant user_id id kind actor i q db1).1 =
            ap (λ (r : Result Permission × Database). r.1) (sym e ∙ tail) in
          let kept = (Keeps-after_grant user_id id kind actor i q).keeps db1 in
          record {
            permission = q;
            granted = db1;
            grants = h;
            users = rw done kept.users;
            identities = rw done kept.identities;
            permissions = rw done kept.permissions;
          }

  -- An active user's identity that is granted CHAT, with a return, is allowed from then on, where no
  -- other identity has its key.
  pub grant_identity_permission-authorize :
      (user_id id : ℕ) (actor raw_id : String) (db db' : Database) (p : Permission) (u : User)
      (i : ChannelIdentity)
      → first (has_user_id user_id) db.users ≡ some u
      → u.is_active ≡ true
      → first (has_identity_id id) db.identities ≡ some i
      → i.user_id ≡ user_id
      → select (has_key i.channel i.external_id) db.identities ≡ i ∷ []
      → channel_identifier_key i.channel raw_id ≡ i.external_id
      → grant_identity_permission user_id id chat actor db ≡ (ok p, db')
      → (d : AuthDecision) × (authorize i.channel raw_id db' ≡ (ok d, db')) × (d.allowed ≡ true)
  grant_identity_permission-authorize user_id id actor raw_id db db' p u i user active row owner
        only key e =
      let s = grant_stages user_id id chat actor db db' p u i user row owner e in
      let (users, identities, held) =
        grant_permission-holds i chat db s.permission s.granted s.grants in
      let a : IsAuthorized db' i.channel i.external_id = record {
        identity = i;
        user = u;
        found = rw (s.identities, identities) only;
        owner = rw (s.users, users, owner) user;
        active = active;
        held = inl (rw s.permissions (ground (arith, held i.id chat, ==-refl i.id)));
      } in
      let (d, returns, allowed, _, _) = authorize_allows i.channel raw_id db' (rw key a) in
      (d, returns, allowed)

  deleted_none :
      (q p : ChannelIdentity → Bool) (rows : List ChannelIdentity)
      → select q rows ≡ []
      → select q (delete p rows) ≡ []
  unfolding select delete
  deleted_none q p [] h = refl
  deleted_none q p (r ∷ rows) h = ground (arith, deleted_none q p rows)

  deleted_key :
      (q : ChannelIdentity → Bool) (i : ChannelIdentity) (rows : List ChannelIdentity)
      → select q rows ≡ i ∷ []
      → select q (delete (has_identity_id i.id) rows) ≡ []
  unfolding select delete
  deleted_key q i [] h = refl
  deleted_key q i (r ∷ rows) h =
      ground (arith, deleted_key q i rows, ==-refl i.id, deleted_none q (has_identity_id i.id) rows)

  -- Once an identity is removed, its sender is not allowed: the call returned, and no other identity
  -- had its key.
  pub remove_channel_identity-authorize :
      (user_id id : ℕ) (actor raw_id : String) (db db' : Database) (i : ChannelIdentity)
      → first (has_identity_id id) db.identities ≡ some i
      → select (has_key i.channel i.external_id) db.identities ≡ i ∷ []
      → channel_identifier_key i.channel raw_id ≡ i.external_id
      → remove_channel_identity user_id id actor db ≡ (ok tt, db')
      → authorize i.channel raw_id db' ≡ (ok no_decision, db')
  unfolding authorize
  remove_channel_identity-authorize user_id id actor raw_id db db' i row only key e =
      rw
        (
          key,
          remove_stages user_id id actor db db' i row e,
          deleted_key (has_key i.channel i.external_id) i db.identities only,
        )
        refl
