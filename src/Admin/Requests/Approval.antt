-- ===== src/Admin/Requests/Approval.antt =====
-- app/admin/service.py and app/security/auth.py: what an approval means for the sender.
use mathlib.Core.Path.{subst, sym}
use channel_agent.Prelude.{ℕ, String, ◌≡◌, ◌≢◌, refl, true, Option, none, some, first, arith}
use channel_agent.Env.{Env, EnvLaws}
use channel_agent.Exec.{Result, ok, err, request_already_resolved}
use channel_agent.Model.{Database, Channel, User, AccessRequest, RequestStatus}
use channel_agent.Auth.{channel_identifier_key, authorize, AuthDecision}
use channel_agent.Auth.Decision.{IsAuthorized, authorize_allows}
use channel_agent.Admin.Events.{record_admin_event}
use channel_agent.Admin.Requests.{
  has_request_id, admit, approve_request, deny_request, pending_request,
}
use channel_agent.Admin.Requests.Admit.{admit-IsAuthorized}

IsAuthorized-same :
    (c : Channel) (e : String) (db db' : Database)
    → db'.users ≡ db.users
    → db'.identities ≡ db.identities
    → db'.permissions ≡ db.permissions
    → IsAuthorized db c e
    → IsAuthorized db' c e
IsAuthorized-same c e db db' u i p a = record {
  identity = a.identity;
  user = a.user;
  found = rw i a.found;
  owner = rw u a.owner;
  active = a.active;
  held = rw p a.held;
}

-- The request that an approval is about, and the tables that it leaves.
record Approves ⦃env : Env⦄ (id : ℕ) (db : Database) (user : User) (db' : Database) : Type 0 where
  request : AccessRequest
  admitted : Database
  row : first (has_request_id id) db.requests ≡ some request
  waiting : request.status ≡ RequestStatus.pending
  admits : admit request db ≡ (ok user, admitted)
  users : db'.users ≡ admitted.users
  identities : db'.identities ≡ admitted.identities
  permissions : db'.permissions ≡ admitted.permissions

module _ ⦃env : Env⦄ (id : ℕ) (by : Option String) (db : Database) where
  approve_stages :
      (user : User) (db' : Database)
      → approve_request id by db ≡ (ok user, db')
      → Approves id db user db'
  unfolding approve_request pending_request record_admin_event
  approve_stages user db' e = go _ refl
    where
      admitted_by :
          (r : AccessRequest) (m : Result User × Database)
          → first (has_request_id id) db.requests ≡ some r
          → admit r db ≡ m
          → Approves id db user db'
      admitted_by r (err x, db1) h a = ground arith
      admitted_by r (ok u, db1) h a = record {
        request = r;
        admitted = db1;
        row = h;
        waiting = ground arith;
        admits = ground arith;
        users = ground arith;
        identities = ground arith;
        permissions = ground arith;
      }

      go :
          (row : Option AccessRequest)
          → first (has_request_id id) db.requests ≡ row
          → Approves id db user db'
      go none h = ground arith
      go (some r) h = admitted_by r _ h refl

  -- An approval that returned an active user was of a request that was pending, and from then on
  -- `authorize` allows a sender whose key is the one of the request.
  pub approve_request-authorize :
      EnvLaws env
      → (user : User) (db' : Database) (r : AccessRequest) (raw_id : String) → user.is_active ≡ true
      → first (has_request_id id) db.requests ≡ some r
      → channel_identifier_key r.channel raw_id ≡ r.external_id
      → approve_request id by db ≡ (ok user, db')
      → (r.status ≡ RequestStatus.pending)
        × ((d : AuthDecision) × (authorize r.channel raw_id db' ≡ (ok d, db')) × (d.allowed ≡ true))
  approve_request-authorize laws user db' r raw_id active row key e =
      let s = approve_stages user db' e in
      let same : r ≡ s.request = cc s.row in
      let a : IsAuthorized db' s.request.channel s.request.external_id =
        IsAuthorized-same s.request.channel s.request.external_id s.admitted db' s.users
          s.identities s.permissions
          (admit-IsAuthorized s.request db laws user s.admitted active s.admits) in
      let a' : IsAuthorized db' r.channel r.external_id =
        subst (λ (q : AccessRequest). IsAuthorized db' q.channel q.external_id) (sym same) a in
      let (d, returns, allowed, _, _) = authorize_allows r.channel raw_id db' (rw key a') in
      (rw same s.waiting, (d, returns, allowed))

  -- A request that is not pending can be neither approved nor denied: both raise and change nothing.
  pub resolved_once :
      (r : AccessRequest)
      → first (has_request_id id) db.requests ≡ some r
      → r.status ≢ RequestStatus.pending
      → (approve_request id by db ≡ (err request_already_resolved, db))
        × (deny_request id by db ≡ (err request_already_resolved, db))
  unfolding approve_request deny_request pending_request
  resolved_once r h n = (ground arith, ground arith)
