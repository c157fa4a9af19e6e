-- ===== src/Admin/Deletion/Purge.antt =====
-- app/admin/service.py: what is left of a user that was deleted, and what is left of the others.
use channel_agent.Prelude.{
  ℕ, ◌≡◌, sym, HasDistinctIds, ◌≢◌, ◌⊎◌, inl, inr, refl, String, ◌&&◌, Bool, true, false, none,
  List, [], ◌∷◌, any, length, All, select, first, delete, arith, if◌then◌else◌, ◌==◌, Bool-cases,
  Option-cases,
}
use channel_agent.Env.{Env}
use channel_agent.Exec.{ok}
use channel_agent.Model.{Database, ChannelIdentity, Permission}
use channel_agent.Auth.{has_user_id}
use channel_agent.Admin.Events.{record_admin_event, require_user}
use channel_agent.Admin.Agents.{owned_by}
use channel_agent.Admin.Users.{belongs_to}
use channel_agent.Admin.Deletion.{
  Saver, absent, DeletionReport, log_of, of_some_identity, thread_ids_of_user, delete_all,
  delete_threads, delete_user, without_user,
}

-- No row of the main database refers to the user, no conversation of a purged one is kept, and
-- nobody waits on less than before.
pub record IsGone (saver : Saver) (user_id : ℕ) (purge : Bool) (db : Database)
    (report : DeletionReport) (db' : Database) (store' : saver.Store) : Type 0 where
  pub user : any (has_user_id user_id) db'.users ≡ false
  pub identities : any (belongs_to user_id) db'.identities ≡ false
  pub permissions :
      any (of_some_identity (select (belongs_to user_id) db.identities)) db'.permissions ≡ false
  pub agents : any (owned_by user_id) db'.agents ≡ false
  pub logs : any (log_of user_id) db'.logs ≡ false
  pub threads :
      All
        (λ t. saver.aget_tuple t store' ≡ absent)
        (if purge then thread_ids_of_user user_id none db else [])
  pub allowed : (purge ≡ true) ⊎ (any (log_of user_id) db.logs ≡ false)
  pub reported : report.logs_deleted ≡ length (select (log_of user_id) db.logs)
  pub requests : db'.requests ≡ db.requests

-- Deleting the rows of one owner keeps those of another.
module _ {ℓ} {A : Type ℓ} (owner : A → ℕ) (gone other : ℕ) (n : other ≢ gone) where
  select-delete :
      (xs : List A)
      → select (λ x. owner x == other) (delete (λ x. owner x == gone) xs)
        ≡ select (λ x. owner x == other) xs
  unfolding select delete
  select-delete [] = refl
  select-delete (x ∷ xs) = ground (arith, select-delete xs)

  first-delete :
      (xs : List A)
      → first (λ x. owner x == other) (delete (λ x. owner x == gone) xs)
        ≡ first (λ x. owner x == other) xs
  unfolding first delete
  first-delete [] = refl
  first-delete (x ∷ xs) = ground (arith, first-delete xs)

-- Permissions of these identities are kept if they are of none that go.
select_permissions :
    (theirs gone : List ChannelIdentity) (permissions : List Permission)
    → ((p : Permission) → (of_some_identity theirs p && of_some_identity gone p) ≡ false)
    → select (of_some_identity theirs) (delete (of_some_identity gone) permissions)
      ≡ select (of_some_identity theirs) permissions
unfolding select delete
select_permissions theirs gone [] h = refl
select_permissions theirs gone (p ∷ ps) h = ground (arith, h p, select_permissions theirs gone ps h)

none_selected :
    (q : ChannelIdentity → Bool) (identity : ℕ) (rows : List ChannelIdentity)
    → any (λ i. i.id == identity) rows ≡ false
    → any (λ i. identity == i.id) (select q rows) ≡ false
unfolding select
none_selected q identity [] h = refl
none_selected q identity (x ∷ rows) h = ground (arith, h, none_selected q identity rows)

-- No identity of one user has the id of an identity of another, where the rows have different ids.
other_identities :
    (user_id other identity : ℕ) (rows : List ChannelIdentity)
    → other ≢ user_id
    → HasDistinctIds (λ i. i.id) rows
    → (any (λ i. identity == i.id) (select (belongs_to other) rows)
        && any (λ i. identity == i.id) (select (belongs_to user_id) rows))
      ≡ false
unfolding select
other_identities user_id other identity [] n d = refl
other_identities user_id other identity (x ∷ rows) n d = elim (Bool-cases (x.id == identity)) [
  | inl this ↦
      let same : x.id ≡ identity = ground (arith, this) in
      let none_else : any (λ i. i.id == identity) rows ≡ false = rw (sym same) d.0 in
      ground (
        arith,
        n,
        none_selected (belongs_to other) identity rows none_else,
        none_selected (belongs_to user_id) identity rows none_else,
      )
  | inr apart ↦ ground (arith, apart, other_identities user_id other identity rows n d.1)
]

module _ ⦃env : Env⦄ (saver : Saver) (user_id : ℕ) (purge : Bool) (actor : String) (db : Database)
    (store : saver.Store) where
  -- What a deletion that returned has done.
  record Deletes (report : DeletionReport) (db' : Database) (store' : saver.Store) : Type 0 where
    users : db'.users ≡ (without_user user_id db).users
    identities : db'.identities ≡ (without_user user_id db).identities
    permissions : db'.permissions ≡ (without_user user_id db).permissions
    agents : db'.agents ≡ (without_user user_id db).agents
    logs : db'.logs ≡ (without_user user_id db).logs
    requests : db'.requests ≡ db.requests
    threads :
        store' ≡ delete_all saver (if purge then thread_ids_of_user user_id none db else []) store
    allowed : (purge ≡ true) ⊎ (length (select (log_of user_id) db.logs) ≡ 0)
    reported : report.logs_deleted ≡ length (select (log_of user_id) db.logs)

  delete_stages :
      (report : DeletionReport) (db' : Database) (store' : saver.Store)
      → delete_user saver user_id purge actor (db, store) ≡ (ok report, (db', store'))
      → Deletes report db' store'
  unfolding delete_user require_user delete_threads record_admin_event
  delete_stages report db' store' e = elim (Option-cases (first (has_user_id user_id) db.users)) [
    | inl nobody ↦ ground arith
    | inr (u, found) ↦ record {
      users = ground arith;
      identities = ground arith;
      permissions = ground arith;
      agents = ground arith;
      logs = ground arith;
      requests = ground arith;
      threads = ground arith;
      allowed = ground arith;
      reported = ground arith;
    }
  ]

  -- A deletion that returned keeps the row of every other user, and their identities, agents, log
  -- entries and permissions; the identities have different ids.
  pub delete_user-others :
      (report : DeletionReport) (db' : Database) (store' : saver.Store) (other : ℕ)
      → other ≢ user_id
      → HasDistinctIds (λ i. i.id) db.identities
      → delete_user saver user_id purge actor (db, store) ≡ (ok report, (db', store'))
      → (first (has_user_id other) db'.users ≡ first (has_user_id other) db.users)
        × (select (belongs_to other) db'.identities ≡ select (belongs_to other) db.identities)
        × (select (owned_by other) db'.agents ≡ select (owned_by other) db.agents)
        × (select (log_of other) db'.logs ≡ select (log_of other) db.logs)
        × (select (of_some_identity (select (belongs_to other) db.identities)) db'.permissions
            ≡ select (of_some_identity (select (belongs_to other) db.identities)) db.permissions)
  delete_user-others report db' store' other n ids e =
      let d = delete_stages report db' store' e in
      (
        rw d.users (first-delete (λ u. u.id) user_id other n db.users),
        rw d.identities (select-delete (λ i. i.user_id) user_id other n db.identities),
        rw d.agents (select-delete (λ a. a.user_id) user_id other n db.agents),
        rw d.logs (select-delete (λ l. l.user_id) user_id other n db.logs),
        rw d.permissions (
            select_permissions (select (belongs_to other) db.identities)
              (select (belongs_to user_id) db.identities) db.permissions
              (λ p. other_identities user_id other p.channel_identity_id db.identities n ids)),
      )
