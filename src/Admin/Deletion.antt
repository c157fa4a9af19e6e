-- ===== src/Admin/Deletion.antt =====
-- app/admin/service.py: what deletes history. `delete_user` removes a user with all rows that refer
-- to them, `reset_conversation` forgets conversations. app/graph.py: `thread_id_from_key`,
-- `threads_with_history`, `delete_threads`. The checkpoints are in another database, which LangGraph's
-- saver reads and writes: it is a parameter.
pub mod Purge
use Prim.Native.String
use channel_agent.Prelude.{
  ◌≡◌, ◌≢◌, ℕ, zero, suc, ◌/◌, ◌%◌, ◌+◌, String, ◌&&◌, not, Bool, true, false, Option, none, some,
  List, [], ◌∷◌, ◌++◌, map, any, length, select, first, update, delete, ltb, ◌==◌, if◌then◌else◌,
}
use channel_agent.Env.{Env}
use channel_agent.Exec.{
  Exec, Result, agent_not_found, user_has_history, pure, gets, modify, raise_if, or_raise, ◌>>=◌,
  ◌>>◌,
}
use channel_agent.Model.{
  Database, Channel, User, ChannelIdentity, Permission, Agent, ActionLog, Detail, channel_value,
}
use channel_agent.Auth.{has_user_id}
use channel_agent.Admin.Events.{record_admin_event, require_user, has_agent_id}
use channel_agent.Admin.Agents.{owned_by, number_or_null}
use channel_agent.Admin.Users.{belongs_to}

abbrev pub digit : ℕ → String
digit n =
    if n == 0
    then "0"
    else if n == 1
    then "1"
    else if n == 2
    then "2"
    else if n == 3
    then "3"
    else if n == 4
    then "4"
    else if n == 5
    then "5"
    else if n == 6
    then "6"
    else if n == 7
    then "7"
    else if n == 8
    then "8"
    else "9"

infixr 5 ◌&◌
abbrev pub ◌&◌ : String → String → String
s & t = String.◌++◌ s t

unfoldable pub decimal_on : ℕ → ℕ → String
decimal_on zero n = ""
decimal_on (suc fuel) n =
    let rest = decimal_on fuel (n / 10) in if ltb n 10 then digit n else rest & digit (n % 10)

-- `str(n)`; a number has fewer digits than `n + 1`.
unfoldable pub decimal : ℕ → String
unfolding decimal_on
decimal n = decimal_on (suc n) n

unfoldable pub thread_id_from_key : Channel → String → ℕ → String
thread_id_from_key channel identity_key agent_id =
    channel_value channel & "_" & identity_key & "_" & decimal agent_id

-- The agents that `_thread_ids_of_user` asks for.
abbrev is_wanted : ℕ → Option ℕ → Agent → Bool
is_wanted user_id none a = owned_by user_id a
is_wanted user_id (some id) a = owned_by user_id a && has_agent_id id a

abbrev threads_of : List Agent → ChannelIdentity → List String
threads_of agents i = map (λ a. thread_id_from_key i.channel i.external_id a.id) agents

abbrev pub all_threads : List Agent → List ChannelIdentity → List String
all_threads agents [] = []
all_threads agents (i ∷ is) = threads_of agents i ++ all_threads agents is

unfoldable pub thread_ids_of_user : ℕ → Option ℕ → Database → List String
thread_ids_of_user user_id agent_id db =
    all_threads (select (is_wanted user_id agent_id) db.agents)
      (select (belongs_to user_id) db.identities)

-- What LangGraph's saver yields for a thread: `aget_tuple` may raise on a checkpoint that it cannot
-- read.
pub data Checkpoint : Type 0 where
  absent present unreadable : Checkpoint

pub record Saver : Type 1 where
  pub Store : Type 0
  pub aget_tuple : String → Store → Checkpoint
  pub adelete_thread : String → Store → Store

-- The saver's documentation: deleting a thread removes its checkpoints and no other's.
pub record SaverLaws (saver : Saver) : Type 0 where
  pub deleted :
      (t : String) (s : saver.Store) → saver.aget_tuple t (saver.adelete_thread t s) ≡ absent
  pub others :
      (t u : String) (s : saver.Store)
      → t ≢ u
      → saver.aget_tuple u (saver.adelete_thread t s) ≡ saver.aget_tuple u s

pub record DeletionReport : Type 0 where
  pub user_id : ℕ
  pub agents_deleted : ℕ
  pub logs_deleted : ℕ
  pub threads_deleted : ℕ

abbrev pub log_of : ℕ → ActionLog → Bool
log_of user_id e = e.user_id == user_id

abbrev pub of_some_identity : List ChannelIdentity → Permission → Bool
of_some_identity is p = any (λ i. p.channel_identity_id == i.id) is

-- The rows that go with a user: `session.delete(user)` cascades to the identities, and from each to
-- its permissions.
abbrev pub without_user : ℕ → Database → Database
without_user user_id db = record db {
  users = delete (has_user_id user_id) db.users;
  identities = delete (belongs_to user_id) db.identities;
  permissions =
      delete (of_some_identity (select (belongs_to user_id) db.identities)) db.permissions;
  agents = delete (owned_by user_id) db.agents;
  logs = delete (log_of user_id) db.logs;
}

module _ (saver : Saver) where
  abbrev pub Stores : Type 0
  Stores = Database × saver.Store

  -- A function of the main database, with the checkpoints beside it.
  abbrev pub on_database : {A : Type 0} → Exec Database A → Exec Stores A
  on_database m (db, store) = let (r, db') = m db in (r, (db', store))

  abbrev has_history : Checkpoint → ℕ
  has_history absent = 0
  has_history present = 1
  has_history unreadable = 1

  count_history : List String → saver.Store → ℕ
  count_history [] store = 0
  count_history (t ∷ ts) store = has_history (saver.aget_tuple t store) + count_history ts store

  unfoldable pub threads_with_history : List String → Exec Stores ℕ
  unfolding count_history
  threads_with_history ids = gets (λ s. count_history ids s.1)

  unfoldable pub delete_all : List String → saver.Store → saver.Store
  delete_all [] store = store
  delete_all (t ∷ ts) store = delete_all ts (saver.adelete_thread t store)

  unfoldable pub delete_threads : List String → Exec Stores ℕ
  delete_threads ids = do modify (λ s. (s.0, delete_all ids s.1)); pure (length ids)

module _ ⦃env : Env⦄ (saver : Saver) where
  require_agent_of : ℕ → Option ℕ → Exec Database (Unit {0})
  require_agent_of user_id none = pure tt
  require_agent_of user_id (some agent_id) = do
    row ← gets (λ db. first (has_agent_id agent_id) db.agents)
    agent ← or_raise row agent_not_found
    raise_if (not (owned_by user_id agent)) agent_not_found

  unfoldable pub reset_conversation : ℕ → Option ℕ → String → Exec (Stores saver) ℕ
  unfolding require_agent_of
  reset_conversation user_id agent_id actor = do
    on_database saver (require_user user_id)
    on_database saver (require_agent_of user_id agent_id)
    thread_ids ← gets (λ s. thread_ids_of_user user_id agent_id s.0)
    threads ← threads_with_history saver thread_ids
    delete_threads saver thread_ids
    on_database saver (
        record_admin_event actor "conversation.reset" "user" (some user_id)
          (("agent_id", number_or_null agent_id) ∷ ("threads", Detail.number threads) ∷ []))
    pure threads

  unfoldable pub delete_user : ℕ → Bool → String → Exec (Stores saver) DeletionReport
  delete_user user_id purge actor = do
    on_database saver (require_user user_id)
    agents ← gets (λ s. length (select (owned_by user_id) s.0.agents))
    logs ← gets (λ s. length (select (log_of user_id) s.0.logs))
    raise_if (not (logs == 0) && not purge) (user_has_history user_id agents logs)
    thread_ids ← gets (λ s. if purge then thread_ids_of_user user_id none s.0 else [])
    modify (λ s. (without_user user_id s.0, s.1))
    threads ← delete_threads saver thread_ids
    on_database saver (
        record_admin_event actor "user.delete" "user" (some user_id) (
          ("purge", Detail.flag purge)
          ∷ ("agents_deleted", Detail.number agents)
          ∷ ("logs_deleted", Detail.number logs)
          ∷ ("threads_deleted", Detail.number threads)
          ∷ []))
    let report : DeletionReport = record {
      user_id = user_id;
      agents_deleted = agents;
      logs_deleted = logs;
      threads_deleted = threads;
    }
    pure report
