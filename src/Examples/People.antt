-- ===== src/Examples/People.antt =====
-- Users of the example database: a grant, a removal, and a deletion.
use channel_agent.Prelude.{
  ◌≡◌, String, refl, true, some, List, [], ◌∷◌, select, first, delete, any, str_eq, if◌then◌else◌,
  arith, strip,
}
use channel_agent.Exec.{ok}
use channel_agent.Model.{
  Database, Channel, User, ChannelIdentity, Permission, PermissionKind, ActionLog, ActionStatus,
  Direction, readable,
}
use channel_agent.Auth.{
  authorize, grant_permission, no_decision, has_key, has_user_id, channel_identifier_key,
}
use channel_agent.Admin.Events.{record_admin_event, require_user, identity_of_user, has_identity_id}
use channel_agent.Admin.Requests.{resolve_requests_for_identity, auto_approve}
use channel_agent.Admin.Agents.{owned_by}
use channel_agent.Admin.Users.{grant_identity_permission, remove_channel_identity, belongs_to}
use channel_agent.Admin.Users.Access.{remove_channel_identity-authorize}
use channel_agent.Admin.Deletion.{
  Saver, DeletionReport, absent, present, delete_user, delete_threads, delete_all,
  thread_ids_of_user, thread_id_from_key, decimal, log_of, of_some_identity,
}
use channel_agent.Admin.Deletion.Purge.{delete_user-others}
use channel_agent.Examples.Fixture.{example_env, database, ann, ann_identity, ann_chat, ann_agent}

ann_only : select (has_key Channel.telegram "7") database.identities ≡ ann_identity ∷ []
unfolding select
ann_only = refl

find-ann : first (has_user_id 1) database.users ≡ some ann
unfolding first
find-ann = refl

find-identity : first (has_identity_id 1) database.identities ≡ some ann_identity
unfolding first
find-identity = refl

ann_key : channel_identifier_key Channel.telegram "7" ≡ "7"
unfolding channel_identifier_key
ann_key = refl

abbrev silent : Database
silent = record database { permissions = [] }

abbrev chat_again : Permission
chat_again = record { id = 1; channel_identity_id = 1; kind = PermissionKind.chat }

abbrev granted : Database
granted = (grant_identity_permission 1 1 PermissionKind.chat "api" silent).1

grant-again :
    grant_identity_permission 1 1 PermissionKind.chat "api" silent ≡ (ok chat_again, granted)
unfolding grant_identity_permission identity_of_user require_user grant_permission
    record_admin_event resolve_requests_for_identity auto_approve select first strip
grant-again = refl

abbrev removed : Database
removed = (remove_channel_identity 1 1 "api" database).1

remove-ann : remove_channel_identity 1 1 "api" database ≡ (ok tt, removed)
unfolding remove_channel_identity identity_of_user require_user record_admin_event first strip
    delete
remove-ann = refl

remove_channel_identity-authorize_example :
    authorize Channel.telegram "7" removed ≡ (ok no_decision, removed)
remove_channel_identity-authorize_example =
    remove_channel_identity-authorize 1 1 "api" "7" database removed ann_identity find-identity
      ann_only ann_key remove-ann

-- A saver that keeps the ids of the threads that have checkpoints.
abbrev saver : Saver
saver = record {
  Store = List String;
  aget_tuple = λ t s. if any (str_eq t) s then present else absent;
  adelete_thread = λ t s. delete (str_eq t) s;
}

abbrev before : List String
before = "telegram_7_1" ∷ "telegram_8_2" ∷ []

abbrev after : List String
after = "telegram_8_2" ∷ []

abbrev one_entry : ActionLog
one_entry = record {
  id = 1;
  user_id = 1;
  agent_id = 1;
  channel = Channel.telegram;
  direction = Direction.inbound;
  text = readable "hello";
  status = ActionStatus.ok;
  created_at = 5;
}

-- Another user, with a row of each kind.
abbrev bob : User
bob = record ann { id = 2; display_name = some "Bob" }

abbrev bob_identity : ChannelIdentity
bob_identity = record ann_identity { id = 2; user_id = 2; external_id = "8" }

abbrev bob_chat : Permission
bob_chat = record { id = 2; channel_identity_id = 2; kind = PermissionKind.chat }

abbrev used : Database
used = record database {
  users = ann ∷ bob ∷ [];
  identities = ann_identity ∷ bob_identity ∷ [];
  permissions = ann_chat ∷ bob_chat ∷ [];
  agents = ann_agent ∷ record ann_agent { id = 2; user_id = 2 } ∷ [];
  logs = one_entry ∷ record one_entry { id = 2; user_id = 2; agent_id = 2 } ∷ [];
}

abbrev purged : Database
purged = (delete_user saver 1 true "api" (used, before)).1.0

abbrev report : DeletionReport
report = record { user_id = 1; agents_deleted = 1; logs_deleted = 1; threads_deleted = 1 }

purge-ann : delete_user saver 1 true "api" (used, before) ≡ (ok report, (purged, after))
unfolding delete_user require_user delete_threads delete_all thread_ids_of_user record_admin_event
    first select strip delete thread_id_from_key decimal
purge-ann = refl

delete_user-others_example :
    (first (has_user_id 2) purged.users ≡ first (has_user_id 2) used.users)
    × (select (belongs_to 2) purged.identities ≡ select (belongs_to 2) used.identities)
    × (select (owned_by 2) purged.agents ≡ select (owned_by 2) used.agents)
    × (select (log_of 2) purged.logs ≡ select (log_of 2) used.logs)
    × (select (of_some_identity (select (belongs_to 2) used.identities)) purged.permissions
        ≡ select (of_some_identity (select (belongs_to 2) used.identities)) used.permissions)
delete_user-others_example =
    delete_user-others saver 1 true "api" used before report purged after 2 (omega arith)
      (refl, (refl, tt)) purge-ann
