-- ===== src/Model.antt =====
-- app/db/models.py: the rows of the main database, a table being the list of its rows in the order
-- of their ids (a new row has the largest). `created_at` is kept only where a query reads it. app/db/types.py: the text of an
-- encrypted column that the current key cannot decrypt is read back as a marker.
use channel_agent.Prelude.{ℕ, String, Bool, true, false, Option, List, []}

pub data Channel : Type 0 where
  telegram email matrix : Channel

pub data PermissionKind : Type 0 where
  chat admin : PermissionKind

pub data Direction : Type 0 where
  inbound outbound : Direction

pub data ActionStatus : Type 0 where
  ok failed denied : ActionStatus

pub data RequestStatus : Type 0 where
  pending approved denied : RequestStatus

pub record User : Type 0 where
  pub id : ℕ
  pub display_name : Option String
  pub is_active : Bool

pub record ChannelIdentity : Type 0 where
  pub id : ℕ
  pub user_id : ℕ
  pub channel : Channel
  pub external_id : String
  pub raw_address : Option String
  pub active_agent_id : Option ℕ

pub record Permission : Type 0 where
  pub id : ℕ
  pub channel_identity_id : ℕ
  pub kind : PermissionKind

pub record Agent : Type 0 where
  pub id : ℕ
  pub user_id : ℕ
  pub name : String
  pub is_active : Bool
  pub system_prompt : Option String
  pub model : Option String
  pub memory_mode : String
  pub tools : List String

-- What an encrypted column yields.
pub data StoredText : Type 0 where
  readable : String → StoredText
  undecryptable : StoredText

pub record ActionLog : Type 0 where
  pub id : ℕ
  pub user_id : ℕ
  pub agent_id : ℕ
  pub channel : Channel
  pub direction : Direction
  pub text : StoredText
  pub status : ActionStatus
  pub created_at : ℕ

pub record AccessRequest : Type 0 where
  pub id : ℕ
  pub channel : Channel
  pub external_id : String
  pub first_message_text : String
  pub status : RequestStatus
  pub resolved_at : Option ℕ
  pub resolved_by : Option String

-- A value in the JSON text of an event's details.
pub data Detail : Type 0 where
  null : Detail
  text : String → Detail
  number : ℕ → Detail
  flag : Bool → Detail
  texts : List String → Detail
  numbers : List (String × ℕ) → Detail
  moment : ℕ → Detail

pub record AdminEvent : Type 0 where
  pub id : ℕ
  pub actor : String
  pub action : String
  pub target_type : String
  pub target_id : Option ℕ
  pub details : Option (List (String × Detail))

pub record Database : Type 0 where
  pub users : List User
  pub identities : List ChannelIdentity
  pub permissions : List Permission
  pub agents : List Agent
  pub logs : List ActionLog
  pub requests : List AccessRequest
  pub events : List AdminEvent

abbrev pub empty : Database
empty = record {
  users = [];
  identities = [];
  permissions = [];
  agents = [];
  logs = [];
  requests = [];
  events = [];
}

-- The members of the enumerations are compared by name.
abbrev pub same_channel : Channel → Channel → Bool
same_channel Channel.telegram Channel.telegram = true
same_channel Channel.email Channel.email = true
same_channel Channel.matrix Channel.matrix = true
same_channel _ _ = false

abbrev pub same_kind : PermissionKind → PermissionKind → Bool
same_kind chat chat = true
same_kind admin admin = true
same_kind _ _ = false

abbrev pub same_direction : Direction → Direction → Bool
same_direction inbound inbound = true
same_direction outbound outbound = true
same_direction _ _ = false

abbrev pub same_status : ActionStatus → ActionStatus → Bool
same_status ActionStatus.ok ActionStatus.ok = true
same_status ActionStatus.failed ActionStatus.failed = true
same_status ActionStatus.denied ActionStatus.denied = true
same_status _ _ = false

abbrev pub is_pending : RequestStatus → Bool
is_pending RequestStatus.pending = true
is_pending RequestStatus.approved = false
is_pending RequestStatus.denied = false

-- `.value` of a channel
abbrev pub channel_value : Channel → String
channel_value telegram = "telegram"
channel_value email = "email"
channel_value matrix = "matrix"

abbrev pub kind_value : PermissionKind → String
kind_value chat = "chat"
kind_value admin = "admin"

abbrev pub status_value : RequestStatus → String
status_value RequestStatus.pending = "pending"
status_value RequestStatus.approved = "approved"
status_value RequestStatus.denied = "denied"

abbrev pub direction_value : Direction → String
direction_value inbound = "inbound"
direction_value outbound = "outbound"

abbrev pub action_status_value : ActionStatus → String
action_status_value ActionStatus.ok = "ok"
action_status_value ActionStatus.failed = "failed"
action_status_value ActionStatus.denied = "denied"
