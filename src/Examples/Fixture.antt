-- ===== src/Examples/Fixture.antt =====
-- A database with one user, one telegram identity that may chat, and one agent; and the outside of
-- the program by concrete functions.
use Prim.Native.Nat.{max}
use channel_agent.Prelude.{ℕ, suc, ◌<◌, true, false, none, some, List, [], ◌∷◌, All, arith}
use channel_agent.Env.{Env, EnvLaws}
use channel_agent.Model.{
  Database, Channel, User, ChannelIdentity, Permission, PermissionKind, Agent, AccessRequest,
  RequestStatus, empty,
}
use channel_agent.Channels.World.{World, NormalizedEvent, Senders}

abbrev highest : List ℕ → ℕ
highest [] = 0
highest (i ∷ is) = max i (highest is)

All-below : (n : ℕ) (is : List ℕ) → highest is < n → All (λ i. i < n) is
All-below n [] h = tt
All-below n (i ∷ is) h = (omega arith, All-below n is (omega arith))

instance abbrev pub example_env : Env
example_env = record {
  new_id = λ is. suc (highest is);
  lower = λ s. s;
  repr = λ s. s;
  sha256_hex = λ s. s;
  now = 100;
}

pub example_laws : EnvLaws example_env
example_laws = record { new_id_grows = λ is. All-below (suc (highest is)) is (omega arith) }

abbrev pub ann : User
ann = record { id = 1; display_name = some "Ann"; is_active = true }

abbrev pub ann_identity : ChannelIdentity
ann_identity = record {
  id = 1;
  user_id = 1;
  channel = Channel.telegram;
  external_id = "7";
  raw_address = none;
  active_agent_id = none;
}

abbrev pub ann_chat : Permission
ann_chat = record { id = 1; channel_identity_id = 1; kind = PermissionKind.chat }

abbrev pub ann_agent : Agent
ann_agent = record {
  id = 1;
  user_id = 1;
  name = "default";
  is_active = true;
  system_prompt = none;
  model = none;
  memory_mode = "off";
  tools = [];
}

-- A request of somebody else, which waits.
abbrev pub bob_request : AccessRequest
bob_request = record {
  id = 1;
  channel = Channel.telegram;
  external_id = "8";
  first_message_text = "let me in";
  status = RequestStatus.pending;
  resolved_at = none;
  resolved_by = none;
}

abbrev pub database : Database
database = record empty {
  users = ann ∷ [];
  identities = ann_identity ∷ [];
  permissions = ann_chat ∷ [];
  agents = ann_agent ∷ [];
  requests = bob_request ∷ [];
}

abbrev pub world : World
world = record { stored = database; work = database; effects = [] }

-- A message of Ann's that the channel does not deliver an answer to.
abbrev pub unreachable : NormalizedEvent
unreachable = record {
  user_id = "7";
  channel = Channel.telegram;
  text = "hello";
  delivers = λ _. false;
}

abbrev pub no_senders : Senders
no_senders c = none
