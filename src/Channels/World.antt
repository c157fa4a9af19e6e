-- ===== src/Channels/World.antt =====
-- What a message does outside the database, and when the database is committed (app/channels/
-- schema.py, app/channels/notify.py). A transaction that is not committed is lost.
use Prim.Native.String
use Prim.Native.String.{count}
use Prim.Native.Char.{code}
use channel_agent.Prelude.{
  shortened, ℕ, String, ◌&&◌, ◌+◌, Bool, true, false, Option, none, some, List, [], ◌∷◌, ◌++◌,
  select, first, strip, ltb, ◌==◌, if◌then◌else◌,
}
use channel_agent.Exec.{Exec, reply_failed, pure, gets, modify, raise_if, ◌>>=◌, ◌>>◌}
use channel_agent.Model.{Database, Channel, User, ChannelIdentity, AccessRequest, PermissionKind}
use channel_agent.Auth.{has_user_id, holds}

-- The text of `describe_request`, by the values in it.
pub record Notice : Type 0 where
  pub request_id : ℕ
  pub channel : Channel
  pub external_id : String
  pub quoted : String

pub data Effect : Type 0 where
  -- the model is asked to answer: the agent, the text, and whether it is a retry
  turn : ℕ → String → Bool → Effect
  -- a reply on the sender's channel, and whether it was delivered
  replied : Channel → String → String → Bool → Effect
  -- a message to an administrator, and whether it was delivered
  notified : Channel → String → Notice → Bool → Effect

pub record World : Type 0 where
  -- what is committed
  pub stored : Database
  -- what the session sees
  pub work : Database
  pub effects : List Effect

-- `delivers text` says whether the channel accepts `reply(text)`; a refusal is an exception.
pub record NormalizedEvent : Type 0 where
  pub user_id : String
  pub channel : Channel
  pub text : String
  pub delivers : String → Bool

-- The sender of a channel, where one is registered: whether it delivers to this identity.
abbrev pub Senders : Type 0
Senders = Channel → Option (String → Notice → Bool)

abbrev pub on_database : {A : Type 0} → Exec Database A → Exec World A
on_database m w = let (r, db) = m w.work in (r, record w { work = db })

abbrev pub commit : Exec World (Unit {0})
commit = modify (λ w. record w { stored = w.work })

abbrev pub emit : Effect → Exec World (Unit {0})
emit e = modify (λ w. record w { effects = w.effects ++ e ∷ [] })

-- `try: await event.reply(text)`: whether it went through.
abbrev pub try_reply : NormalizedEvent → String → Exec World Bool
try_reply event text = do
  emit (replied event.channel event.user_id text (event.delivers text))
  pure (event.delivers text)

-- `await event.reply(text)` with no handler around it
abbrev pub reply : NormalizedEvent → String → Exec World (Unit {0})
reply event text = do
  emit (replied event.channel event.user_id text (event.delivers text))
  raise_if (if event.delivers text then false else true) reply_failed

abbrev pub max_quoted_message : ℕ
max_quoted_message = 200

-- `.replace("\n", " ")`
spaced : String → String
spaced String.[] = ""
spaced (String.◌∷◌ c s) =
    if code c == 10 then String.◌++◌ " " (spaced s) else String.◌∷◌ c (spaced s)

unfoldable pub describe_request : AccessRequest → Notice
unfolding spaced
describe_request r =
    let quoted = spaced (strip r.first_message_text) in
    record {
      request_id = r.id;
      channel = r.channel;
      external_id = r.external_id;
      quoted =
          if ltb max_quoted_message (count quoted)
          then String.◌++◌ (shortened max_quoted_message quoted) "..."
          else quoted;
    }

-- PermissionKind.ADMIN, User.is_active
abbrev is_active_user : Option User → Bool
is_active_user none = false
is_active_user (some u) = u.is_active

abbrev pub is_active_admin : Database → ChannelIdentity → Bool
is_active_admin db i =
    holds i.id PermissionKind.admin db.permissions
    && is_active_user (first (has_user_id i.user_id) db.users)

abbrev pub notify_one : Option (String → Notice → Bool) → ChannelIdentity → Notice → Exec World ℕ
notify_one none i n = pure 0
notify_one (some sender) i n = do
  emit (notified i.channel i.external_id n (sender i.external_id n))
  pure (if sender i.external_id n then 1 else 0)

-- The loop of `notify_admins`: a sender that fails is skipped.
unfoldable pub notify_all : Senders → List ChannelIdentity → Notice → Exec World ℕ
notify_all senders [] n = pure 0
notify_all senders (i ∷ rest) n = do
  one ← notify_one (senders i.channel) i n
  others ← notify_all senders rest n
  pure (one + others)

unfoldable pub notify_admins : Senders → Notice → Exec World ℕ
unfolding notify_all
notify_admins senders n = do
  admins ← gets (λ w. select (is_active_admin w.work) w.work.identities)
  notify_all senders admins n
