-- ===== src/Channels/Email.antt =====
-- app/channels/email.py: which mail is read, and what becomes of it. The mailbox is a list of messages;
-- parsing them, the answers of the mail server and the turn itself are parameters.
pub mod Untouched
pub mod Attempts
use channel_agent.Prelude.{
  ℕ, zero, ◌+◌, ◌&&◌, ◌||◌, not, Bool, true, false, Option, none, some, List, [], ◌∷◌, ◌++◌, any,
  all, map, update, first, delete, ◌==◌, ltb, leb, if◌then◌else◌, Codes, codes, is_nil, is_infix,
  lstrip_codes, strip_codes,
}
use channel_agent.Channels.Dispatch.{DispatchOutcome, failed, undelivered}

-- A message of the INBOX or of a folder, as it is read.
pub record Mail : Type 0 where
  pub uid : ℕ
  pub subject : Codes
  pub from_addr : Codes
  pub body : Codes
  pub is_automated : Bool
  pub seen : Bool
  pub folder : Option Codes

-- How a STORE ends: OK, another answer, which the code does not look at, or an error.
pub data StoreEnd : Type 0 where
  stored not_stored store_raises : StoreEnd

-- What the mail server answers, and `str.lower`. `search` is SEARCH UNSEEN SUBJECT, `none` when it is
-- not OK.
pub record Server : Type 0 where
  pub lower : Codes → Codes
  pub opens : Bool
  pub search : Codes → List Mail → Option (List ℕ)
  pub fetches : ℕ → Bool
  pub stores : ℕ → StoreEnd
  pub has_folder : Codes → Bool
  pub has_move : Bool
  pub has_uidplus : Bool
  pub moves : ℕ → Bool

abbrev is_some : Option Codes → Bool
is_some none = false
is_some (some f) = true

abbrev is_ascii : Codes → Bool
is_ascii s = all (λ c. ltb c 128) s

-- `_tag_is_usable`
unfoldable pub tag_is_usable : Codes → Bool
unfolding lstrip_codes
tag_is_usable tag =
    not (is_nil (strip_codes tag)) && is_ascii tag && not (any (λ c. c == b'"' || c == b'\\') tag)

-- `_folder_is_usable`
unfoldable pub folder_is_usable : Codes → Bool
unfolding lstrip_codes
folder_is_usable folder =
    is_nil (strip_codes folder)
    || (is_ascii folder
        && not (any (λ c. c == b'"' || c == b'\\' || c == b'*' || c == b'%') folder))

abbrev failed_suffix : Codes
failed_suffix = codes ".Failed"

-- `failed_folder`
unfoldable pub failed_folder : Codes → Codes
unfolding lstrip_codes
failed_folder folder =
    if is_nil (strip_codes folder) then [] else strip_codes folder ++ failed_suffix

-- What is done with a message that the search gave: it is skipped, filed, or read for a turn.
pub data Found : Type 0 where
  skipped to_file : Found
  to_answer : Mail → Found

-- The message of the INBOX with this UID.
abbrev pub is_uid : ℕ → Mail → Bool
is_uid uid m = m.uid == uid && not (is_some m.folder)

-- A message after a STORE that set the flag or did not, and a move or none.
abbrev pub filed : Bool → Codes → Mail → Mail
filed flagged folder m = record m { seen = flagged || m.seen; folder = some folder }

abbrev pub marked : Bool → Mail → Mail
marked flagged m = record m { seen = flagged || m.seen }

module _ (server : Server) where
  -- `_subject_has_tag`
  unfoldable pub subject_has_tag : Codes → Codes → Bool
  unfolding tag_is_usable is_infix
  subject_has_tag subject tag =
      tag_is_usable tag && is_infix (server.lower tag) (server.lower subject)

  -- `_move_message`: MOVE, or COPY and the removal of this message.
  abbrev pub can_move : ℕ → Bool
  can_move uid =
      if server.has_move then server.moves uid else server.has_uidplus && server.moves uid

  -- What follows the STORE; a move that fails leaves the message in the INBOX.
  abbrev pub moved_or_left : Bool → ℕ → Codes → List Mail → List Mail
  moved_or_left flagged uid folder mails =
      if not (is_nil folder) && server.has_folder folder && can_move uid
      then update (is_uid uid) (filed flagged folder) mails
      else update (is_uid uid) (marked flagged) mails

  abbrev pub after_store : ℕ → Codes → List Mail → StoreEnd → Bool × List Mail
  after_store uid folder mails stored = (true, moved_or_left true uid folder mails)
  after_store uid folder mails not_stored = (true, moved_or_left false uid folder mails)
  after_store uid folder mails store_raises = (false, mails)

  -- `_mark_seen_and_file`: whether the STORE was answered, and the mailbox.
  unfoldable pub mark_seen_and_file : ℕ → Codes → List Mail → Bool × List Mail
  mark_seen_and_file uid folder mails = after_store uid folder mails (server.stores uid)

  abbrev pub usable_folder : Codes → Codes
  usable_folder folder = if folder_is_usable folder then strip_codes folder else []

  abbrev pub judged : Codes → ℕ → Option Mail → Found
  judged tag uid none = skipped
  judged tag uid (some m) =
      if not (server.fetches uid) || not (subject_has_tag m.subject tag)
      then skipped
      else if m.is_automated
      then to_file
      else if not (is_nil m.from_addr) && not (is_nil (strip_codes m.body))
      then to_answer m
      else to_file

  abbrev pub after_file :
      (List Mail → List Mail × Option (List Mail))
      → Bool × List Mail
      → List Mail × Option (List Mail)
  after_file next (true, mails) = next mails
  after_file next (false, mails) = (mails, none)

  abbrev pub also : Mail → List Mail × Option (List Mail) → List Mail × Option (List Mail)
  also m (mails, none) = (mails, none)
  also m (mails, some found) = (mails, some (m ∷ found))

  -- One message that was found, then the others by `next`.
  abbrev pub read_one :
      (List Mail → List Mail × Option (List Mail))
      → Codes
      → ℕ
      → List Mail
      → Found
      → List Mail × Option (List Mail)
  read_one next folder uid mails skipped = next mails
  read_one next folder uid mails to_file = after_file next (mark_seen_and_file uid folder mails)
  read_one next folder uid mails (to_answer m) = also m (next mails)

  -- The mailbox, and the messages to answer; `none` when a STORE raises.
  unfoldable pub read_each : Codes → Codes → List ℕ → List Mail → List Mail × Option (List Mail)
  unfolding subject_has_tag mark_seen_and_file lstrip_codes
  read_each tag folder [] mails = (mails, some [])
  read_each tag folder (uid ∷ uids) mails =
      read_one (λ ms. read_each tag folder uids ms) folder uid mails
        (judged tag uid (first (is_uid uid) mails))

  abbrev pub read_found :
      Codes → Codes → List Mail → Option (List ℕ) → List Mail × Option (List Mail)
  read_found tag folder mails none = (mails, some [])
  read_found tag folder mails (some uids) = read_each tag folder uids mails

  -- `_fetch_tagged_unseen`
  unfoldable pub fetch_tagged_unseen : Codes → Codes → List Mail → List Mail × Option (List Mail)
  unfolding read_each tag_is_usable folder_is_usable lstrip_codes
  fetch_tagged_unseen tag folder mails =
      if not (tag_is_usable tag)
      then (mails, some [])
      else if not server.opens
      then (mails, none)
      else read_found tag (usable_folder folder) mails (server.search tag mails)

  -- `_finalize_message`, whose errors are logged
  unfoldable pub finalize_message : ℕ → Codes → List Mail → List Mail
  unfolding mark_seen_and_file folder_is_usable lstrip_codes
  finalize_message uid folder mails =
      if not server.opens then mails else (mark_seen_and_file uid (usable_folder folder) mails).1

-- `_attempts`
abbrev pub Attempts : Type 0
Attempts = List (ℕ × ℕ)

abbrev same_uid : ℕ → ℕ × ℕ → Bool
same_uid uid entry = entry.0 == uid

abbrev count_or_zero : Option (ℕ × ℕ) → ℕ
count_or_zero none = 0
count_or_zero (some entry) = entry.1

-- `_attempts.get(uid, 0)`, `_attempts[uid] = n` and `_attempts.pop(uid, None)`
unfoldable pub attempts_of : ℕ → Attempts → ℕ
attempts_of uid attempts = count_or_zero (first (same_uid uid) attempts)

unfoldable pub pop_attempts : ℕ → Attempts → Attempts
pop_attempts uid attempts = delete (same_uid uid) attempts

unfoldable pub set_attempts : ℕ → ℕ → Attempts → Attempts
set_attempts uid n attempts = (uid, n) ∷ delete (same_uid uid) attempts

abbrev pub max_attempts : ℕ
max_attempts = 3

-- The mailbox, the counts, and what the turns read and write.
pub record Inbox {ℓ} (S : Type ℓ) : Type ℓ where
  pub mails : List Mail
  pub attempts : Attempts
  pub world : S

module _ {ℓ} {S : Type ℓ} (server : Server)
    (dispatch : S → Mail → Bool → S × Option DispatchOutcome) where
  -- Whether the message is tried again; `none` is an exception.
  abbrev pub is_failure : Option DispatchOutcome → Bool
  is_failure none = true
  is_failure (some failed) = true
  is_failure (some undelivered) = true
  is_failure (some outcome) = false

  abbrev pub closed : Mail → Codes → Inbox S → Inbox S
  closed m target box = record box {
    mails = finalize_message server m.uid target box.mails;
    attempts = pop_attempts m.uid box.attempts;
  }

  -- One message of a poll, after its turn.
  abbrev pub concluded : Codes → Mail → Inbox S → Bool → Inbox S
  concluded folder m box false = closed m folder box
  concluded folder m box true =
      let tried = attempts_of m.uid box.attempts + 1 in
      if ltb tried max_attempts
      then record box { attempts = set_attempts m.uid tried box.attempts }
      else closed m (failed_folder folder) box

  unfoldable pub handle : Codes → Inbox S → Mail → Inbox S
  unfolding finalize_message attempts_of pop_attempts set_attempts failed_folder
  handle folder box m =
      let retry = not (attempts_of m.uid box.attempts == 0) in
      let (world', outcome) = dispatch box.world m retry in
      concluded folder m (record box { world = world' }) (is_failure outcome)

  unfoldable pub handle_all : Codes → Inbox S → List Mail → Inbox S
  unfolding handle
  handle_all folder box [] = box
  handle_all folder box (m ∷ ms) = handle_all folder (handle folder box m) ms

  abbrev pub polled : Codes → Inbox S → List Mail × Option (List Mail) → Inbox S
  polled folder box (mails, none) = record box { mails = mails }
  polled folder box (mails, some found) = handle_all folder (record box { mails = mails }) found

  -- `_poll_once`; its errors are logged by the loop
  unfoldable pub poll_once : Codes → Codes → Inbox S → Inbox S
  unfolding handle_all fetch_tagged_unseen
  poll_once tag folder box = polled folder box (fetch_tagged_unseen server tag folder box.mails)
