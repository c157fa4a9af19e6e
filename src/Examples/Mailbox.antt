-- ===== src/Examples/Mailbox.antt =====
-- A mailbox that is shared with other mail, and requests of the Admin API.
use channel_agent.Prelude.{
  ℕ, zero, ◌≡◌, refl, ◌⊎◌, inl, inr, ◌≤◌, ◌<◌, Bool, true, false, Option, none, some, List, [], ◌∷◌,
  ◌++◌, update, first, rstrip_codes, is_white, starts_with, Codes, codes, arith,
}
use channel_agent.Outbound.{NetLibrary}
use channel_agent.Channels.Dispatch.{DispatchOutcome}
use channel_agent.Channels.Email.{
  Mail, Server, Inbox, is_uid, subject_has_tag, poll_once, handle, stored, filed, folder_is_usable,
  attempts_of,
}
use channel_agent.Channels.Email.Untouched.{poll_once-plain}
use channel_agent.Channels.Email.Attempts.{handle-thrice}
use channel_agent.Api.Protect.{
  Message, part, gone, App, receives, sends, returns, Answer, begin, reply, Headers, Settings,
  protect,
}
use channel_agent.Api.Protect.Limits.{bodies, IsProtected, protect-IsProtected, protect-too_large}

abbrev mail : ℕ → Codes → Mail
mail uid subject = record {
  uid = uid;
  subject = subject;
  from_addr = codes "ana@example.org";
  body = codes "hello";
  is_automated = false;
  seen = false;
  folder = none;
}

abbrev invoice : Mail
invoice = mail 1 (codes "invoice")

abbrev question : Mail
question = mail 2 (codes "[agent] hi")

-- The search gives every message, whatever the subject.
abbrev server : Server
server = record {
  lower = λ s. s;
  opens = true;
  search = λ tag mails. some (1 ∷ 2 ∷ []);
  fetches = λ uid. true;
  stores = λ uid. stored;
  has_folder = λ folder. true;
  has_move = true;
  has_uidplus = false;
  moves = λ uid. true;
}

abbrev inbox : Inbox ℕ
inbox = record { mails = invoice ∷ question ∷ []; attempts = []; world = 0 }

abbrev dispatch : ℕ → Mail → Bool → ℕ × Option DispatchOutcome
dispatch world m retry = (world, none)

poll_once-plain_example :
    first (is_uid 1) (poll_once server dispatch (codes "[agent]") (codes "Agent") inbox).mails
    ≡ some invoice
unfolding subject_has_tag first rstrip_codes is_white starts_with
poll_once-plain_example =
    poll_once-plain server dispatch (codes "[agent]") (codes "Agent") inbox 1 invoice refl refl

abbrev once : Inbox ℕ → Inbox ℕ
once box = handle server dispatch (codes "Agent") box question

handle-thrice_example :
    ((once inbox).mails ≡ inbox.mails)
    × ((once (once inbox)).mails ≡ inbox.mails)
    × ((once (once (once inbox))).mails
        ≡ update (is_uid 2) (filed true (codes "Agent.Failed")) inbox.mails)
    × (attempts_of 2 (once (once (once inbox))).attempts ≡ 0)
unfolding attempts_of first rstrip_codes is_white folder_is_usable
handle-thrice_example =
    handle-thrice server dispatch (codes "Agent") question (λ s r. refl) inbox refl refl refl refl
      refl refl refl

abbrev net : NetLibrary
net = record {
  urlsplit = λ url. none;
  lower = λ s. s;
  parse_address = λ s. none;
  show_address = λ a. [];
  show_port = λ n. [];
  with_netloc = λ parts netloc. netloc;
  ipv4_mapped = λ n. none;
  is_global = λ a. true;
  is_multicast = λ a. false;
}

abbrev settings : Settings
settings = record { allowed_hosts = []; max_body_bytes = 2 }

abbrev headers : Headers
headers = record {
  host = codes "localhost:8700";
  origin = none;
  content_length = none;
  changes_state = true;
}

-- It reads a part and answers.
abbrev reader : Message → App
reader m = sends (begin 200) returns

protect-IsProtected_example :
    IsProtected net settings headers
      (protect net settings headers (receives reader) (part (7 ∷ 7 ∷ 7 ∷ []) ∷ []))
protect-IsProtected_example =
    protect-IsProtected net settings headers (receives reader) (part (7 ∷ 7 ∷ 7 ∷ []) ∷ [])

protect-too_large_example :
    (bodies (protect net settings headers (receives reader) (part (7 ∷ 7 ∷ 7 ∷ []) ∷ [])).delivered
      ≡ 0)
    × ((protect net settings headers (receives reader) (part (7 ∷ 7 ∷ 7 ∷ []) ∷ [])).sent
          ≡ reply 413 ∷ []
        ⊎ (protect net settings headers (receives reader) (part (7 ∷ 7 ∷ 7 ∷ []) ∷ [])).sent
          ≡ reply 504 ∷ [])
unfolding channel_agent.Api.Protect.host_name channel_agent.Api.Protect.allowed_hosts rstrip_codes
    channel_agent.Prelude.same_codes is_white
protect-too_large_example =
    protect-too_large net settings headers reader (7 ∷ 7 ∷ 7 ∷ []) [] refl refl refl (omega arith)
