-- ===== src/Api/Protect.antt =====
-- app/api/protect.py: what stands before the application. The application is what it does next: it
-- reads a message and goes on by it, it sends, or it ends. `urlsplit` and `str.lower` are parameters.
pub mod Limits
use channel_agent.Prelude.{
  ℕ, zero, ◌+◌, ◌-◌, ◌*◌, ◌&&◌, ◌||◌, not, Bool, true, false, Option, none, some, List, [], ◌∷◌,
  ◌++◌, any, all, map, length, select, ◌==◌, ltb, leb, if◌then◌else◌, Codes, codes, is_digit,
  is_nil, same_codes, lstrip_codes, strip_codes, partition, pieces,
}
use channel_agent.Outbound.{NetLibrary, Parts}

-- A message of the client: a part of the body, or that it went away.
pub data Message : Type 0 where
  part : List ℕ → Message
  gone : Message

pub data Answer : Type 0 where
  begin : ℕ → Answer
  body : List ℕ → Answer

pub data App : Type 0 where
  receives : (Message → App) → App
  sends : Answer → App → App
  returns raises times_out : App

-- What the client gets: what the application sent, or the answer of the protection.
pub data Sent : Type 0 where
  passed : Answer → Sent
  reply : ℕ → Sent

pub record Headers : Type 0 where
  pub host : Codes
  pub origin : Option Codes
  pub content_length : Option Codes
  pub changes_state : Bool

pub record Settings : Type 0 where
  pub allowed_hosts : Codes
  pub max_body_bytes : ℕ

-- The messages that reached the application, what the client got, and whether an error was raised.
pub record Handled : Type 0 where
  pub delivered : List Message
  pub sent : List Sent
  pub raised : Bool

abbrev first_piece : Codes → Option (Codes × Codes) → Codes
first_piece value none = value
first_piece value (some (a, b)) = a

abbrev colons : Codes → ℕ
colons value = length (select (λ c. c == b':') value)

abbrev bare : Codes → Codes
bare [] = []
bare (c ∷ rest) =
    if c == b'['
    then first_piece rest (partition b']' rest)
    else if colons (c ∷ rest) == 1
    then first_piece (c ∷ rest) (partition b':' (c ∷ rest))
    else c ∷ rest

abbrev default_hosts : List Codes
default_hosts = codes "localhost" ∷ codes "127.0.0.1" ∷ codes "::1" ∷ []

abbrev or_default : List Codes → List Codes
or_default [] = default_hosts
or_default (h ∷ hs) = h ∷ hs

-- `int(declared)` of a text of digits
unfoldable pub number : ℕ → Codes → ℕ
number n [] = n
number n (c ∷ s) = number (10 * n + (c - 48)) s

-- `str.isdigit` of a character of a header, which is read as Latin-1: the superscripts one, two and
-- three are digits too.
abbrev pub is_digit_like : ℕ → Bool
is_digit_like c = is_digit c || c == 0xB9 || c == 0xB2 || c == 0xB3

-- `declared.isdigit()`
abbrev pub is_declared : Codes → Bool
is_declared declared = not (is_nil declared) && all is_digit_like declared

-- `int(declared)`; `none` is its ValueError, for a superscript or more than 4300 digits.
abbrev pub int : Codes → Option ℕ
int declared =
    if all is_digit declared && leb (length declared) 4300 then some (number 0 declared) else none

abbrev over_or_raises : ℕ → Option ℕ → Option Bool
over_or_raises limit none = none
over_or_raises limit (some n) = some (ltb limit n)

-- Whether the declared size is over the limit; `none` where reading it raises.
abbrev pub is_over : ℕ → Option Codes → Option Bool
is_over limit none = some false
is_over limit (some declared) =
    if is_declared declared then over_or_raises limit (int declared) else some false

module _ (lib : NetLibrary) where
  -- `allowed_hosts`
  unfoldable pub allowed_hosts : Settings → List Codes
  unfolding pieces lstrip_codes select
  allowed_hosts settings = or_default (
      map (λ h. lib.lower (strip_codes h))
        (select (λ h. not (is_nil (strip_codes h))) (pieces b',' settings.allowed_hosts)))

  -- `_host_name`
  unfoldable pub host_name : Codes → Codes
  unfolding partition lstrip_codes select
  host_name value = bare (lib.lower (strip_codes value))

  abbrev pub is_member : Codes → List Codes → Bool
  is_member host hosts = any (same_codes host) hosts

  -- The host of the Origin header; `none` where `urlsplit` raises.
  abbrev pub origin_host : Codes → Option Codes
  origin_host origin = elim (lib.urlsplit origin) [
    | none ↦ none
    | some parts ↦ some (lib.lower parts.hostname)
  ]

-- The state of one request: the bytes counted, whether they passed the limit, and whether an answer
-- has begun.
pub record Count : Type 0 where
  pub received : ℕ
  pub too_large : Bool
  pub started : Bool

abbrev pub no_count : Count
no_count = record { received = 0; too_large = false; started = false }

-- How the application ended, with what it was given, what it sent and the state.
pub data End : Type 0 where
  returned raised timed_out : End

pub record Run : Type 0 where
  pub delivered : List Message
  pub sent : List Sent
  pub count : Count
  pub end : End

-- `counted_receive`
abbrev pub counted_receive : ℕ → Count → Message → Message × Count
counted_receive limit n gone = (gone, n)
counted_receive limit n (part bytes) =
    let now = n.received + length bytes in
    if ltb limit now
    then (gone, record n { received = now; too_large = true })
    else (part bytes, record n { received = now })

abbrev pub is_start : Answer → Bool
is_start (begin status) = true
is_start (body bytes) = false

abbrev pub next_message : List Message → Message
next_message [] = gone
next_message (m ∷ ms) = m

abbrev pub later : List Message → List Message
later [] = []
later (m ∷ ms) = ms

abbrev pub delivering : Message → Run → Run
delivering m r = record r { delivered = m ∷ r.delivered }

abbrev pub sending : Answer → Run → Run
sending a r = record r { sent = passed a ∷ r.sent }

-- `tracked_send`
abbrev pub started_by : Answer → Count → Count
started_by a n = record n { started = n.started || is_start a }

abbrev pub ended : Count → End → Run
ended n e = record { delivered = []; sent = []; count = n; end = e }

unfoldable pub run_app : ℕ → App → List Message → Count → Run
run_app limit returns client n = ended n returned
run_app limit raises client n = ended n raised
run_app limit times_out client n = ended n timed_out
run_app limit (receives k) client n =
    let (m, n') = counted_receive limit n (next_message client) in
    delivering m (run_app limit (k m) (later client) n')
run_app limit (sends a app) client n =
    let dropped = run_app limit app client n in
    let sent = sending a (run_app limit app client (started_by a n)) in
    if n.too_large then dropped else sent

abbrev pub also_reply : Bool → ℕ → Run → Handled
also_reply replies status r = record {
  delivered = r.delivered;
  sent = if replies then r.sent ++ reply status ∷ [] else r.sent;
  raised = false;
}

-- What follows the run.
abbrev pub after_run : Run → End → Handled
after_run r timed_out = also_reply (not r.count.started) 504 r
after_run r returned = also_reply (r.count.too_large && not r.count.started) 413 r
after_run r raised =
    if not r.count.too_large
    then record { delivered = r.delivered; sent = r.sent; raised = true }
    else also_reply (not r.count.started) 413 r

abbrev pub finish : Run → Handled
finish r = after_run r r.end

abbrev pub refuse : ℕ → Handled
refuse status = record { delivered = []; sent = reply status ∷ []; raised = false }

module _ (lib : NetLibrary) (settings : Settings) (headers : Headers) where
  -- Whether the Origin is one of the hosts; `none` where reading it raises.
  abbrev pub origin_allowed : Option Codes → Option Bool
  origin_allowed none = some true
  origin_allowed (some origin) =
      if not headers.changes_state then some true else elim (origin_host lib origin) [
        | none ↦ none
        | some host ↦ some (is_member lib host (allowed_hosts lib settings))
      ]

  abbrev pub with_size : App → List Message → Option Bool → Handled
  with_size app client none = record { delivered = []; sent = []; raised = true }
  with_size app client (some true) = refuse 413
  with_size app client (some false) = finish (run_app settings.max_body_bytes app client no_count)

  abbrev pub sized : App → List Message → Handled
  sized app client = with_size app client (is_over settings.max_body_bytes headers.content_length)

  abbrev pub with_origin : App → List Message → Option Bool → Handled
  with_origin app client none = record { delivered = []; sent = []; raised = true }
  with_origin app client (some false) = refuse 403
  with_origin app client (some true) = sized app client

  -- `ProtectMiddleware.__call__`, for a request
  unfoldable pub protect : App → List Message → Handled
  unfolding allowed_hosts host_name run_app number same_codes
  protect app client =
      if not (is_member lib (host_name lib headers.host) (allowed_hosts lib settings))
      then refuse 421
      else with_origin app client (origin_allowed headers.origin)
