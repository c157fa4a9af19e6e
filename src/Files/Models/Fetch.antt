-- ===== src/Files/Models/Fetch.antt =====
-- app/admin/models.py, `_fetch`: a GET that follows its redirects by hand, each one through the guard
-- of outbound requests. The server is a function of what it has been sent, and `urljoin` a parameter.
use channel_agent.Prelude.{
  ℕ, zero, suc, ◌≡◌, refl, ◌⊎◌, inl, inr, ◌+◌, ◌≤◌, ◌&&◌, ◌||◌, not, Bool, false, Option, none,
  some, List, [], ◌∷◌, ◌++◌, length, length-append, ◌==◌, if◌then◌else◌, Codes, is_nil, same_codes,
  eq_of_same_codes, All, All-append, if_both, arith,
}
use channel_agent.Outbound.{
  NetLibrary, Guard, Target, OutboundError, Prepared, accepted, rejected, prepare,
}
use channel_agent.Files.Models.{Bytes}

pub record Request : Type 0 where
  pub target : Target
  pub range : Option ℕ
  pub token : Option Codes

-- A header that states a size: what `int` makes of it, or that `int` raises on it. The code reads
-- Content-Length only if `str.isdigit` holds of it; an empty X-Linked-Size is 0, and no hub sends a
-- negative one.
pub data Size : Type 0 where
  bytes : ℕ → Size
  not_a_number : Size

-- An answer: its status, the headers that are read, and its body as it comes. `continues` is what
-- "bytes <first>-<last>/<total>" says, `interrupted` that reading the body fails after the chunks.
pub record Response : Type 0 where
  pub status : ℕ
  pub location : Option Codes
  pub continues : Option (ℕ × ℕ)
  pub content_length : Option Size
  pub linked_etag : Option Codes
  pub linked_size : Option Size
  pub chunks : List Bytes
  pub interrupted : Bool

-- `seen`: the headers of the hub that were on any hop
pub record Seen : Type 0 where
  pub etag : Option Codes
  pub size : Option Size

pub data FetchError : Type 0 where
  not_allowed : OutboundError → FetchError
  no_location too_many_redirects : FetchError

pub data Fetched : Type 0 where
  answered : Response → Seen → Fetched
  not_fetched : FetchError → Fetched

-- What a pull asks with.
pub record Asking : Type 0 where
  pub guard : Guard
  pub token : Option Codes
  pub hub_host : Codes
  pub offset : ℕ
  pub server : List Request → Request → Response
  pub urljoin : Codes → Codes → Codes

abbrev pub max_redirects : ℕ
max_redirects = 5

abbrev pub is_redirect : ℕ → Bool
is_redirect status =
    status == 301 || status == 302 || status == 303 || status == 307 || status == 308

abbrev latest {ℓ} : {A : Type ℓ} → Option A → Option A → Option A
latest none old = old
latest (some new) old = some new

abbrev pub seen_with : Response → Seen → Seen
seen_with r seen = record {
  etag = latest r.linked_etag seen.etag;
  size = latest r.linked_size seen.size;
}

abbrev present : Option Codes → Bool
present none = false
present (some token) = not (is_nil token)

module _ (lib : NetLibrary) (ask : Asking) where
  -- `(urlsplit(url).hostname or "").lower()`
  abbrev pub host_of : Codes → Codes
  host_of url = elim (lib.urlsplit url) [ none ↦ [] | some parts ↦ lib.lower parts.hostname ]

  abbrev pub request_of : Codes → Target → Request
  request_of url target = record {
    target = target;
    range = if ask.offset == 0 then none else some ask.offset;
    token = if present ask.token && same_codes (host_of url) ask.hub_host then ask.token else none;
  }

  -- After an answer: it is the one, or `next` goes on from where it points.
  abbrev after_answer :
      (Codes → Fetched × List Request)
      → Response
      → Seen
      → List Request
      → Option (Option Codes)
      → Fetched × List Request
  after_answer next r seen sent none = (answered r seen, sent)
  after_answer next r seen sent (some none) = (not_fetched no_location, sent)
  after_answer next r seen sent (some (some location)) = next location

  abbrev hop :
      (Codes → Seen → List Request → Fetched × List Request)
      → Codes
      → Seen
      → List Request
      → Prepared Target
      → Fetched × List Request
  hop next url seen sent (rejected e) = (not_fetched (not_allowed e), sent)
  hop next url seen sent (accepted target) =
      let request = request_of url target in
      let r = ask.server sent request in
      after_answer
        (λ location. next (ask.urljoin url location) (seen_with r seen) (sent ++ request ∷ [])) r
        (seen_with r seen) (sent ++ request ∷ [])
        (if is_redirect r.status then some r.location else none)

  -- One hop after another, with the requests sent so far.
  unfoldable pub fetch_hops : ℕ → Codes → Seen → List Request → Fetched × List Request
  unfolding same_codes
  fetch_hops zero url seen sent = (not_fetched too_many_redirects, sent)
  fetch_hops (suc n) url seen sent =
      hop (λ u s rs. fetch_hops n u s rs) url seen sent (prepare lib ask.guard url)

  unfoldable pub fetch : Codes → Fetched × List Request
  unfolding fetch_hops
  fetch url = fetch_hops (suc max_redirects) url (record { etag = none; size = none }) []

  -- A request that the guard let through, with the token only for the host of the hub.
  abbrev pub IsGuarded : Request → Type 0
  IsGuarded request =
      (url : Codes) × (prepare lib ask.guard url ≡ accepted request.target)
      × (request.token ≡ none ⊎ host_of url ≡ ask.hub_host)

module _ (lib : NetLibrary) (ask : Asking) where
  -- The requests after at most so many more hops.
  abbrev pub AreGuarded : ℕ → Fetched × List Request → Type 0
  AreGuarded n result = All (IsGuarded lib ask) result.1 × (length result.1 ≤ n)

  request_of-IsGuarded :
      (url : Codes) (target : Target)
      → prepare lib ask.guard url ≡ accepted target
      → IsGuarded lib ask (request_of lib ask url target)
  request_of-IsGuarded url target h = (
    url,
    h,
    if_both (λ (t : Option Codes). t ≡ none ⊎ host_of lib ask url ≡ ask.hub_host)
        (present ask.token && same_codes (host_of lib ask url) ask.hub_host)
        (λ same. inr (eq_of_same_codes (host_of lib ask url) ask.hub_host (ground (arith, same))))
        (λ other. inl refl),
  )

  after_answer-AreGuarded :
      (n : ℕ) (next : Codes → Fetched × List Request) (r : Response) (seen : Seen)
      (sent : List Request) (o : Option (Option Codes))
      → AreGuarded n (not_fetched no_location, sent)
      → ((l : Codes) → AreGuarded n (next l))
      → AreGuarded n (after_answer lib ask next r seen sent o)
  after_answer-AreGuarded n next r seen sent none h k = h
  after_answer-AreGuarded n next r seen sent (some none) h k = h
  after_answer-AreGuarded n next r seen sent (some (some l)) h k = k l

  hop-AreGuarded :
      (n : ℕ) (next : Codes → Seen → List Request → Fetched × List Request) (url : Codes)
      (seen : Seen) (sent : List Request) (p : Prepared Target)
      → prepare lib ask.guard url ≡ p
      → All (IsGuarded lib ask) sent
      → length sent + 1 ≤ n
      → ((u : Codes) (s : Seen) (rs : List Request)
          → All (IsGuarded lib ask) rs
          → length rs ≡ length sent + 1
          → AreGuarded n (next u s rs))
      → AreGuarded n (hop lib ask next url seen sent p)
  hop-AreGuarded n next url seen sent (rejected e) eq h below k = (h, omega (arith, below))
  hop-AreGuarded n next url seen sent (accepted target) eq h below k =
      let request = request_of lib ask url target in
      let r = ask.server sent request in
      let all =
        All-append (IsGuarded lib ask) sent (request ∷ []) h
          (request_of-IsGuarded url target eq, _) in
      let count = length-append sent (request ∷ []) in
      after_answer-AreGuarded n
        (λ l. next (ask.urljoin url l) (seen_with r seen) (sent ++ request ∷ [])) r
        (seen_with r seen) (sent ++ request ∷ [])
        (if is_redirect r.status then some r.location else none) (all, omega (arith, below, count))
        (λ l. k (ask.urljoin url l) (seen_with r seen) (sent ++ request ∷ []) all count)

  fetch_hops-AreGuarded :
      (n : ℕ) (url : Codes) (seen : Seen) (sent : List Request)
      → All (IsGuarded lib ask) sent
      → AreGuarded (length sent + n) (fetch_hops lib ask n url seen sent)
  unfolding fetch_hops
  fetch_hops-AreGuarded zero url seen sent h = (h, omega arith)
  fetch_hops-AreGuarded (suc n) url seen sent h =
      hop-AreGuarded (length sent + suc n) (λ u s rs. fetch_hops lib ask n u s rs) url seen sent
        (prepare lib ask.guard url) refl h (omega arith)
        (λ u s rs all count.
          let rest = fetch_hops-AreGuarded n u s rs all in (rest.0, omega (arith, rest.1, count)))

  -- One download, with the redirects it follows, sends at most six requests, each to a target that
  -- the guard accepted for its URL, and with the token only if the host of that URL is the hub's.
  pub fetch-AreGuarded : (url : Codes) → AreGuarded (suc max_redirects) (fetch lib ask url)
  unfolding fetch
  fetch-AreGuarded url =
      fetch_hops-AreGuarded (suc max_redirects) url (record { etag = none; size = none }) [] _
