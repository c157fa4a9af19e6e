-- ===== src/Api/Protect/Limits.antt =====
-- app/api/protect.py: what reaches the application, and what it may still say.
use channel_agent.Prelude.{
  ℕ, ◌≡◌, refl, ◌∙◌, ◌⊎◌, inl, inr, ◌+◌, ◌-◌, ◌≤◌, ◌<◌, not, Bool, true, false, Option, none, some,
  List, [], ◌∷◌, length, ltb, Codes, Bool-cases, if_both, arith,
}
use channel_agent.Outbound.{NetLibrary}
use channel_agent.Api.Protect.{
  Message, part, gone, App, receives, sends, returns, raises, times_out, reply, Headers, Settings,
  Handled, allowed_hosts, host_name, is_member, Count, End, returned, raised, timed_out, Run,
  counted_receive, started_by, run_app, after_run, no_count, origin_allowed, with_size, with_origin,
  protect, next_message, later, is_over,
}

-- The bytes of the body in some messages.
abbrev pub bodies : List Message → ℕ
bodies [] = 0
bodies (part bytes ∷ ms) = length bytes + bodies ms
bodies (gone ∷ ms) = bodies ms

counted_receive-bodies :
    (limit : ℕ) (n : Count) (m : Message) (k : ℕ)
    → k ≤ limit - (counted_receive limit n m).1.received
    → bodies ((counted_receive limit n m).0 ∷ []) + k ≤ limit - n.received
counted_receive-bodies limit n gone k h = omega (arith, h)
counted_receive-bodies limit n (part bytes) k h =
    elim (Bool-cases (ltb limit (n.received + length bytes))) [
      | inl over ↦ ground (arith, h, over)
      | inr under ↦ ground (arith, h, under)
    ]

bodies_cons : (m : Message) (ms : List Message) → bodies (m ∷ ms) ≡ bodies (m ∷ []) + bodies ms
bodies_cons gone ms = omega arith
bodies_cons (part bytes) ms = omega arith

-- What the application is given of the body is within what the limit leaves.
run_app-bodies :
    (limit : ℕ) (app : App) (client : List Message) (n : Count)
    → bodies (run_app limit app client n).delivered ≤ limit - n.received
unfolding run_app
run_app-bodies limit returns client n = omega arith
run_app-bodies limit raises client n = omega arith
run_app-bodies limit times_out client n = omega arith
run_app-bodies limit (receives k) client n =
    let c = counted_receive limit n (next_message client) in
    let rest = run_app-bodies limit (k c.0) (later client) c.1 in
    let head = bodies_cons c.0 (run_app limit (k c.0) (later client) c.1).delivered in
    let within =
      counted_receive-bodies limit n (next_message client)
        (bodies (run_app limit (k c.0) (later client) c.1).delivered) rest in
    omega (arith, head, within)
run_app-bodies limit (sends a app) client n =
    if_both (λ (r : Run). bodies r.delivered ≤ limit - n.received) n.too_large
      (λ over. run_app-bodies limit app client n)
      (λ under. run_app-bodies limit app client (started_by a n))

-- Once the limit is passed nothing of the application is sent.
counted_receive-too_large :
    (limit : ℕ) (n : Count) (m : Message)
    → n.too_large ≡ true
    → (counted_receive limit n m).1.too_large ≡ true
counted_receive-too_large limit n gone h = h
counted_receive-too_large limit n (part bytes) h =
    if_both (λ (c : Message × Count). c.1.too_large ≡ true) (ltb limit (n.received + length bytes))
      (λ over. refl) (λ under. h)

counted_receive-started :
    (limit : ℕ) (n : Count) (m : Message) → (counted_receive limit n m).1.started ≡ n.started
counted_receive-started limit n gone = refl
counted_receive-started limit n (part bytes) =
    if_both (λ (c : Message × Count). c.1.started ≡ n.started)
      (ltb limit (n.received + length bytes)) (λ over. refl) (λ under. refl)

-- A run after the limit was passed: nothing is sent, and nothing more is known.
abbrev IsMuted : Count → Run → Type 0
IsMuted n r = (r.sent ≡ []) × (r.count.started ≡ n.started) × (r.count.too_large ≡ true)

run_app-IsMuted :
    (limit : ℕ) (app : App) (client : List Message) (n : Count)
    → n.too_large ≡ true
    → IsMuted n (run_app limit app client n)
unfolding run_app
run_app-IsMuted limit returns client n h = (refl, refl, h)
run_app-IsMuted limit raises client n h = (refl, refl, h)
run_app-IsMuted limit times_out client n h = (refl, refl, h)
run_app-IsMuted limit (receives k) client n h =
    let m = next_message client in
    let c = counted_receive limit n m in
    let rest =
      run_app-IsMuted limit (k c.0) (later client) c.1 (counted_receive-too_large limit n m h) in
    (rest.0, rest.1 ∙ counted_receive-started limit n m, rest.2)
run_app-IsMuted limit (sends a app) client n h =
    if_both (IsMuted n) n.too_large (λ over. run_app-IsMuted limit app client n h)
      (λ under. ground (arith, h, under))

-- A first part of the body over the limit.
run_app-over :
    (limit : ℕ) (k : Message → App) (bytes : List ℕ) (client : List Message)
    → limit < length bytes
    → (let r = run_app limit (receives k) (part bytes ∷ client) no_count in
        IsMuted no_count r × (bodies r.delivered ≡ 0))
unfolding run_app
run_app-over limit k bytes client large =
    let n : Count = record { received = 0 + length bytes; too_large = true; started = false } in
    let over : ltb limit (0 + length bytes) ≡ true = ground (arith, large) in
    let within = run_app-bodies limit (k gone) client n in
    rw over (run_app-IsMuted limit (k gone) client n refl, omega (arith, within, large))

after_run-bodies : (r : Run) (e : End) → bodies (after_run r e).delivered ≡ bodies r.delivered
after_run-bodies r timed_out = refl
after_run-bodies r returned = refl
after_run-bodies r raised =
    if_both (λ (h : Handled). bodies h.delivered ≡ bodies r.delivered) (not r.count.too_large)
      (λ small. refl) (λ large. refl)

after_run-too_large :
    (r : Run) (e : End)
    → r.count.too_large ≡ true
    → r.count.started ≡ false
    → r.sent ≡ []
    → ((after_run r e).sent ≡ reply 413 ∷ []) ⊎ ((after_run r e).sent ≡ reply 504 ∷ [])
after_run-too_large r timed_out large fresh silent = inr rw (fresh, silent) refl
after_run-too_large r returned large fresh silent = inl rw (large, fresh, silent) refl
after_run-too_large r raised large fresh silent = inl rw (large, fresh, silent) refl

module _ (lib : NetLibrary) (settings : Settings) (headers : Headers) where
  -- The hosts that may be named.
  abbrev hosts : List Codes
  hosts = allowed_hosts lib settings

  -- What a request comes to: it is answered for the application, or within the limits it reaches it.
  abbrev pub IsProtected : Handled → Type 0
  IsProtected result =
      (bodies result.delivered ≤ settings.max_body_bytes)
      × (result.delivered ≡ []
          ⊎ (is_member lib (host_name lib headers.host) hosts ≡ true)
            × (origin_allowed lib settings headers headers.origin ≡ some true))

  with_size-bodies :
      (app : App) (client : List Message) (o : Option Bool)
      → bodies (with_size lib settings headers app client o).delivered ≤ settings.max_body_bytes
  with_size-bodies app client none = omega arith
  with_size-bodies app client (some true) = omega arith
  with_size-bodies app client (some false) =
      let r = run_app settings.max_body_bytes app client no_count in
      omega (
        arith,
        after_run-bodies r r.end,
        run_app-bodies settings.max_body_bytes app client no_count,
      )

  with_origin-IsProtected :
      (app : App) (client : List Message) (o : Option Bool)
      → is_member lib (host_name lib headers.host) hosts ≡ true
      → origin_allowed lib settings headers headers.origin ≡ o
      → IsProtected (with_origin lib settings headers app client o)
  with_origin-IsProtected app client none host e = (omega arith, inl refl)
  with_origin-IsProtected app client (some false) host e = (omega arith, inl refl)
  with_origin-IsProtected app client (some true) host e = (
    with_size-bodies app client (is_over settings.max_body_bytes headers.content_length),
    inr (host, e),
  )

  -- Whatever the application does and the client sends, no more of a body than the limit reaches
  -- the application, and nothing at all unless the host is an allowed one and the origin is
  -- allowed.
  pub protect-IsProtected :
      (app : App) (client : List Message) → IsProtected (protect lib settings headers app client)
  unfolding protect
  protect-IsProtected app client =
      if_both IsProtected (not (is_member lib (host_name lib headers.host) hosts))
        (λ other. (omega arith, inl refl))
        (λ known.
          with_origin-IsProtected app client (origin_allowed lib settings headers headers.origin)
            (ground (arith, known)) refl)

  -- A request from an allowed host and origin that declares no size over the limit, and whose
  -- first part is over it: the application gets nothing of the body, and the client gets one
  -- answer, 413, or 504 if the application then takes too long. The application reads before it
  -- answers.
  pub protect-too_large :
      (k : Message → App) (bytes : List ℕ) (client : List Message)
      → is_member lib (host_name lib headers.host) hosts ≡ true
      → origin_allowed lib settings headers headers.origin ≡ some true
      → is_over settings.max_body_bytes headers.content_length ≡ some false
      → settings.max_body_bytes < length bytes
      → (let result = protect lib settings headers (receives k) (part bytes ∷ client) in
          (bodies result.delivered ≡ 0)
          × (result.sent ≡ reply 413 ∷ [] ⊎ result.sent ≡ reply 504 ∷ []))
  unfolding protect
  protect-too_large k bytes client known ours undeclared large =
      let limit = settings.max_body_bytes in
      let r = run_app limit (receives k) (part bytes ∷ client) no_count in
      let muted = run_app-over limit k bytes client large in
      rw (known, ours, undeclared)
        (
          after_run-bodies r r.end ∙ muted.1,
          after_run-too_large r r.end muted.0.2 muted.0.1 muted.0.0,
        )
