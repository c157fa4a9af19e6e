-- ===== src/Outbound/Safety.antt =====
-- app/security/outbound.py: what holds of a target that the guard accepted.
use channel_agent.Prelude.{
  ℕ, suc, zero, ◌≡◌, refl, sym, ap, ◌∙◌, ◌⊎◌, inl, inr, ◌-◌, if◌then◌else◌, ◌&&◌, ◌||◌, not, true,
  false, Option, none, some, List, [], ◌∷◌, ◌++◌, any, all, length, take, drop, Codes, same_codes,
  eq_of_same_codes, Bool-cases, Option-cases, arith,
}
use channel_agent.Outbound.{
  Address, Parts, NetLibrary, accepted, Target, Guard, is_http, is_https, ends_with, matches_host,
  is_public, host_allowed, addresses_of, choose_address, target_of, literal, port_text,
  prepare_parts, prepare,
}

-- A host of the list, or a name below one.
abbrev pub IsBelow : List Codes → Codes → Type 0
IsBelow [] host = ⊥
IsBelow (h ∷ hosts) host = (host ≡ h) ⊎ ((p : Codes) × (host ≡ p ++ b'.' ∷ h)) ⊎ IsBelow hosts host

take-drop : (n : ℕ) (s : Codes) → take n s ++ drop n s ≡ s
take-drop zero s = refl
take-drop (suc n) [] = refl
take-drop (suc n) (c ∷ s) = ap (λ t. c ∷ t) (take-drop n s)

IsBelow-any :
    (hosts : List Codes) (host : Codes) → any (matches_host host) hosts ≡ true → IsBelow hosts host
IsBelow-any [] host h = cc
IsBelow-any (a ∷ hosts) host h = elim (Bool-cases (same_codes host a)) [
  | inl same ↦ inl (eq_of_same_codes host a same)
  | inr other ↦ elim (Bool-cases (ends_with host (b'.' ∷ a))) [
    | inl below ↦ inr (inl (prefix_of host (b'.' ∷ a) (ground (arith, below))))
    | inr apart ↦ inr (inr (IsBelow-any hosts host (ground (arith, h, other, apart))))
  ]
]
  where
    prefix_of :
        (text suffix : Codes)
        → same_codes (drop (length text - length suffix) text) suffix ≡ true
        → (p : Codes) × (text ≡ p ++ suffix)
    prefix_of text suffix k = (
      take (length text - length suffix) text,
      sym (take-drop (length text - length suffix) text)
          ∙ ap (λ s. take (length text - length suffix) text ++ s) (eq_of_same_codes _ suffix k),
    )

module _ (lib : NetLibrary) where
  -- A target that goes to the first address found for the host, all of which are public unless private
  -- ones are allowed: the URL has that address in the place of the name, which stays in the Host
  -- header and is the name that TLS checks.
  abbrev pub IsPinned : Guard → Parts → Codes → Target → Type 0
  IsPinned guard parts host target =
      (address : Address) × (rest : List Address) × (addresses_of lib guard parts host
        ≡ some (address ∷ rest))
      × ((guard.allow_private ≡ true) ⊎ (all (is_public lib) (address ∷ rest) ≡ true))
      × (target.url
          ≡ lib.with_netloc parts
              (literal lib (lib.show_address address) ++ port_text lib parts.port))
      × (target.host_header ≡ parts.hostname ++ port_text lib parts.port)
      × (target.sni ≡ (if is_https parts.scheme then some host else none))

  -- What the guard promises of an accepted target.
  pub record IsGuarded (guard : Guard) (parts : Parts) (target : Target) : Type 0 where
    pub secure :
        (is_https parts.scheme ≡ true) ⊎ ((is_http parts.scheme ≡ true) × (guard.allow_http ≡ true))
    pub no_credentials : parts.has_credentials ≡ false
    pub listed : IsBelow guard.allowed_hosts (lib.lower (lib.lower parts.hostname))
    pub pinned : IsPinned guard parts (lib.lower parts.hostname) target

  -- The tests that an accepted URL passed.
  record Passed (guard : Guard) (parts : Parts) : Type 0 where
    http_or_https : (is_https parts.scheme || is_http parts.scheme) ≡ true
    plain_allowed : (is_http parts.scheme && not guard.allow_http) ≡ false
    no_user : parts.has_credentials ≡ false
    host_listed : host_allowed lib guard (lib.lower parts.hostname) ≡ true

  passed_lem :
      (guard : Guard) (parts : Parts) (target : Target)
      → prepare_parts lib guard parts ≡ accepted target
      → Passed guard parts
        × (choose_address lib guard parts
              (lib.lower parts.hostname)
              (addresses_of lib guard parts (lib.lower parts.hostname))
            ≡ accepted target)
  unfolding prepare_parts
  passed_lem guard parts target h = (
    record {
      http_or_https = ground (arith, h);
      plain_allowed = ground (arith, h);
      no_user = ground (arith, h);
      host_listed = ground (arith, h);
    },
    ground (arith, h),
  )

  chosen_lem :
      (guard : Guard) (parts : Parts) (target : Target) (host : Codes)
      (found : Option (List Address))
      → choose_address lib guard parts host found ≡ accepted target
      → found ≡ addresses_of lib guard parts host
      → IsPinned guard parts host target
  chosen_lem guard parts target host none h e = cc
  chosen_lem guard parts target host (some []) h e = cc
  chosen_lem guard parts target host (some (a ∷ rest)) h e =
      let same : target_of lib parts host a ≡ target = ground (arith, h) in
      (
        a,
        rest,
        sym e,
        ground (arith, h),
        ap (λ t. t.url) (sym same),
        ap (λ t. t.host_header) (sym same),
        ap (λ t. t.sni) (sym same),
      )

  below_lem :
      (guard : Guard) (host : Codes)
      → host_allowed lib guard host ≡ true
      → IsBelow guard.allowed_hosts (lib.lower host)
  unfolding host_allowed
  below_lem guard host h = IsBelow-any guard.allowed_hosts (lib.lower host) h

  IsGuarded-prepare_parts :
      (guard : Guard) (parts : Parts) (target : Target)
      → prepare_parts lib guard parts ≡ accepted target
      → IsGuarded guard parts target
  IsGuarded-prepare_parts guard parts target h =
      let (p, chosen) = passed_lem guard parts target h in
      record {
        secure = ground (arith, p.http_or_https, p.plain_allowed);
        no_credentials = p.no_user;
        listed = below_lem guard (lib.lower parts.hostname) p.host_listed;
        pinned = chosen_lem guard parts target (lib.lower parts.hostname) _ chosen refl;
      }

  -- A URL that the guard accepts has a scheme that is allowed and no credentials, and its host is
  -- one of the allowed hosts or below one. The target's URL has the first address found for the
  -- host in the place of its name, and all addresses found are public unless private ones are
  -- allowed; the Host header keeps the name, and so does TLS where the scheme is https.
  pub prepare-IsGuarded :
      (guard : Guard) (url : Codes) (target : Target)
      → prepare lib guard url ≡ accepted target
      → (parts : Parts) × (lib.urlsplit url ≡ some parts) × IsGuarded guard parts target
  unfolding prepare
  prepare-IsGuarded guard url target h = elim (Option-cases (lib.urlsplit url)) [
    | inl failed ↦ ground (arith, h, failed)
    | inr (parts, found) ↦
        (parts, found, IsGuarded-prepare_parts guard parts target (ground (arith, h, found)))
  ]
