-- ===== src/Outbound.antt =====
-- app/security/outbound.py: what is decided before a request is made on an administrator's say-so.
-- Python's library is a parameter: `urlsplit` and its parts, `ipaddress`, `str.lower` and the printing
-- of an address, of a port and of a URL with another host. So is the resolver of names.
pub mod Safety
use channel_agent.Prelude.{
  ℕ, zero, ◌+◌, ◌*◌, ◌/◌, ◌%◌, String, ◌&&◌, ◌||◌, not, Bool, true, false, Option, none, some, List,
  [], ◌∷◌, ◌++◌, any, all, length, drop, ◌==◌, leb, ◌-◌, if◌then◌else◌, Codes, codes, is_nil,
  same_codes,
}

pub data Address : Type 0 where
  v4 v6 : ℕ → Address

-- The parts of a URL; `bad_port` is the ValueError that reading the port raises.
pub record Parts : Type 0 where
  pub scheme : Codes
  pub hostname : Codes
  pub has_credentials : Bool
  pub port : Option ℕ
  pub bad_port : Bool

pub record NetLibrary : Type 0 where
  pub urlsplit : Codes → Option Parts
  pub lower : Codes → Codes
  pub parse_address : Codes → Option Address
  pub show_address : Address → Codes
  pub show_port : ℕ → Codes
  pub with_netloc : Parts → Codes → Codes
  pub ipv4_mapped : ℕ → Option ℕ
  pub is_global : Address → Bool
  pub is_multicast : Address → Bool

-- `ValueError` is what `urlsplit` and the port raise, the others are an OutboundError.
pub data OutboundError : Type 0 where
  not_http not_https credentials host_not_allowed unresolved not_public : OutboundError
  value_error : OutboundError

pub data Prepared {ℓ} (A : Type ℓ) : Type ℓ where
  accepted : A → Prepared A
  rejected : OutboundError → Prepared A

pub record Target : Type 0 where
  pub url : Codes
  pub host_header : Codes
  pub sni : Option Codes

pub record Guard : Type 0 where
  pub allowed_hosts : List Codes
  pub allow_http : Bool
  pub allow_private : Bool
  pub resolver : Codes → ℕ → Option (List Address)

abbrev two_32 : ℕ
two_32 = 4294967296

-- The first 96 bits of 64:ff9b::/96, and the first 16 of 2002::/16.
abbrev pub is_nat64 : ℕ → Bool
is_nat64 n = n / two_32 == 0x64ff9b0000000000000000

abbrev pub is_six_to_four : ℕ → Bool
is_six_to_four n = n / (two_32 * two_32 * two_32 * 65536) == 0x2002

abbrev pub is_http : Codes → Bool
is_http scheme = same_codes scheme (codes "http")

abbrev pub is_https : Codes → Bool
is_https scheme = same_codes scheme (codes "https")

-- `host.endswith("." + h)`
abbrev pub ends_with : Codes → Codes → Bool
ends_with text suffix =
    leb (length suffix) (length text) && same_codes (drop (length text - length suffix) text) suffix

abbrev pub matches_host : Codes → Codes → Bool
matches_host host h = same_codes host h || ends_with host (b'.' ∷ h)

abbrev or_default : Option ℕ → ℕ → ℕ
or_default none d = d
or_default (some zero) d = d
or_default (some n) d = n

module _ (lib : NetLibrary) where
  abbrev pub is_public_plain : Address → Bool
  is_public_plain a = lib.is_global a && not (lib.is_multicast a)

  -- The IPv4 address that an IPv6 address carries.
  abbrev pub carried : ℕ → Option ℕ
  carried n = elim (lib.ipv4_mapped n) [
    | some m ↦ some m
    | none ↦
        if is_nat64 n
        then some (n % two_32)
        else if is_six_to_four n
        then some (n / (two_32 * two_32 * 65536) % two_32)
        else none
  ]

  abbrev public_or : ℕ → Option ℕ → Bool
  public_or n none = is_public_plain (v6 n)
  public_or n (some m) = is_public_plain (v4 m)

  unfoldable pub is_public : Address → Bool
  is_public (v4 n) = is_public_plain (v4 n)
  is_public (v6 n) = public_or n (carried n)

  unfoldable pub host_allowed : Guard → Codes → Bool
  host_allowed guard host = any (matches_host (lib.lower host)) guard.allowed_hosts

  abbrev pub port_text : Option ℕ → Codes
  port_text none = []
  port_text (some zero) = []
  port_text (some n) = b':' ∷ lib.show_port n

  abbrev pub literal : Codes → Codes
  literal shown = if any (λ c. c == b':') shown then b'[' ∷ shown ++ b']' ∷ [] else shown

  abbrev pub target_of : Parts → Codes → Address → Target
  target_of parts host address = record {
    url = lib.with_netloc parts (literal (lib.show_address address) ++ port_text parts.port);
    host_header = parts.hostname ++ port_text parts.port;
    sni = if is_https parts.scheme then some host else none;
  }

  -- The addresses of a host: its own, if it is one, or what the resolver says.
  abbrev pub addresses_of : Guard → Parts → Codes → Option (List Address)
  addresses_of guard parts host = elim (lib.parse_address host) [
    | some a ↦ some (a ∷ [])
    | none ↦ guard.resolver host (or_default parts.port (if is_https parts.scheme then 443 else 80))
  ]

  abbrev pub choose_address : Guard → Parts → Codes → Option (List Address) → Prepared Target
  choose_address guard parts host none = rejected unresolved
  choose_address guard parts host (some []) = rejected unresolved
  choose_address guard parts host (some (a ∷ rest)) =
      if not guard.allow_private && not (all is_public (a ∷ rest))
      then rejected not_public
      else accepted (target_of parts host a)

  unfoldable pub prepare_parts : Guard → Parts → Prepared Target
  unfolding host_allowed
  prepare_parts guard parts =
      let host = lib.lower parts.hostname in
      if not (is_https parts.scheme || is_http parts.scheme) || is_nil parts.hostname
      then rejected not_http
      else if is_http parts.scheme && not guard.allow_http
      then rejected not_https
      else if parts.has_credentials
      then rejected credentials
      else if not (host_allowed guard host)
      then rejected host_not_allowed
      else if parts.bad_port
      then rejected value_error
      else choose_address guard parts host (addresses_of guard parts host)

  -- `Guard.prepare`
  unfoldable pub prepare : Guard → Codes → Prepared Target
  unfolding prepare_parts
  prepare guard url = elim (lib.urlsplit url) [
    | none ↦ rejected value_error
    | some parts ↦ prepare_parts guard parts
  ]
