-- ===== src/Config/Rules.antt =====
-- app/settings_rules.py: what a value must be like to be written to .env. What the standard library
-- decides is a parameter: `ipaddress.ip_address`, `urlparse` and `str.lower`.
use channel_agent.Prelude.{
  ℕ, zero, suc, ◌+◌, ◌-◌, ◌*◌, String, ◌&&◌, ◌||◌, not, Bool, true, false, Option, none, some, List,
  [], ◌∷◌, length, drop, any, all, ltb, leb, ◌==◌, if◌then◌else◌, Codes, codes, is_digit, is_alnum,
  is_white, is_nil, is_infix, same_codes, starts_with, strip_codes, partition, pieces,
}

abbrev pub min_api_key_length : ℕ
min_api_key_length = 16

abbrev pub min_distinct_characters : ℕ
min_distinct_characters = 6

abbrev pub max_repeat_period : ℕ
max_repeat_period = 8

abbrev pub placeholder_fragments : List String
placeholder_fragments =
    "changeme" ∷ "change_me" ∷ "change-me" ∷ "password" ∷ "placeholder" ∷ "your_" ∷ "your-"
    ∷ "example" ∷ "0123456789" ∷ "abcdefghij" ∷ []

-- What the standard library says of a text: whether it is an IP address, whether it is an http or
-- https URL with a host, and its form in lower case.
pub record TextLibrary : Type 0 where
  pub is_ip : Codes → Bool
  pub is_http_url : Codes → Bool
  pub lower : Codes → Codes

-- `key[i] == key[i - period]`, for the rest of the key and the key itself.
unfoldable pub agrees : Codes → Codes → Bool
agrees [] key = true
agrees (c ∷ cs) [] = true
agrees (c ∷ cs) (d ∷ key) = c == d && agrees cs key

-- The periods from `1` to `n`.
unfoldable pub has_period : ℕ → Codes → Bool
has_period zero key = false
has_period (suc n) key = agrees (drop (suc n) key) key || has_period n key

-- `_is_repeating`
unfoldable pub is_repeating : Codes → Bool
unfolding has_period
is_repeating key = has_period max_repeat_period key

-- `len(set(key))`
unfoldable pub distinct : Codes → ℕ
distinct [] = 0
distinct (c ∷ cs) = distinct cs + (if any (λ d. d == c) cs then 0 else 1)

abbrev is_ascii_codes : Codes → Bool
is_ascii_codes s = all (λ c. ltb c 128) s

abbrev is_urlsafe : ℕ → Bool
is_urlsafe c = is_alnum c || c == b'_' || c == b'-'

-- `[0-9]{1,n}`
abbrev is_number : ℕ → Codes → Bool
is_number n s = all is_digit s && leb 1 (length s) && leb (length s) n

unfoldable pub value_of : ℕ → Codes → ℕ
value_of n [] = n
value_of n (c ∷ cs) = value_of (n * 10 + (c - b'0')) cs

-- `int(s)` of digits
abbrev int_value : Codes → ℕ
int_value = value_of 0

-- `[A-Za-z0-9_-]{43}=`
unfoldable pub is_fernet : ℕ → Codes → Bool
is_fernet n [] = false
is_fernet zero (c ∷ cs) = c == b'=' && is_nil cs
is_fernet (suc n) (c ∷ cs) = is_urlsafe c && is_fernet n cs

-- `[A-Za-z0-9]([A-Za-z0-9-]{0,61}[A-Za-z0-9])?`
abbrev ends_alnum : Codes → Bool
ends_alnum [] = false
ends_alnum (c ∷ []) = is_alnum c
ends_alnum (c ∷ d ∷ s) = ends_alnum (d ∷ s)

abbrev starts_alnum : Codes → Bool
starts_alnum [] = false
starts_alnum (c ∷ cs) = is_alnum c

abbrev is_label : Codes → Bool
is_label s =
    starts_alnum s && ends_alnum s && all (λ c. is_alnum c || c == b'-') s && leb (length s) 63

unfoldable pub is_hostname : Codes → Bool
unfolding pieces
is_hostname s = leb 1 (length s) && leb (length s) 253 && all is_label (pieces b'.' s)

-- `[0-9]{5,}:[A-Za-z0-9_-]{20,}`
unfoldable pub is_telegram_token : Codes → Bool
unfolding partition
is_telegram_token s = elim (partition b':' s) [
  | none ↦ false
  | some (digits, token) ↦
      all is_digit digits && leb 5 (length digits) && all is_urlsafe token && leb 20 (length token)
]

-- `[0-9]+(,[0-9]+)*`
unfoldable pub is_telegram_users : Codes → Bool
unfolding pieces
is_telegram_users s = all (λ p. all is_digit p && not (is_nil p)) (pieces b',' s)

-- `@[^:\s]+:[^\s]+`
unfoldable pub is_matrix_user : Codes → Bool
unfolding partition
is_matrix_user [] = false
is_matrix_user (c ∷ s) = elim (partition b':' s) [
  | none ↦ false
  | some (name, server) ↦
      c == b'@'
      && not (is_nil name)
      && not (any is_white name)
      && not (is_nil server)
      && not (any is_white server)
]

pub data Kind : Type 0 where
  free fernet_key port uint posint bytes host ip http_url database_url telegram_token telegram_users
        matrix_user api_key email_tag email_folder bool :
      Kind

-- Why a value is refused: the shape of its kind, or how it would be written.
pub data Reason : Type 0 where
  not_a : Kind → Reason
  empty_value control_character quote_or_backslash expansion : Reason

module _ (lib : TextLibrary) where
  unfoldable pub api_key_is_acceptable : Codes → Bool
  unfolding distinct is_repeating
  api_key_is_acceptable key =
      not (ltb (length key) min_api_key_length)
      && not (any (λ f. is_infix (codes f) (lib.lower key)) placeholder_fragments)
      && not (ltb (distinct key) min_distinct_characters)
      && not (is_repeating key)

  -- Whether a value that is not empty has the shape of a kind.
  unfoldable pub has_shape : Kind → Codes → Bool
  unfolding is_fernet value_of is_hostname is_telegram_token is_telegram_users is_matrix_user
  has_shape free s = true
  has_shape fernet_key s = is_fernet 43 s
  has_shape port s = is_number 5 s && leb 1 (int_value s) && leb (int_value s) 65535
  has_shape uint s = is_number 9 s
  has_shape posint s = is_number 9 s && leb 1 (int_value s)
  has_shape bytes s = is_number 15 s && leb 1 (int_value s)
  has_shape host s = lib.is_ip s || is_hostname s
  has_shape ip s = lib.is_ip s
  has_shape http_url s = lib.is_http_url s
  has_shape database_url s = starts_with (codes "sqlite+aiosqlite://") s
  has_shape telegram_token s = is_telegram_token s
  has_shape telegram_users s = is_telegram_users s
  has_shape matrix_user s = is_matrix_user s
  has_shape api_key s = api_key_is_acceptable s
  has_shape email_tag s =
      not (is_nil (strip_codes s)) && is_ascii_codes s && not (any (λ c. c == b'"' || c == b'\\') s)
  has_shape email_folder s =
      is_nil (strip_codes s)
      || (is_ascii_codes s && not (any (λ c. c == b'"' || c == b'\\' || c == b'*' || c == b'%') s))
  has_shape bool s = same_codes s (codes "true") || same_codes s (codes "false")

-- RULES
abbrev pub rules : List (String × Kind)
rules =
    ("ENCRYPTION_KEY", fernet_key)
    ∷ ("DATABASE_URL", database_url)
    ∷ ("LLAMA_SERVER_URL", http_url)
    ∷ ("LLAMA_CTX_SIZE", posint)
    ∷ ("CHECKPOINT_DB_PATH", free)
    ∷ ("MIGRATION_BACKUPS_KEEP", uint)
    ∷ ("MODEL_FILE", free)
    ∷ ("LLAMA_PORT", port)
    ∷ ("LLAMA_SERVER_BIN", free)
    ∷ ("MODELS_DIR", free)
    ∷ ("LLAMA_SERVER_BIN_DIR", free)
    ∷ ("LLAMA_THREADS", posint)
    ∷ ("LLAMA_ROUTER_MODE", bool)
    ∷ ("LLAMA_MODELS_MAX", posint)
    ∷ ("TELEGRAM_BOT_TOKEN", telegram_token)
    ∷ ("TELEGRAM_ALLOWED_USERS", telegram_users)
    ∷ ("EMAIL_IMAP_HOST", host)
    ∷ ("EMAIL_IMAP_PORT", port)
    ∷ ("EMAIL_SMTP_HOST", host)
    ∷ ("EMAIL_SMTP_PORT", port)
    ∷ ("EMAIL_USERNAME", free)
    ∷ ("EMAIL_PASSWORD", free)
    ∷ ("EMAIL_TRIGGER_TAG", email_tag)
    ∷ ("EMAIL_AGENT_FOLDER", email_folder)
    ∷ ("MATRIX_HOMESERVER_URL", http_url)
    ∷ ("MATRIX_BOT_USER_ID", matrix_user)
    ∷ ("MATRIX_BOT_ACCESS_TOKEN", free)
    ∷ ("API_SERVER_PORT", port)
    ∷ ("API_SERVER_HOST", host)
    ∷ ("API_BIND_ADDRESS", ip)
    ∷ ("API_SERVER_KEY", api_key)
    ∷ ("ALLOWED_HOSTS", free)
    ∷ ("API_MAX_BODY_BYTES", posint)
    ∷ ("API_REQUEST_TIMEOUT_SECONDS", posint)
    ∷ ("MODEL_HUB_URL", http_url)
    ∷ ("MODEL_PULL_ALLOWED_HOSTS", free)
    ∷ ("MODEL_PULL_MAX_BYTES", bytes)
    ∷ ("MODEL_PULL_TIMEOUT_SECONDS", posint)
    ∷ ("HF_TOKEN", free)
    ∷ []

-- REQUIRED
abbrev pub required_keys : List String
required_keys =
    "DATABASE_URL" ∷ "LLAMA_SERVER_URL" ∷ "LLAMA_CTX_SIZE" ∷ "MIGRATION_BACKUPS_KEEP" ∷ "LLAMA_PORT"
    ∷ "LLAMA_THREADS" ∷ "LLAMA_MODELS_MAX" ∷ "EMAIL_IMAP_PORT" ∷ "EMAIL_SMTP_PORT"
    ∷ "EMAIL_TRIGGER_TAG" ∷ "API_SERVER_PORT" ∷ "API_SERVER_HOST" ∷ "API_BIND_ADDRESS"
    ∷ "API_MAX_BODY_BYTES" ∷ "API_REQUEST_TIMEOUT_SECONDS" ∷ "MODEL_HUB_URL"
    ∷ "MODEL_PULL_MAX_BYTES" ∷ "MODEL_PULL_TIMEOUT_SECONDS" ∷ []

-- `RULES.get(key)`
unfoldable pub rule_of : Codes → List (String × Kind) → Option Kind
rule_of key [] = none
rule_of key ((name, kind) ∷ rest) =
    let other = rule_of key rest in if same_codes (codes name) key then some kind else other

unfoldable pub is_required : Codes → Bool
is_required key = any (λ name. same_codes (codes name) key) required_keys

abbrev reason_if : Bool → Reason → Option Reason
reason_if true r = some r
reason_if false r = none

-- `_unrepresentable`
unfoldable pub unrepresentable : Codes → Option Reason
unrepresentable s =
    if any (λ c. ltb c 32 || c == 127) s
    then some control_character
    else if any (λ c. c == b'\'' || c == b'\\') s
    then some quote_or_backslash
    else reason_if (is_infix (codes "${") s) expansion

module _ (lib : TextLibrary) where
  unfoldable pub meaning_error : Codes → Kind → Codes → Option Reason
  meaning_error key kind value =
      if is_nil value
      then reason_if (is_required key) empty_value
      else reason_if (not (has_shape lib kind value)) (not_a kind)

  -- `validate`: `none` is the KeyError of a name without a rule.
  unfoldable pub validate : Codes → Codes → Option (Option Reason)
  validate key value = elim (rule_of key rules) [
    | none ↦ none
    | some kind ↦ elim (unrepresentable value) [
      | some r ↦ some (some r)
      | none ↦ some (meaning_error key kind value)
    ]
  ]
