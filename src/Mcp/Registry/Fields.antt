-- ===== src/Mcp/Registry/Fields.antt =====
-- app/admin/mcp.py: the settings of a request, cleaned one by one.
pub mod Cleaned
use channel_agent.Prelude.{
  ℕ, zero, ◌+◌, ◌&&◌, ◌||◌, not, Bool, true, false, Option, none, some, List, [], ◌∷◌, ◌++◌, map,
  any, all, is_nil, length, leb, ltb, ◌==◌, if◌then◌else◌, String, Codes, codes, is_alnum,
  same_codes, starts_with,
}
use channel_agent.Exec.{Result, ok, err, Error, invalid_input}
use channel_agent.Mcp.Server.{ServerConfig, Egress, local, lan, internet}

abbrev pub max_tool_name_length : ℕ
max_tool_name_length = 200

abbrev pub max_disabled_tools : ℕ
max_disabled_tools = 200

-- `[A-Za-z0-9][A-Za-z0-9_-]{0,99}`
unfoldable pub is_server_name : Codes → Bool
is_server_name [] = false
is_server_name (c ∷ cs) =
    is_alnum c && all (λ d. is_alnum d || d == b'_' || d == b'-') cs && leb (length cs) 99

-- A value of a JSON body; `other` is one of another shape, a negative number among them.
pub data Value : Type 0 where
  null other : Value
  text : Codes → Value
  number : ℕ → Value
  flag : Bool → Value
  texts : List Codes → Value
  object : List (Codes × Codes) → Value

pub data Setting : Type 0 where
  url : Codes → Setting
  env_vars : List (Codes × Codes) → Setting
  egress : Egress → Setting
  enabled : Bool → Setting
  timeout_seconds concurrency_limit result_max_bytes : ℕ → Setting
  disabled_tools : List Codes → Setting

abbrev pub is_url : Setting → Bool
is_url (url u) = true
is_url _ = false

abbrev pub Given : Type 0
Given = List (Codes × Value)

abbrev pub is_url_key : Codes × Value → Bool
is_url_key f = same_codes f.0 (codes "url")

-- CONFIG_FIELDS
abbrev pub known_fields : List String
known_fields =
    "url" ∷ "env_vars" ∷ "egress" ∷ "enabled" ∷ "timeout_seconds" ∷ "concurrency_limit"
    ∷ "result_max_bytes" ∷ "disabled_tools" ∷ []

unfoldable pub clean_env_vars : Value → Result (List (Codes × Codes))
clean_env_vars null = ok []
clean_env_vars (object vars) = ok vars
clean_env_vars _ = err invalid_input

abbrev pub is_tool_name : Codes → Bool
is_tool_name name = not (is_nil name) && leb (length name) max_tool_name_length

-- `list(dict.fromkeys(value))`
abbrev pub without_repeats : List Codes → List Codes → List Codes
without_repeats seen [] = seen
without_repeats seen (t ∷ ts) =
    without_repeats (if any (same_codes t) seen then seen else seen ++ t ∷ []) ts

unfoldable pub clean_disabled_tools : Value → Result (List Codes)
clean_disabled_tools null = ok []
clean_disabled_tools (texts names) =
    if ltb max_disabled_tools (length names) || not (all is_tool_name names)
    then err invalid_input
    else ok (without_repeats [] names)
clean_disabled_tools _ = err invalid_input

unfoldable pub clean_egress : Value → Result Egress
clean_egress (text label) =
    if same_codes label (codes "local")
    then ok local
    else if same_codes label (codes "lan")
    then ok lan
    else if same_codes label (codes "internet")
    then ok internet
    else err invalid_input
clean_egress _ = err invalid_input

-- A whole number from 1 to `limit`.
abbrev pub whole : ℕ → Value → Result ℕ
whole limit (number n) = if leb 1 n && leb n limit then ok n else err invalid_input
whole limit _ = err invalid_input

unfoldable pub clean_timeout : Value → Result ℕ
clean_timeout value = whole 600 value

unfoldable pub clean_concurrency : Value → Result ℕ
clean_concurrency value = whole 20 value

unfoldable pub clean_result_max_bytes : Value → Result ℕ
clean_result_max_bytes value = whole 10000000 value

unfoldable pub clean_enabled : Value → Result Bool
clean_enabled (flag b) = ok b
clean_enabled _ = err invalid_input

abbrev pub is_http_url : Codes → Bool
is_http_url s = starts_with (codes "http://") s || starts_with (codes "https://") s

unfoldable pub clean_url : Value → Result Codes
clean_url (text s) = if is_http_url s then ok s else err invalid_input
clean_url _ = err invalid_input

abbrev pub as_setting : {A : Type 0} → (A → Setting) → Result A → Result Setting
as_setting f (err e) = err e
as_setting f (ok a) = ok (f a)

abbrev pub is_key : Codes → String → Bool
is_key key name = same_codes key (codes name)

-- `_CLEANERS[key](value)`; a name that is not known was refused before.
unfoldable pub clean_setting : Codes → Value → Result Setting
unfolding clean_env_vars clean_disabled_tools clean_egress clean_timeout clean_concurrency
    clean_result_max_bytes clean_enabled clean_url
clean_setting key value =
    if is_key key "url"
    then as_setting url (clean_url value)
    else if is_key key "env_vars"
    then as_setting env_vars (clean_env_vars value)
    else if is_key key "egress"
    then as_setting egress (clean_egress value)
    else if is_key key "enabled"
    then as_setting enabled (clean_enabled value)
    else if is_key key "timeout_seconds"
    then as_setting timeout_seconds (clean_timeout value)
    else if is_key key "concurrency_limit"
    then as_setting concurrency_limit (clean_concurrency value)
    else if is_key key "result_max_bytes"
    then as_setting result_max_bytes (clean_result_max_bytes value)
    else if is_key key "disabled_tools"
    then as_setting disabled_tools (clean_disabled_tools value)
    else err invalid_input

abbrev pub add_setting : Result Setting → Result (List Setting) → Result (List Setting)
add_setting (err e) rest = err e
add_setting (ok s) (err e) = err e
add_setting (ok s) (ok rest) = ok (s ∷ rest)

unfoldable pub clean_all : Given → Result (List Setting)
unfolding clean_setting
clean_all [] = ok []
clean_all ((key, value) ∷ rest) = add_setting (clean_setting key value) (clean_all rest)

abbrev pub is_known : Codes × Value → Bool
is_known (key, value) = any (is_key key) known_fields

-- The check of the names, and the cleaning of all fields.
unfoldable pub clean_fields : Given → Result (List Setting)
unfolding clean_all
clean_fields fields = if all is_known fields then clean_all fields else err invalid_input
