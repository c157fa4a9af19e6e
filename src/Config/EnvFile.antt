-- ===== src/Config/EnvFile.antt =====
-- app/settings_rules.py: reading and writing .env. A file is its text in code points, or nothing if
-- it is missing; the hint of `difflib` in an error is not modelled.
pub mod Lines
pub mod Dict
pub mod RoundTrip
pub mod Update
pub mod Written
pub mod Saved
use channel_agent.Prelude.{
  ℕ, String, ◌&&◌, ◌||◌, not, Bool, true, false, Option, none, some, List, [], ◌∷◌, ◌++◌, map, any,
  all, first, str_eq, length, take, leb, ◌==◌, if◌then◌else◌, Codes, codes, is_alnum, is_nil,
  same_codes, starts_with, strip_codes, partition, push_first,
}
use channel_agent.Config.Rules.{TextLibrary, Reason, validate}

-- How `open` in text mode reads the ends of lines; the flag says that the last character was "\r".
unfoldable pub decode_newlines : Bool → Codes → Codes
decode_newlines after_return [] = []
decode_newlines after_return (c ∷ cs) =
    let skip = decode_newlines false cs in
    let return = 10 ∷ decode_newlines true cs in
    let keep = c ∷ decode_newlines false cs in
    if c == 10 && after_return then skip else if c == 13 then return else keep

-- The lines of a text, each with its "\n".
unfoldable pub split_lines : Codes → List Codes
split_lines [] = []
split_lines (c ∷ cs) =
    let rest = split_lines cs in if c == 10 then (c ∷ []) ∷ rest else push_first c rest

-- `f.writelines(lines)`
unfoldable pub joined : List Codes → Codes
joined [] = []
joined (l ∷ ls) = l ++ joined ls

abbrev pub read_lines : Codes → List Codes
read_lines content = split_lines (decode_newlines false content)

-- The quotes that are removed from a value.
abbrev pub is_quote : ℕ → Bool
is_quote c = c == b'\'' || c == b'"'

-- The text without its last character, where that is `c`.
unfoldable pub without_last : ℕ → Codes → Option Codes
without_last c [] = none
without_last c (d ∷ []) = if d == c then some [] else none
without_last c (d ∷ e ∷ s) = elim (without_last c (e ∷ s)) [ none ↦ none | some t ↦ some (d ∷ t) ]

abbrev or_whole : Codes → Option Codes → Codes
or_whole s none = s
or_whole s (some t) = t

unfoldable pub unquoted : Codes → Codes
unquoted [] = []
unquoted (c ∷ s) = if is_quote c then or_whole (c ∷ s) (without_last c s) else c ∷ s

abbrev unquoted_value : Option (Codes × Codes) → Option (Codes × Codes)
unquoted_value none = none
unquoted_value (some (key, value)) = some (key, unquoted value)

-- The assignment in a line, if it is one.
unfoldable pub assignment : Codes → Option (Codes × Codes)
assignment raw =
    let line = strip_codes raw in
    if is_nil line || starts_with (b'#' ∷ []) line
    then none
    else unquoted_value (partition b'=' line)

abbrev pub Values : Type 0
Values = List (Codes × Codes)

-- `values[key] = value`
unfoldable pub insert : Codes → Codes → Values → Values
insert key value [] = (key, value) ∷ []
insert key value ((k, v) ∷ rest) =
    if same_codes k key then (k, value) ∷ rest else (k, v) ∷ insert key value rest

-- `values.get(key)`
unfoldable pub lookup : Codes → Values → Option Codes
lookup key [] = none
lookup key ((k, v) ∷ rest) =
    let other = lookup key rest in if same_codes k key then some v else other

abbrev pub insert_assignment : Option (Codes × Codes) → Values → Values
insert_assignment none values = values
insert_assignment (some (key, value)) values = insert key value values

unfoldable pub values_of : List Codes → Values → Values
values_of [] values = values
values_of (l ∷ ls) values = values_of ls (insert_assignment (assignment l) values)

-- `read_env`
unfoldable pub read_env : Option Codes → Values
read_env none = []
read_env (some content) = values_of (read_lines content) []

-- `example_keys`
unfoldable pub example_keys : Option Codes → List Codes
example_keys example = map (λ e. e.0) (read_env example)

abbrev pub is_safe : ℕ → Bool
is_safe c =
    is_alnum c
    || c == b'_'
    || c == b'.'
    || c == b'/'
    || c == b':'
    || c == b'@'
    || c == b'+'
    || c == b','
    || c == b'='
    || c == b'%'
    || c == b'^'
    || c == b'['
    || c == b']'
    || c == b'-'

unfoldable pub format_value : Codes → Codes
format_value value = if all is_safe value then value else b'\'' ∷ value ++ b'\'' ∷ []

-- SENSITIVE
abbrev pub sensitive_keys : List String
sensitive_keys =
    "ENCRYPTION_KEY" ∷ "API_SERVER_KEY" ∷ "TELEGRAM_BOT_TOKEN" ∷ "EMAIL_PASSWORD"
    ∷ "MATRIX_ACCESS_TOKEN" ∷ "MATRIX_BOT_ACCESS_TOKEN" ∷ "HF_TOKEN" ∷ []

pub record ConfigEntry : Type 0 where
  pub key : Codes
  pub value : Codes
  pub is_set : Bool
  pub secret : Bool

abbrev or_empty : Option Codes → Codes
or_empty none = []
or_empty (some s) = s

abbrev config_entry : Values → Codes → ConfigEntry
config_entry current key =
    let value = or_empty (lookup key current) in
    record {
      key = key;
      value = value;
      is_set = not (is_nil value);
      secret = any (λ name. same_codes (codes name) key) sensitive_keys;
    }

unfoldable pub config_entries : Option Codes → Option Codes → List ConfigEntry
config_entries env example = map (config_entry (read_env env)) (example_keys example)

-- What `format_config` shows of an entry.
unfoldable pub displayed : ConfigEntry → Codes
displayed e =
    if is_nil e.value
    then codes "(not set)"
    else if e.secret
    then take 4 e.value ++ codes "...(hidden)"
    else e.value

-- The files of a deployment.
pub record EnvFiles : Type 0 where
  pub env : Option Codes
  pub example : Option Codes
  pub backup : Option Codes

-- `missing` is the FileNotFoundError of .env, `no_rule` the KeyError of `validate`.
pub data ConfigError : Type 0 where
  unknown key_protected missing no_rule : ConfigError
  invalid : Reason → ConfigError

pub data Outcome : Type 0 where
  saved : Outcome
  refused : ConfigError → Outcome

abbrev pub encryption_key : Codes
encryption_key = codes "ENCRYPTION_KEY"

-- `key=`
abbrev pub start_of : Codes → Codes
start_of key = key ++ b'=' ∷ []

abbrev after_equals : Option (Codes × Codes) → Codes
after_equals none = []
after_equals (some (_, value)) = value

abbrev current_key : Option Codes → Codes
current_key none = []
current_key (some line) = strip_codes (after_equals (partition b'=' line))

-- Whether .env has an encryption key already.
unfoldable pub key_is_set : List Codes → Bool
key_is_set lines =
    not (all is_quote (current_key (first (starts_with (start_of encryption_key)) lines)))

abbrev pub ends_line : Codes → Bool
ends_line [] = false
ends_line (c ∷ []) = c == 10
ends_line (c ∷ d ∷ s) = ends_line (d ∷ s)

-- The first line that begins with `start` becomes `new`.
unfoldable pub replace_line : Codes → Codes → List Codes → List Codes
replace_line start new [] = []
replace_line start new (l ∷ ls) =
    if starts_with start l then new ∷ ls else l ∷ replace_line start new ls

unfoldable pub append_line : Codes → List Codes → List Codes
append_line new [] = new ∷ []
append_line new (l ∷ []) = (if ends_line l then l else l ++ 10 ∷ []) ∷ new ∷ []
append_line new (l ∷ m ∷ ls) = l ∷ append_line new (m ∷ ls)

unfoldable pub written_lines : Codes → Codes → List Codes → List Codes
written_lines key value lines =
    let new = start_of key ++ format_value value ++ 10 ∷ [] in
    if any (starts_with (start_of key)) lines
    then replace_line (start_of key) new lines
    else append_line new lines

-- The check that protects the encryption key: whether the change is refused.
abbrev pub is_protected : Bool → Codes → List Codes → Bool
is_protected allow_initial_key key lines =
    same_codes key encryption_key && (key_is_set lines || not allow_initial_key)

abbrev pub write_checked :
    Codes → Codes → EnvFiles → Codes → Option (Option Reason) → Outcome × EnvFiles
write_checked key value files content none = (refused no_rule, files)
write_checked key value files content (some (some reason)) = (refused (invalid reason), files)
write_checked key value files content (some none) = (
  saved,
  record files {
    env = some (joined (written_lines key value (read_lines content)));
    backup = some content;
  },
)

abbrev pub set_in :
    TextLibrary → Bool → Codes → Codes → EnvFiles → Option Codes → Outcome × EnvFiles
set_in lib allow_initial_key key value files none = (refused missing, files)
set_in lib allow_initial_key key value files (some content) =
    if is_protected allow_initial_key key (read_lines content)
    then (refused key_protected, files)
    else write_checked key value files content (validate lib key value)

-- `set_config`
unfoldable pub set_config : TextLibrary → Bool → Codes → Codes → EnvFiles → Outcome × EnvFiles
set_config lib allow_initial_key key value files =
    if not (any (same_codes key) (example_keys files.example))
    then (refused unknown, files)
    else set_in lib allow_initial_key key value files files.env
