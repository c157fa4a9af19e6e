-- ===== src/Admin/Settings.antt =====
-- app/admin/service.py: the configuration of an agent. A value of a JSON body is a `Detail`; the
-- lists of a body are taken to hold texts.
use Prim.Native.String.{count}
use channel_agent.Prelude.{
  ℕ, String, ◌&&◌, ◌||◌, Bool, false, Option, none, some, List, [], ◌∷◌, ◌++◌, any, all, select,
  length, codes, is_alnum, strip, str_eq, ltb, leb, ◌==◌, if◌then◌else◌,
}
use channel_agent.Exec.{Result, ok, err, invalid_input}
use channel_agent.Model.{Agent, Detail}

abbrev pub max_system_prompt_length : ℕ
max_system_prompt_length = 20000

abbrev pub max_tools : ℕ
max_tools = 100

-- `[A-Za-z0-9][A-Za-z0-9 extra]{0,199}`, on the whole text.
abbrev name_shape : (ℕ → Bool) → List ℕ → Bool
name_shape extra [] = false
name_shape extra (c ∷ cs) = is_alnum c && all (λ d. is_alnum d || extra d) cs && leb (length cs) 199

abbrev model_extra : ℕ → Bool
model_extra c = c == b'.' || c == b'_' || c == b':' || c == b'/' || c == b'-'

abbrev tool_extra : ℕ → Bool
tool_extra c = c == b'_' || c == b'.' || c == b':' || c == b'-'

-- `_MODEL_NAME.fullmatch`, `_TOOL_NAME.fullmatch`
unfoldable pub is_model_name : String → Bool
is_model_name s = name_shape model_extra (codes s)

unfoldable pub is_tool_name : String → Bool
is_tool_name s = name_shape tool_extra (codes s)

-- `value or None`
abbrev none_if_empty : String → Option String
none_if_empty s = if str_eq s "" then none else some s

unfoldable pub clean_system_prompt : Detail → Result (Option String)
clean_system_prompt Detail.null = ok none
clean_system_prompt (Detail.text given) =
    let value = strip given in
    if any (λ c. c == 0) (codes given) || ltb max_system_prompt_length (count value)
    then err invalid_input
    else ok (none_if_empty value)
clean_system_prompt _ = err invalid_input

unfoldable pub clean_model : Detail → Result (Option String)
clean_model Detail.null = ok none
clean_model (Detail.text given) =
    let value = strip given in
    if str_eq value ""
    then ok none
    else if is_model_name value
    then ok (some value)
    else err invalid_input
clean_model _ = err invalid_input

abbrev pub memory_modes : List String
memory_modes = "off" ∷ "ondemand" ∷ "always" ∷ "search" ∷ []

unfoldable pub clean_memory_mode : Detail → Result String
clean_memory_mode (Detail.text value) =
    if any (str_eq value) memory_modes then ok value else err invalid_input
clean_memory_mode _ = err invalid_input

-- The loop of `_clean_tools`.
clean_tool_names : List String → List String → Result (List String)
clean_tool_names seen [] = ok seen
clean_tool_names seen (item ∷ items) =
    let rest =
      clean_tool_names (if any (str_eq item) seen then seen else seen ++ item ∷ []) items in
    if is_tool_name item then rest else err invalid_input

unfoldable pub clean_tools : Detail → Result (List String)
unfolding clean_tool_names
clean_tools (Detail.texts value) =
    if ltb max_tools (length value) then err invalid_input else clean_tool_names [] value
clean_tools _ = err invalid_input

-- A cleaned setting, one constructor for each of CONFIG_FIELDS.
pub data Setting : Type 0 where
  system_prompt model : Option String → Setting
  memory_mode : String → Setting
  tools : List String → Setting

infixl 5 ◌>>=◌
abbrev ◌>>=◌ : {A B : Type 0} → Result A → (A → Result B) → Result B
ok a >>= f = f a
err e >>= f = err e

-- `_CLEANERS[name](value)`
clean_setting : String × Detail → Result Setting
clean_setting (name, value) =
    if str_eq name "system_prompt"
    then (do p ← clean_system_prompt value; ok (system_prompt p))
    else if str_eq name "model"
    then (do m ← clean_model value; ok (model m))
    else if str_eq name "memory_mode"
    then (do m ← clean_memory_mode value; ok (memory_mode m))
    else if str_eq name "tools"
    then (do t ← clean_tools value; ok (tools t))
    else err invalid_input

-- `_clean_config`; an unknown name is refused as any bad value is.
unfoldable pub clean_config : List (String × Detail) → Result (List Setting)
unfolding clean_setting
clean_config [] = ok []
clean_config (field ∷ fields) = do
  setting ← clean_setting field
  rest ← clean_config fields
  ok (setting ∷ rest)

abbrev apply_setting : Setting → Agent → Agent
apply_setting (system_prompt p) a = record a { system_prompt = p }
apply_setting (model m) a = record a { model = m }
apply_setting (memory_mode m) a = record a { memory_mode = m }
apply_setting (tools t) a = record a { tools = t }

-- The loop of `setattr`.
unfoldable pub apply_settings : List Setting → Agent → Agent
apply_settings [] a = a
apply_settings (s ∷ rest) a = apply_settings rest (apply_setting s a)

abbrev setting_name : Setting → String
setting_name (system_prompt _) = "system_prompt"
setting_name (model _) = "model"
setting_name (memory_mode _) = "memory_mode"
setting_name (tools _) = "tools"

abbrev names_setting : String → Setting → Bool
names_setting name s = str_eq (setting_name s) name

-- `sorted(cleaned)`: the names of CONFIG_FIELDS in alphabetical order, those that were given.
unfoldable pub sorted_names : List Setting → List String
unfolding select
sorted_names cleaned =
    select (λ name. any (names_setting name) cleaned)
      ("memory_mode" ∷ "model" ∷ "system_prompt" ∷ "tools" ∷ [])

-- `{"fields": sorted(cleaned)} if cleaned else {}`
abbrev pub setting_names : List Setting → List (String × Detail)
setting_names [] = []
setting_names (s ∷ rest) = ("fields", Detail.texts (sorted_names (s ∷ rest))) ∷ []

abbrev text_or_null : Option String → Detail
text_or_null none = Detail.null
text_or_null (some s) = Detail.text s

abbrev setting_values : List Setting → List (String × Detail)
setting_values [] = []
setting_values (system_prompt _ ∷ rest) = setting_values rest
setting_values (model m ∷ rest) = ("model", text_or_null m) ∷ setting_values rest
setting_values (memory_mode m ∷ rest) = ("memory_mode", Detail.text m) ∷ setting_values rest
setting_values (tools t ∷ rest) = ("tools", Detail.texts t) ∷ setting_values rest

-- The details of an "agent.configure" event: never the prompt.
abbrev pub setting_details : List Setting → List (String × Detail)
setting_details cleaned = ("fields", Detail.texts (sorted_names cleaned)) ∷ setting_values cleaned
