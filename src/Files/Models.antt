-- ===== src/Files/Models.antt =====
-- app/admin/models.py: the model files. What the directory has of one name is a slot: the file, its
-- unfinished copy and its recorded hash. SHA256 and the free space of the disk are parameters, and so
-- is how reading the source ends.
pub mod Fetch
pub mod Download
pub mod Pull
use channel_agent.Prelude.{
  ℕ, zero, ◌+◌, ◌*◌, ◌&&◌, ◌||◌, not, Bool, true, false, Option, none, some, List, [], ◌∷◌, ◌++◌,
  any, all, length, ◌==◌, ltb, leb, if◌then◌else◌, Codes, codes, is_alnum, is_infix, is_nil,
  same_codes, starts_with,
}
use channel_agent.Outbound.{ends_with}

abbrev pub Bytes : Type 0
Bytes = List ℕ

-- `dest`, `<dest>.part` and `<dest>.sha256`; `is_link` says that the name is a symbolic link.
pub record Slot : Type 0 where
  pub is_link : Bool
  pub dest : Option Bytes
  pub part : Option Bytes
  pub sidecar : Option Codes

pub data ModelError : Type 0 where
  invalid_name not_a_file not_gguf name_needed no_directory not_regular : ModelError
  already_exists no_space not_found is_loaded is_model_file changed_size unreadable : ModelError

pub data Outcome {ℓ} (A : Type ℓ) : Type ℓ where
  done : A → Outcome A
  failed : ModelError → Outcome A

abbrev pub margin : ℕ
margin = 100 * 1024 * 1024

abbrev is_name_char : ℕ → Bool
is_name_char c = is_alnum c || c == b'.' || c == b'_' || c == b'-'

-- NAME_RE
unfoldable pub matches_name : Codes → Bool
matches_name [] = false
matches_name (c ∷ rest) = is_alnum c && all is_name_char rest && ends_with rest (codes ".gguf")

-- `valid_name`
unfoldable pub is_valid_name : Codes → Bool
unfolding matches_name is_infix
is_valid_name name = matches_name name && not (is_infix (codes "..") name) && leb (length name) 200

abbrev pub is_some {ℓ} : {A : Type ℓ} → Option A → Bool
is_some none = false
is_some (some x) = true

-- `dest.exists() or dest.is_symlink()`
abbrev pub exists : Slot → Bool
exists slot = slot.is_link || is_some slot.dest

-- The directory of the models, when it is there; and the model of MODEL_FILE.
pub record Directory : Type 0 where
  pub is_there : Bool
  pub slot : Codes → Slot
  pub free : ℕ
  pub model_file : Codes

-- `models_dir`, then `model_path`
unfoldable pub model_path : Directory → Codes → Outcome Slot
unfolding is_valid_name
model_path directory name =
    if not directory.is_there
    then failed no_directory
    else if not (is_valid_name name)
    then failed invalid_name
    else if (directory.slot name).is_link
    then failed not_regular
    else done (directory.slot name)

-- The file to import, when it is one.
pub record Source : Type 0 where
  pub name : Codes
  pub content : Option Bytes

pub record Plan : Type 0 where
  pub name : Codes
  pub size : ℕ

-- `name or src.name`
abbrev pub chosen : Source → Option Codes → Codes
chosen source none = source.name
chosen source (some name) = if is_nil name then source.name else name

abbrev with_slot : Directory → Bool → Plan → Outcome Slot → Outcome Plan
with_slot directory force plan (failed e) = failed e
with_slot directory force plan (done slot) =
    if exists slot && not force
    then failed already_exists
    else if ltb directory.free (plan.size + margin)
    then failed no_space
    else done plan

abbrev with_content : Directory → Source → Option Codes → Bool → Option Bytes → Outcome Plan
with_content directory source name force none = failed not_a_file
with_content directory source name force (some content) =
    if not (starts_with (codes "GGUF") content)
    then failed not_gguf
    else if not (is_some name) && not (matches_name source.name)
    then failed name_needed
    else with_slot directory force (record { name = chosen source name; size = length content })
        (model_path directory (chosen source name))

unfoldable pub prepare_import : Directory → Source → Option Codes → Bool → Outcome Plan
unfolding model_path matches_name starts_with
prepare_import directory source name force = with_content directory source name force source.content

-- What reading the source gives: its chunks, and whether the copy came to the end. A cancelled job, a
-- read or a write that fails end it before.
pub record Reading : Type 0 where
  pub chunks : List Bytes
  pub ended : Bool

abbrev pub joined : List Bytes → Bytes
joined [] = []
joined (c ∷ cs) = c ++ joined cs

pub record Installed : Type 0 where
  pub size : ℕ
  pub digest : Codes

-- `os.replace(part, dest)`, then `write_sha256`
abbrev pub put_in_place : Bytes → Codes → Slot → Slot
put_in_place content digest slot = record slot {
  dest = some content;
  part = none;
  sidecar = some digest;
}

unfoldable pub run_import : (Bytes → Codes) → Plan → Reading → Slot → Outcome Installed × Slot
run_import sha256 plan reading slot =
    let copied = joined reading.chunks in
    if not reading.ended
    then (failed unreadable, record slot { part = none })
    else if not (length copied == plan.size)
    then (failed changed_size, record slot { part = none })
    else (
      done (record { size = length copied; digest = sha256 copied }),
      put_in_place copied (sha256 copied) slot,
    )

abbrev with_file : Directory → Codes → Option Codes → Slot → Option Bytes → Outcome ℕ × Slot
with_file directory name loaded slot none = (failed not_found, slot)
with_file directory name loaded slot (some content) =
    if elim loaded [ none ↦ false | some other ↦ same_codes other name ]
    then (failed is_loaded, slot)
    else if same_codes directory.model_file name
    then (failed is_model_file, slot)
    else (done (length content), record slot { dest = none; sidecar = none })

abbrev with_path : Directory → Codes → Option Codes → Outcome Slot → Outcome ℕ × Slot
with_path directory name loaded (failed e) = (failed e, directory.slot name)
with_path directory name loaded (done slot) = with_file directory name loaded slot slot.dest

-- `delete_model`, with the slot it leaves
unfoldable pub delete_model : Directory → Codes → Option Codes → Outcome ℕ × Slot
unfolding model_path same_codes
delete_model directory name loaded = with_path directory name loaded (model_path directory name)

-- `claim` and `release` of the names being imported or pulled
unfoldable pub claim : Codes → List Codes → Option (List Codes)
unfolding same_codes
claim name active = if any (same_codes name) active then none else some (name ∷ active)

unfoldable pub release : Codes → List Codes → List Codes
unfolding same_codes
release name [] = []
release name (other ∷ rest) =
    let kept = release name rest in if same_codes name other then kept else other ∷ kept
