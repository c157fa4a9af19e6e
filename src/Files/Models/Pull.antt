-- ===== src/Files/Models/Pull.antt =====
-- app/admin/models.py: what a pull is asked for, the file of a repository that it means, and the pull
-- around the download. The hub's list of files, the path of a URL and the classes of characters are
-- parameters.
pub mod Released
use channel_agent.Prelude.{
  ℕ, zero, ◌≡◌, refl, ◌&&◌, ◌||◌, not, Bool, true, false, Option, none, some, List, [], ◌∷◌, ◌++◌,
  any, all, drop, take, length, select, select_holds, ◌-◌, ◌==◌, leb, if◌then◌else◌, Codes, codes,
  is_alnum, is_digit, is_infix, is_nil, same_codes, starts_with, lstrip_codes, strip_codes,
  partition, if_both, arith,
}
use channel_agent.Outbound.{
  NetLibrary, Guard, Target, OutboundError, Prepared, accepted, rejected, ends_with, prepare,
}
use channel_agent.Files.Models.{
  Slot, ModelError, invalid_name, no_directory, not_regular, already_exists, Outcome, done, failed,
  exists, matches_name, model_path, Directory, claim, release,
}
use channel_agent.Files.Models.Fetch.{Fetched}
use channel_agent.Files.Models.Download.{Hashing, Limits, Pulled, PullError, download}

pub data Spec : Type 0 where
  at_url : Codes → Spec
  at_hub : Codes → Option Codes → Spec

-- `\w`, and the name at the end of a URL's path
pub record Reading : Type 0 where
  pub is_word : ℕ → Bool
  pub last_name : Codes → Codes
  pub lower : Codes → Codes

-- The file of a repository, when it is one.
pub data HubFile : Type 0 where
  found : Codes → HubFile
  no_file several sharded : HubFile

module _ (lib : Reading) where
  abbrev is_spec_char : ℕ → Bool
  is_spec_char c = lib.is_word c || c == b'.' || c == b'-'

  abbrev is_spec_part : Codes → Bool
  is_spec_part s = not (is_nil s) && all is_spec_char s

  abbrev is_owner : Codes → Bool
  is_owner [] = false
  is_owner (c ∷ s) = is_alnum c && all is_spec_char s

  abbrev hub_parts : Codes → Codes → Option (Codes × Codes) → Option Spec
  hub_parts owner rest none =
      if is_spec_part rest then some (at_hub (owner ++ b'/' ∷ rest) none) else none
  hub_parts owner rest (some (repo, quant)) =
      if is_spec_part repo && is_spec_part quant
      then some (at_hub (owner ++ b'/' ∷ repo) (some quant))
      else none

  abbrev hub_spec : Option (Codes × Codes) → Option Spec
  hub_spec none = none
  hub_spec (some (owner, rest)) =
      if is_owner owner then hub_parts owner rest (partition b':' rest) else none

  -- `parse_spec`
  unfoldable pub parse_spec : Codes → Option Spec
  unfolding starts_with lstrip_codes partition
  parse_spec text =
      let spec = strip_codes text in
      if starts_with (codes "https://") spec || starts_with (codes "http://") spec
      then some (at_url spec)
      else hub_spec (partition b'/' spec)

  abbrev is_low : ℕ → Bool
  is_low c = is_digit c || (leb b'a' c && leb c b'z')

  abbrev begins_low : Codes → Bool
  begins_low [] = false
  begins_low (c ∷ s) = is_low c

  -- The quantization as a word of its own; `after` says that a letter or a digit stands before.
  unfoldable pub has_token : Codes → Bool → Codes → Bool
  unfolding starts_with
  has_token token after [] = not after && starts_with token []
  has_token token after (c ∷ s) =
      (not after && starts_with token (c ∷ s) && not (begins_low (drop (length token) (c ∷ s))))
      || has_token token (is_low c) s

  abbrev has_quant : Option Codes → Codes → Bool
  has_quant none file = true
  has_quant (some quant) file = is_nil quant || has_token (lib.lower quant) false (lib.lower file)

  -- A model file of the repository, of the quantization that is asked for.
  abbrev pub is_wanted : Option Codes → Codes → Bool
  is_wanted quant file =
      ends_with (lib.lower file) (codes ".gguf")
      && not (is_infix (codes "mmproj") (lib.lower file))
      && has_quant quant file

  abbrev is_shard_end : Codes → Bool
  is_shard_end s =
      starts_with (codes "-") s
      && all is_digit (take 5 (drop 1 s))
      && starts_with (codes "-of-") (drop 6 s)
      && all is_digit (take 5 (drop 10 s))
      && same_codes (drop 15 s) (codes ".gguf")

  -- SHARD
  abbrev pub is_shard : Codes → Bool
  is_shard file = leb 20 (length file) && is_shard_end (drop (length file - 20) (lib.lower file))

  abbrev pub only_file : List Codes → HubFile
  only_file [] = no_file
  only_file (file ∷ []) = if is_shard file then sharded else found file
  only_file (file ∷ other ∷ rest) = several

  -- `_hub_file`, from the list of the files on
  unfoldable pub hub_file : Option Codes → List Codes → HubFile
  unfolding select is_infix has_token starts_with same_codes
  hub_file quant files = only_file (select (is_wanted quant) files)

pub data Refusal : Type 0 where
  no_spec name_needed taken : Refusal
  not_allowed : OutboundError → Refusal
  by_model : ModelError → Refusal
  by_hub : HubFile → Refusal

pub record Pull : Type 0 where
  pub spec : Spec
  pub name : Codes
  pub sha256 : Option Codes
  pub force : Bool

abbrev pub refusal_of : Directory → Bool → Codes → Option Refusal
refusal_of directory force name = elim (model_path directory name) [
  | failed e ↦ some (by_model e)
  | done slot ↦ if exists slot && not force then some (by_model already_exists) else none
]

pub data PreparedPull : Type 0 where
  ready : Pull → PreparedPull
  refused : Refusal → PreparedPull

abbrev or_refused : Pull → Option Refusal → PreparedPull
or_refused pull none = ready pull
or_refused pull (some e) = refused e

abbrev pub given_or : Codes → Codes → Codes
given_or name other = if is_nil name then other else name

module _ (net : NetLibrary) (lib : Reading) (guard : Guard) (directory : Directory) where
  abbrev prepared_url : Pull → Codes → Prepared Target → PreparedPull
  prepared_url pull url (rejected e) = refused (not_allowed e)
  prepared_url pull url (accepted target) =
      let name = given_or pull.name (lib.last_name url) in
      if not (matches_name name)
      then refused name_needed
      else or_refused (record pull { name = name }) (refusal_of directory pull.force name)

  abbrev prepared_spec : Pull → Spec → PreparedPull
  prepared_spec pull (at_url url) = prepared_url pull url (prepare net guard url)
  prepared_spec pull (at_hub repo quant) =
      if is_nil pull.name
      then ready pull
      else or_refused pull (refusal_of directory pull.force pull.name)

  -- `prepare_pull`; an absent name is empty.
  unfoldable pub prepare_pull : Codes → Codes → Option Codes → Bool → PreparedPull
  unfolding parse_spec matches_name
  prepare_pull text name sha256 force = elim (parse_spec lib text) [
    | none ↦ refused no_spec
    | some spec ↦
        if not directory.is_there
        then refused (by_model no_directory)
        else prepared_spec (record { spec = spec; name = name; sha256 = sha256; force = force })
            spec
  ]

-- How a pull ends.
pub data PullEnd : Type 0 where
  ended : Pulled → PullEnd
  not_started : Refusal → PullEnd

-- The end, the slot of the name, if there is one, and the names that are taken.
pub record After : Type 0 where
  pub end : PullEnd
  pub slot : Option Slot
  pub active : List Codes

abbrev pub stopped_by : Refusal → List Codes → After
stopped_by e active = record { end = not_started e; slot = none; active = active }

module _ (lib : Reading) (hashing : Hashing) (limits : Limits) (directory : Directory) where
  abbrev pub claimed : Pull → (ℕ → Fetched) → Codes → List Codes → Option (List Codes) → After
  claimed pull fetch name active none = stopped_by taken active
  claimed pull fetch name active (some active') =
      let (end, slot) = download hashing limits pull.sha256 fetch (directory.slot name) in
      record { end = ended end; slot = some slot; active = release name active' }

  abbrev pub unless_refused : Pull → (ℕ → Fetched) → Codes → List Codes → Option Refusal → After
  unless_refused pull fetch name active (some e) = stopped_by e active
  unless_refused pull fetch name active none = claimed pull fetch name active (claim name active)

  abbrev pub pulled_from : Pull → (Codes → ℕ → Fetched) → Codes → List Codes → After
  pulled_from pull fetch url active =
      let name = given_or pull.name (lib.last_name url) in
      if not (matches_name name)
      then stopped_by name_needed active
      else unless_refused pull (fetch url) name active (refusal_of directory pull.force name)

  abbrev pub from_hub :
      (Codes → Codes) → (Codes → ℕ → Fetched) → Pull → List Codes → HubFile → After
  from_hub url_of fetch pull active (found file) = pulled_from pull fetch (url_of file) active
  from_hub url_of fetch pull active no_file = stopped_by (by_hub no_file) active
  from_hub url_of fetch pull active several = stopped_by (by_hub several) active
  from_hub url_of fetch pull active sharded = stopped_by (by_hub sharded) active

  abbrev pub from_spec :
      (Codes → Codes → Codes)
      → (Codes → List Codes)
      → (Codes → ℕ → Fetched)
      → Pull
      → List Codes
      → Spec
      → After
  from_spec url_of files_of fetch pull active (at_url url) = pulled_from pull fetch url active
  from_spec url_of files_of fetch pull active (at_hub repo quant) =
      from_hub (url_of repo) fetch pull active (hub_file lib quant (files_of repo))

  -- `run_pull`, with the URL of a file of the hub, and the hub's list for a repository
  unfoldable pub run_pull :
      (Codes → Codes → Codes)
      → (Codes → List Codes)
      → (Codes → ℕ → Fetched)
      → Pull
      → List Codes
      → After
  unfolding hub_file matches_name claim release download
  run_pull url_of files_of fetch pull active = from_spec url_of files_of fetch pull active pull.spec
