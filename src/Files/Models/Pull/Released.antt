-- ===== src/Files/Models/Pull/Released.antt =====
-- app/admin/models.py: the file that a pull means, and the names that are taken.
use channel_agent.Prelude.{
  ℕ, ◌≡◌, refl, inl, inr, not, false, Option, none, some, List, [], ◌∷◌, any, select, Codes,
  same_codes, same_codes_refl, Bool-cases, if_both, arith,
}
use channel_agent.Files.Models.{Directory, matches_name, claim, release}
use channel_agent.Files.Models.Fetch.{Fetched}
use channel_agent.Files.Models.Download.{Hashing, Limits}
use channel_agent.Files.Models.Pull.{
  Reading, Spec, at_url, at_hub, HubFile, found, no_file, several, sharded, is_wanted, is_shard,
  only_file, hub_file, Refusal, Pull, After, claimed, pulled_from, run_pull, refusal_of, given_or,
  unless_refused, from_hub, from_spec,
}

-- The file that is taken is the only one that is wanted.
only_file-found :
    (lib : Reading) (files : List Codes) (file : Codes)
    → only_file lib files ≡ found file
    → (files ≡ file ∷ []) × (is_shard lib file ≡ false)
only_file-found lib [] file h = cc
only_file-found lib (f ∷ []) file h = elim (Bool-cases (is_shard lib f)) [
  | inl shard ↦ ground (arith, shard, h)
  | inr whole ↦ ground (arith, whole, h)
]
only_file-found lib (f ∷ g ∷ rest) file h = cc

hub_file-found :
    (lib : Reading) (quant : Option Codes) (files : List Codes) (file : Codes)
    → hub_file lib quant files ≡ found file
    → (select (is_wanted lib quant) files ≡ file ∷ []) × (is_shard lib file ≡ false)
unfolding hub_file
hub_file-found lib quant files file h =
    only_file-found lib (select (is_wanted lib quant) files) file h

release-none :
    (name : Codes) (active : List Codes)
    → any (same_codes name) active ≡ false
    → release name active ≡ active
unfolding release
release-none name [] h = refl
release-none name (other ∷ rest) h = ground (arith, h, release-none name rest)

release-claim :
    (name : Codes) (active active' : List Codes)
    → claim name active ≡ some active'
    → release name active' ≡ active
unfolding claim release
release-claim name active active' h = elim (Bool-cases (any (same_codes name) active)) [
  | inl taken ↦ ground (arith, h, taken)
  | inr free ↦ ground (arith, h, free, release-none name active free, same_codes_refl name)
]

module _ (lib : Reading) (hashing : Hashing) (limits : Limits) (directory : Directory) where
  claimed-active :
      (pull : Pull) (fetch : ℕ → Fetched) (name : Codes) (active : List Codes)
      (o : Option (List Codes))
      → claim name active ≡ o
      → (claimed lib hashing limits directory pull fetch name active o).active ≡ active
  claimed-active pull fetch name active none h = refl
  claimed-active pull fetch name active (some active') h = release-claim name active active' h

  unless_refused-active :
      (pull : Pull) (fetch : ℕ → Fetched) (name : Codes) (active : List Codes) (o : Option Refusal)
      → (unless_refused lib hashing limits directory pull fetch name active o).active ≡ active
  unless_refused-active pull fetch name active (some e) = refl
  unless_refused-active pull fetch name active none =
      claimed-active pull fetch name active (claim name active) refl

  pulled_from-active :
      (pull : Pull) (fetch : Codes → ℕ → Fetched) (url : Codes) (active : List Codes)
      → (pulled_from lib hashing limits directory pull fetch url active).active ≡ active
  pulled_from-active pull fetch url active =
      let name = given_or pull.name (lib.last_name url) in
      if_both (λ (a : After). a.active ≡ active) (not (matches_name name)) (λ bad. refl)
        (λ good.
          unless_refused-active pull (fetch url) name active (refusal_of directory pull.force name))

  from_hub-active :
      (url_of : Codes → Codes) (fetch : Codes → ℕ → Fetched) (pull : Pull) (active : List Codes)
      (file : HubFile)
      → (from_hub lib hashing limits directory url_of fetch pull active file).active ≡ active
  from_hub-active url_of fetch pull active (found file) =
      pulled_from-active pull fetch (url_of file) active
  from_hub-active url_of fetch pull active no_file = refl
  from_hub-active url_of fetch pull active several = refl
  from_hub-active url_of fetch pull active sharded = refl

  from_spec-active :
      (url_of : Codes → Codes → Codes) (files_of : Codes → List Codes) (fetch : Codes → ℕ → Fetched)
      (pull : Pull) (active : List Codes) (spec : Spec)
      → (from_spec lib hashing limits directory url_of files_of fetch pull active spec).active
        ≡ active
  from_spec-active url_of files_of fetch pull active (at_url url) =
      pulled_from-active pull fetch url active
  from_spec-active url_of files_of fetch pull active (at_hub repo quant) =
      from_hub-active (url_of repo) fetch pull active (hub_file lib quant (files_of repo))

  -- However a pull ends, the names that are taken are those that were.
  run_pull-active :
      (url_of : Codes → Codes → Codes) (files_of : Codes → List Codes) (fetch : Codes → ℕ → Fetched)
      (pull : Pull) (active : List Codes)
      → (run_pull lib hashing limits directory url_of files_of fetch pull active).active ≡ active
  unfolding run_pull
  run_pull-active url_of files_of fetch pull active =
      from_spec-active url_of files_of fetch pull active pull.spec
