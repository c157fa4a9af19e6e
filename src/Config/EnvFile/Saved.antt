-- ===== src/Config/EnvFile/Saved.antt =====
-- app/settings_rules.py: `set_config` and the values read after it.
use mathlib.Core.Path.{subst}
use channel_agent.Prelude.{
  ◌≡◌, refl, sym, inl, inr, Bool, true, false, Option, none, some, any, leb, if◌then◌else◌, Codes,
  Bool-cases, Option-cases, arith, same_codes,
}
use channel_agent.Config.Rules.{TextLibrary, Reason, validate}
use channel_agent.Config.EnvFile.{
  written_lines, read_lines, joined, read_env, lookup, EnvFiles, Outcome, saved, refused,
  set_config, set_in, write_checked, is_protected, encryption_key, example_keys,
}
use channel_agent.Config.EnvFile.Written.{
  IsSetting, IsSetting-validate, written_other, written_same,
}
use channel_agent.Config.EnvFile.Update.{assigning}

-- What `set_config` returns where there is a file: an error and the same files, or the new lines.
abbrev IsOutcome :
    TextLibrary → Bool → Codes → Codes → Codes → EnvFiles → Outcome × EnvFiles → Type 0
IsOutcome lib allow key value content files (refused e, after) = after ≡ files
IsOutcome lib allow key value content files (saved, after) =
    (is_protected allow key (read_lines content) ≡ false)
    × (validate lib key value ≡ some none)
    × (after ≡ record files {
      env = some (joined (written_lines key value (read_lines content)));
      backup = some content;
    })

written_lem :
    (lib : TextLibrary) (allow : Bool) (key value content : Codes) (files : EnvFiles)
    (v : Option (Option Reason))
    → is_protected allow key (read_lines content) ≡ false
    → validate lib key value ≡ v
    → IsOutcome lib allow key value content files (write_checked key value files content v)
written_lem lib allow key value content files none p k = refl
written_lem lib allow key value content files (some (some r)) p k = refl
written_lem lib allow key value content files (some none) p k = (p, k, refl)

outcome_lem :
    (lib : TextLibrary) (allow : Bool) (key value content : Codes) (files : EnvFiles)
    → files.env ≡ some content
    → IsOutcome lib allow key value content files (set_config lib allow key value files)
unfolding set_config
outcome_lem lib allow key value content files h =
    elim (Bool-cases (any (same_codes key) (example_keys files.example))) [
      | inr unknown_key ↦ rw unknown_key refl
      | inl known ↦ rw known (
          subst
            (λ (e : Option Codes).
              IsOutcome lib allow key value content files (set_in lib allow key value files e))
            (sym h) checked)
    ]
  where
    checked :
        IsOutcome lib allow key value content files
          (set_in lib allow key value files (some content))
    checked = elim (Bool-cases (is_protected allow key (read_lines content))) [
      | inl protected ↦ rw protected refl
      | inr open_key ↦
          rw open_key
            (written_lem lib allow key value content files (validate lib key value) open_key refl)
    ]

-- A value that was saved is the value that is read, and no other value changes, if no more than one
-- line assigned the name; the previous file is the backup.
pub set_config-read_env :
    (lib : TextLibrary) (allow : Bool) (key value content name : Codes) (files : EnvFiles)
    → files.env ≡ some content
    → leb (assigning key (read_lines content)) 1 ≡ true
    → (set_config lib allow key value files).0 ≡ saved
    → let after = (set_config lib allow key value files).1 in
      (lookup name (read_env after.env)
        ≡ (if same_codes key name then some value else lookup name (read_env (some content))))
      × (after.backup ≡ some content)
set_config-read_env lib allow key value content name files h n k =
    done (set_config lib allow key value files) (outcome_lem lib allow key value content files h) k
  where
    done :
        (r : Outcome × EnvFiles)
        → IsOutcome lib allow key value content files r
        → r.0 ≡ saved
        → (lookup name (read_env r.1.env)
            ≡ (if same_codes key name then some value else lookup name (read_env (some content))))
          × (r.1.backup ≡ some content)
    done (refused e, after) o s = cc
    done (saved, after) o s = rw (o.2) (value_read, refl)
      where
        is_setting : IsSetting key value
        is_setting = IsSetting-validate lib key value o.1

        value_read :
            lookup name (read_env (some (joined (written_lines key value (read_lines content)))))
            ≡ (if same_codes key name then some value else lookup name (read_env (some content)))
        value_read = elim (Bool-cases (same_codes key name)) [
          | inl same ↦ rw same (written_same key value content name is_setting n same)
          | inr other ↦ rw other (written_other key value content name is_setting other)
        ]

no_file_lem :
    (lib : TextLibrary) (allow : Bool) (key value : Codes) (files : EnvFiles)
    → files.env ≡ none
    → lookup encryption_key (read_env (set_config lib allow key value files).1.env)
      ≡ lookup encryption_key (read_env files.env)
unfolding set_config
no_file_lem lib allow key value files h =
    elim (Bool-cases (any (same_codes key) (example_keys files.example))) [
      | inr unknown_key ↦ rw unknown_key refl
      | inl known ↦ rw known (
          subst
            (λ (e : Option Codes).
              lookup encryption_key (read_env (set_in lib allow key value files e).1.env)
              ≡ lookup encryption_key (read_env files.env))
            (sym h) refl)
    ]

-- Without the flag no change alters the encryption key that is read, whatever the files hold.
pub set_config_keeps_encryption_key :
    (lib : TextLibrary) (key value : Codes) (files : EnvFiles)
    → lookup encryption_key (read_env (set_config lib false key value files).1.env)
      ≡ lookup encryption_key (read_env files.env)
set_config_keeps_encryption_key lib key value files = elim (Option-cases files.env) [
  | inl no_file ↦ no_file_lem lib false key value files no_file
  | inr (content, h) ↦
      done content h (set_config lib false key value files)
        (outcome_lem lib false key value content files h)
]
  where
    done :
        (content : Codes)
        → files.env ≡ some content
        → (r : Outcome × EnvFiles) → IsOutcome lib false key value content files r
        → lookup encryption_key (read_env r.1.env) ≡ lookup encryption_key (read_env files.env)
    done content h (refused e, after) o = rw o refl
    done content h (saved, after) o =
        rw (o.2, h)
          (written_other key value content encryption_key (IsSetting-validate lib key value o.1)
            (ground (arith, o.0)))
