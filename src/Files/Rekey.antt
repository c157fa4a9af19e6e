-- ===== src/Files/Rekey.antt =====
-- app/admin/rekey.py: the rotation of the encryption key. The two databases are the lists of the
-- values that may be encrypted, by column and key; Fernet is a parameter, and so is whether a backup
-- can be made and a transaction committed.
pub mod Applied
pub mod Readable
pub mod Rotation
pub mod Guided
use channel_agent.Prelude.{
  ℕ, zero, ◌+◌, ◌==◌, String, ◌&&◌, ◌||◌, not, Bool, true, false, Option, none, some, List, [], ◌∷◌,
  ◌++◌, map, str_eq, ltb, if◌then◌else◌, Codes, is_nil, same_codes,
}

-- `Fernet(key)`
pub record Fernet (T P : Type 0) : Type 0 where
  pub decrypt : T → Option P
  pub encrypt : P → T

-- A value of a column that may be encrypted; in a checkpoint the type says whether it is.
pub record Cell (T : Type 0) : Type 0 where
  pub column : String
  pub key : ℕ
  pub encrypted : Bool
  pub value : Option T

-- An update: the column, the key and the new value.
pub record Update (T : Type 0) : Type 0 where
  pub column : String
  pub key : ℕ
  pub value : T

-- RekeyReport: its counts over all columns.
pub record Report : Type 0 where
  pub old : ℕ
  pub new : ℕ
  pub unreadable : ℕ

pub data RekeyError : Type 0 where
  no_key same_key bad_key no_database : RekeyError
  unreadable_values backup_failed commit_failed not_verified still_old : RekeyError

-- What a run ends with: the report and whether it was applied, or an error.
pub data Ending : Type 0 where
  reported : (applied : Bool) → Report → Ending
  refused : RekeyError → Ending

pub data Kind (T : Type 0) : Type 0 where
  is_old : T → Kind T
  is_new is_unreadable : Kind T

abbrev pub at_place : {T : Type 0} → Cell T → Update T → Bool
at_place c u = str_eq c.column u.column && c.key == u.key

abbrev pub no_report : Report
no_report = record { old = 0; new = 0; unreadable = 0 }

abbrev pub added : Report → Report → Report
added a b = record {
  old = a.old + b.old;
  new = a.new + b.new;
  unreadable = a.unreadable + b.unreadable;
}

module _ {T P : Type 0} (old new : Fernet T P) where
  abbrev kind_of : Option P → Option P → Kind T
  kind_of (some plain) other = is_old (new.encrypt plain)
  kind_of none (some plain) = is_new
  kind_of none none = is_unreadable

  -- `_classify`
  unfoldable pub classify : T → Kind T
  classify token = kind_of (old.decrypt token) (new.decrypt token)

  abbrev pub tallied : Kind T → Report
  tallied (is_old t) = record no_report { old = 1 }
  tallied is_new = record no_report { new = 1 }
  tallied is_unreadable = record no_report { unreadable = 1 }

  abbrev pub update_for : Cell T → Kind T → List (Update T)
  update_for c (is_old t) = record { column = c.column; key = c.key; value = t } ∷ []
  update_for c is_new = []
  update_for c is_unreadable = []

  -- The value that a plan looks at.
  abbrev pub sealed : Cell T → Option T
  sealed c = if c.encrypted then c.value else none

  abbrev pub planned : Cell T → Option T → Report × List (Update T)
  planned c none = (no_report, [])
  planned c (some t) = (tallied (classify t), update_for c (classify t))

  -- `_plan_app`, `_plan_checkpoints`
  unfoldable pub plan_values : List (Cell T) → Report × List (Update T)
  unfolding classify
  plan_values [] = (no_report, [])
  plan_values (c ∷ cs) =
      let (r, us) = planned c (sealed c) in
      let (r', us') = plan_values cs in (added r r', us ++ us')

-- `update … set … where …`
abbrev pub write : {T : Type 0} → Update T → Cell T → Cell T
write u c = if at_place c u then record c { value = some u.value } else c

unfoldable pub execute : {T : Type 0} → List (Update T) → List (Cell T) → List (Cell T)
execute [] cells = cells
execute (u ∷ us) cells = execute us (map (write u) cells)

-- The two databases; there may be no checkpoints.
pub record Databases (T : Type 0) : Type 0 where
  pub app : List (Cell T)
  pub checkpoints : Option (List (Cell T))

-- What the files do: whether the copies could be made, and how the two commits end.
pub record Disk : Type 0 where
  pub backups_made : Bool
  pub app_commits : Bool
  pub checkpoints_commit : Bool

pub record Options : Type 0 where
  pub dry_run : Bool
  pub allow_unreadable : Bool
  pub backup : Bool

abbrev pub cells_or_none : {T : Type 0} → Option (List (Cell T)) → List (Cell T)
cells_or_none none = []
cells_or_none (some cells) = cells

abbrev pub executed_option :
    {T : Type 0} → List (Update T) → Option (List (Cell T)) → Option (List (Cell T))
executed_option us none = none
executed_option us (some cells) = some (execute us cells)

abbrev pub is_there : {A : Type 0} → Option A → Bool
is_there none = false
is_there (some a) = true

abbrev pub nothing : {T : Type 0} → List (Update T) → Bool
nothing [] = true
nothing (u ∷ us) = false

module _ {T P : Type 0} (old new : Fernet T P) where
  -- The plan of both databases.
  abbrev pub report_of : Databases T → Report
  report_of d =
      added (plan_values old new d.app).0 (plan_values old new (cells_or_none d.checkpoints)).0

  -- `_verify`, with the report of the run
  unfoldable pub verify : Report → Databases T → Option RekeyError
  unfolding plan_values
  verify report d =
      if not ((report_of d).unreadable == 0) && report.unreadable == 0
      then some not_verified
      else none

  abbrev pub ended :
      (applied : Bool) → Report → Databases T → Option RekeyError → Ending × Databases T
  ended applied report d (some e) = (refused e, d)
  ended applied report d none =
      if applied && not ((report_of d).old == 0)
      then (refused still_old, d)
      else (reported applied report, d)

  -- Both transactions: the first that fails is rolled back, and so is the one behind it.
  abbrev pub committed : Disk → Databases T → Databases T → Report → Ending × Databases T
  committed disk before after report =
      if not disk.app_commits
      then (refused commit_failed, before)
      else if is_there before.checkpoints && not disk.checkpoints_commit
      then (refused commit_failed, record before { app = after.app })
      else ended true report after (verify report after)

  abbrev pub applied : Disk → Databases T → Report → Ending × Databases T
  applied disk d report =
      committed disk d
        (record {
          app = execute (plan_values old new d.app).1 d.app;
          checkpoints =
              executed_option (plan_values old new (cells_or_none d.checkpoints)).1 d.checkpoints;
        })
        report

  -- The run, with keys that are Fernet keys.
  unfoldable pub rotate : Disk → Options → Databases T → Ending × Databases T
  unfolding plan_values execute verify
  rotate disk options d =
      let report = report_of d in
      if options.dry_run
      then (reported false report, d)
      else if not (report.unreadable == 0) && not options.allow_unreadable
      then (refused unreadable_values, d)
      else if nothing (plan_values old new d.app).1
          && nothing (plan_values old new (cells_or_none d.checkpoints)).1
      then ended false report d (verify report d)
      else if options.backup && not disk.backups_made
      then (refused backup_failed, d)
      else applied disk d report

abbrev pub with_database :
    {T P : Type 0}
    → Disk
    → Options
    → Fernet T P
    → Fernet T P
    → Option (Databases T)
    → Ending × Option (Databases T)
with_database disk options old new none = (refused no_database, none)
with_database disk options old new (some d) =
    let result = rotate old new disk options d in (result.0, some result.1)

abbrev pub with_keys :
    {T P : Type 0}
    → Disk
    → Options
    → Option (Fernet T P)
    → Option (Fernet T P)
    → Option (Databases T)
    → Ending × Option (Databases T)
with_keys disk options (some old) (some new) given = with_database disk options old new given
with_keys disk options none new given = (refused bad_key, given)
with_keys disk options (some old) none given = (refused bad_key, given)

-- `run_rekey`; `none` is a database that does not exist.
unfoldable pub run_rekey :
    {T P : Type 0}
    → (Codes → Option (Fernet T P))
    → Disk
    → Options
    → Codes
    → Codes
    → Option (Databases T)
    → Ending × Option (Databases T)
unfolding rotate same_codes
run_rekey fernet disk options old_key new_key given =
    if is_nil old_key || is_nil new_key
    then (refused no_key, given)
    else if same_codes old_key new_key
    then (refused same_key, given)
    else with_keys disk options (fernet old_key) (fernet new_key) given
