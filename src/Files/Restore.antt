-- ===== src/Files/Restore.antt =====
-- app/admin/restore.py and app/db/backup.py: a verified copy of the database, and a backup put in its
-- place. SQLite is a parameter: what a file holds as it is opened, and its online copy.
pub mod Checked
use channel_agent.Prelude.{
  ℕ, zero, ◌&&◌, ◌||◌, not, Bool, true, false, Option, none, some, List, [], ◌∷◌, ◌++◌, any, all,
  map, length, select, ◌==◌, if◌then◌else◌, Codes, codes, is_nil, same_codes, lstrip_codes,
  strip_codes,
}

-- A file as SQLite reads it; `rows` is the count of a table, `none` where it is not there, `values` are
-- those of the encrypted columns, `copy` is the online backup.
pub record Sqlite (F T : Type 0) : Type 0 where
  pub is_readable : F → Bool
  pub integrity_ok : F → Bool
  pub tables : F → List Codes
  pub rows : F → Codes → Option ℕ
  pub version : F → Option Codes
  pub values : F → List T
  pub copy : F → Option F

-- What the code knows: the counted tables, its revisions and their head.
pub record Schema : Type 0 where
  pub counted : List Codes
  pub revisions : List Codes
  pub head : Codes

pub data RestoreError : Type 0 where
  live_database is_running not_a_file not_readable corrupt not_channel_agent : RestoreError
  unknown_revision unreadable cancelled not_backed_up copy_failed : RestoreError
  staged_corrupt staged_differs not_cleared not_replaced restored_corrupt : RestoreError

-- A file of `backups/`, with the label in its name.
pub record Kept (F : Type 0) : Type 0 where
  pub label : Codes
  pub file : F

-- The database when it is there and not empty, the files of SQLite beside it ("-wal", "-shm" and
-- "-journal"), and the copies.
pub record Store (F : Type 0) : Type 0 where
  pub database : Option F
  pub leftovers : List Codes
  pub backups : List (Kept F)

-- `clears` is whether the files beside the database can be removed, `remaining` what is left of them if
-- not, and `replaces` whether the new database can be moved into its place.
pub record Request (F T : Type 0) : Type 0 where
  pub backup : Option F
  pub is_live : Bool
  pub reasons : List Codes
  pub decrypts : T → Bool
  pub yes : Bool
  pub allow_unreadable : Bool
  pub typed : Codes
  pub clears : Bool
  pub remaining : List Codes
  pub replaces : Bool

pub record Report : Type 0 where
  pub unreadable : ℕ
  pub needs_migration : Bool
  pub counts_before : List (Option ℕ)
  pub counts_after : List (Option ℕ)

pub data Restored : Type 0 where
  restored : Report → Restored
  refused : RestoreError → Restored

abbrev same_count : Option ℕ → Option ℕ → Bool
same_count none none = true
same_count (some a) (some b) = a == b
same_count none (some b) = false
same_count (some a) none = false

unfoldable pub same_counts : List (Option ℕ) → List (Option ℕ) → Bool
same_counts [] [] = true
same_counts [] (b ∷ bs) = false
same_counts (a ∷ rest) [] = false
same_counts (a ∷ rest) (b ∷ bs) = same_count a b && same_counts rest bs

abbrev same_option : Option Codes → Codes → Bool
same_option none text = false
same_option (some other) text = same_codes other text

abbrev pub is_member : Codes → List Codes → Bool
is_member name names = any (same_codes name) names

-- `revision not in known`
abbrev pub is_known : Option Codes → List Codes → Bool
is_known none known = false
is_known (some revision) known = is_member revision known

module _ {F T : Type 0} (sqlite : Sqlite F T) where
  -- `_verify`
  unfoldable pub verify : F → F → Bool
  verify source target =
      sqlite.integrity_ok target
      && all (λ t. same_count (sqlite.rows source t) (sqlite.rows target t)) (sqlite.tables source)

  abbrev verified : F → Option F → Option F
  verified source none = none
  verified source (some target) = if verify source target then some target else none

  -- `make_backup`; `none` is an error, which leaves no copy.
  unfoldable pub make_backup : F → Option F
  unfolding verify
  make_backup source = verified source (sqlite.copy source)

  module _ (schema : Schema) where
    abbrev pub row_counts : F → List (Option ℕ)
    row_counts file = map (sqlite.rows file) schema.counted

    -- `check_backup`
    unfoldable pub check_backup : Option F → Option RestoreError
    unfolding same_codes
    check_backup none = some not_a_file
    check_backup (some file) =
        if not (sqlite.is_readable file)
        then some not_readable
        else if not (sqlite.integrity_ok file)
        then some corrupt
        else if not (
            is_member (codes "users") (sqlite.tables file)
            && is_member (codes "alembic_version") (sqlite.tables file))
        then some not_channel_agent
        else if not (is_known (sqlite.version file) schema.revisions)
        then some unknown_revision
        else none

    -- `unreadable_values`, over all columns
    unfoldable pub unreadable_values : (T → Bool) → F → ℕ
    unfolding select
    unreadable_values decrypts file = length (select (λ v. not (decrypts v)) (sqlite.values file))

    abbrev counts_of : Option F → List (Option ℕ)
    counts_of none = []
    counts_of (some file) = row_counts file

    abbrev pub report_of : Request F T → Store F → F → F → Report
    report_of request store backup copy = record {
      unreadable = unreadable_values request.decrypts backup;
      needs_migration = not (same_option (sqlite.version backup) schema.head);
      counts_before = counts_of store.database;
      counts_after = row_counts copy;
    }

    abbrev pub swapped : Request F T → Store F → F → F → Restored × Store F
    swapped request store backup copy =
        let store' : Store F = record store { database = some copy; leftovers = [] } in
        if not (sqlite.integrity_ok copy)
        then (refused restored_corrupt, store')
        else (restored (report_of request store backup copy), store')

    -- The copy next to the database is checked, then moved into its place, without the files that
    -- SQLite would replay onto it. The last check reads the file that was moved. No error is modelled
    -- of what follows the move: the change of the file's mode and the reading of the new database.
    abbrev pub staged : Request F T → Store F → F → Option F → Restored × Store F
    staged request store backup none = (refused copy_failed, store)
    staged request store backup (some copy) =
        if not (sqlite.integrity_ok copy)
        then (refused staged_corrupt, store)
        else if not (same_counts (row_counts copy) (row_counts backup))
        then (refused staged_differs, store)
        else if not request.clears
        then (refused not_cleared, record store { leftovers = request.remaining })
        else if not request.replaces
        then (refused not_replaced, record store { leftovers = [] })
        else swapped request store backup copy

    abbrev pub with_copy : Request F T → Store F → F → Option F → Restored × Store F
    with_copy request store backup none = (refused not_backed_up, store)
    with_copy request store backup (some kept) =
        staged request
          (record store {
            backups = store.backups ++ record { label = codes "before-restore"; file = kept } ∷ [];
          })
          backup (sqlite.copy backup)

    -- The current database is kept first, when there is one.
    abbrev pub replaced_by : Request F T → Store F → F → Option F → Restored × Store F
    replaced_by request store backup none = staged request store backup (sqlite.copy backup)
    replaced_by request store backup (some current) =
        with_copy request store backup (make_backup current)

    abbrev pub confirmed : Request F T → Store F → F → Restored × Store F
    confirmed request store backup =
        if not (unreadable_values request.decrypts backup == 0) && not request.allow_unreadable
        then (refused unreadable, store)
        else if not request.yes && not (same_codes (strip_codes request.typed) (codes "RESTORE"))
        then (refused cancelled, store)
        else replaced_by request store backup store.database

    abbrev pub with_check :
        Request F T → Store F → Option F → Option RestoreError → Restored × Store F
    with_check request store none e = (refused not_a_file, store)
    with_check request store (some backup) (some e) = (refused e, store)
    with_check request store (some backup) none = confirmed request store backup

    unfoldable pub run_restore : Request F T → Store F → Restored × Store F
    unfolding check_backup make_backup unreadable_values same_counts same_codes lstrip_codes
    run_restore request store =
        if request.is_live
        then (refused live_database, store)
        else if not (is_nil request.reasons)
        then (refused is_running, store)
        else with_check request store request.backup (check_backup request.backup)
