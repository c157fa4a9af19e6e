-- ===== src/Files/Backups.antt =====
-- app/db/backup.py and app/admin/restore.py: the copies before a migration, which of them are kept, and
-- what the name of a copy says. A directory is the list of its names.
pub mod Stays
use channel_agent.Prelude.{
  ℕ, zero, suc, ◌≡◌, refl, sym, ap, ◌∙◌, ◌+◌, ◌-◌, ◌&&◌, ◌||◌, not, Bool, true, false, Option, none,
  some, List, [], ◌∷◌, ◌++◌, any, all, map, take, drop, length, select, ◌==◌, leb, ltb,
  if◌then◌else◌, Codes, codes, is_digit, is_infix, is_nil, same_codes, same_codes_refl,
  eq_of_same_codes, starts_with, All, Bool-cases, if_both, arith,
}
use channel_agent.Files.Restore.{Sqlite, Kept, make_backup}

abbrev is_stamp : Codes → Bool
is_stamp s =
    starts_with (codes "-") s
    && all is_digit (take 8 (drop 1 s))
    && starts_with (codes "T") (drop 9 s)
    && all is_digit (take 12 (drop 10 s))
    && same_codes (drop 22 s) (codes "Z.db")

abbrev stamp_at : Codes → Option Codes
stamp_at s = if length s == 26 && is_stamp s then some (take 22 (drop 1 s)) else none

-- _STAMP, at the end of a name
unfoldable pub stamp_of : Codes → Option Codes
unfolding same_codes starts_with
stamp_of name = stamp_at (drop (length name - 26) name)

-- `str.__le__`
unfoldable pub codes_le : Codes → Codes → Bool
codes_le [] t = true
codes_le (c ∷ s) [] = false
codes_le (c ∷ s) (d ∷ t) = let rest = codes_le s t in ltb c d || c == d && rest

abbrev is_some : Option Codes → Bool
is_some none = false
is_some (some s) = true

abbrev or_empty : Option Codes → Codes
or_empty none = []
or_empty (some s) = s

-- The stamp comes first, then the name.
abbrev pub entry_le : Codes → Codes → Bool
entry_le a b =
    let s = or_empty (stamp_of a) in
    let t = or_empty (stamp_of b) in if same_codes s t then codes_le a b else codes_le s t

unfoldable pub insert : Codes → List Codes → List Codes
unfolding stamp_of codes_le same_codes
insert name [] = name ∷ []
insert name (other ∷ rest) =
    let later = insert name rest in
    if entry_le name other then name ∷ other ∷ rest else other ∷ later

unfoldable pub sorted : List Codes → List Codes
unfolding insert
sorted [] = []
sorted (name ∷ rest) = insert name (sorted rest)

-- _NEVER_PRUNED
unfoldable pub never_pruned : Codes → Bool
unfolding is_infix
never_pruned name = is_infix (codes "-prerekey-") name || is_infix (codes "-before-restore-") name

-- Whether a copy is one that may go.
abbrev pub is_dated : Codes → Bool
is_dated name = not (never_pruned name) && is_some (stamp_of name)

-- The copies that go: all but the newest ones.
unfoldable pub outdated : ℕ → List Codes → List Codes
unfolding sorted select
outdated keep names =
    let dated = sorted (select is_dated names) in
    if keep == 0 then [] else take (length dated - keep) dated

-- `_prune`, of the copies of one database
unfoldable pub prune_backups : ℕ → List Codes → List Codes
unfolding outdated select
prune_backups keep names = select (λ name. not (any (same_codes name) (outdated keep names))) names

pub data BackupKind : Type 0 where
  migration prerekey before_restore other_kind : BackupKind

abbrev is_revision : Codes → Bool
is_revision s = length s == 12 && all (λ c. is_digit c || (leb b'a' c && leb c b'f')) s

abbrev kind_of_label : Codes → BackupKind × Option Codes
kind_of_label label =
    if same_codes label (codes "prerekey")
    then (prerekey, none)
    else if same_codes label (codes "before-restore")
    then (before_restore, none)
    else if same_codes label (codes "none")
    then (migration, none)
    else if is_revision label
    then (migration, some label)
    else (other_kind, none)

-- `_parse_name`: the kind and the revision
unfoldable pub parse_name : Codes → Codes → BackupKind × Option Codes
unfolding stamp_of same_codes
parse_name stem name = elim (stamp_of name) [
  | none ↦ (other_kind, none)
  | some stamp ↦ kind_of_label (drop (length stem + 1) (take (length name - 26) name))
]

module _ {F T : Type 0} (sqlite : Sqlite F T) where
  abbrev has_revision : Option Codes → Codes → Bool
  has_revision none head = false
  has_revision (some revision) head = same_codes revision head

  -- Whether a migration is about to change the file.
  abbrev pub is_behind : Codes → F → Bool
  is_behind head file =
      not (has_revision (sqlite.version file) head)
      && not (not (is_some (sqlite.version file)) && is_nil (sqlite.tables file))

  -- What happens before a migration: nothing, an error that stops it, or a copy, with the names left.
  pub data Before : Type 0 where
    not_needed not_made : Before
    made : F → List Codes → Before

  abbrev before_copy : ℕ → (Option Codes → Codes) → List Codes → F → Option F → Before
  before_copy keep name_of names file none = not_made
  before_copy keep name_of names file (some target) =
      made target (prune_backups keep (name_of (sqlite.version file) ∷ names))

  -- `backup_before_migration`, of a file that is there and not empty
  unfoldable pub backup_before_migration :
      Codes → ℕ → (Option Codes → Codes) → List Codes → Option F → Before
  unfolding prune_backups make_backup same_codes
  backup_before_migration head keep name_of names none = not_needed
  backup_before_migration head keep name_of names (some file) =
      if keep == 0 || not (is_behind head file)
      then not_needed
      else before_copy keep name_of names file (make_backup sqlite file)
