-- ===== src/Files/Rekey/Guided.antt =====
-- app/admin/rekey_guided.py: the rotation around the .env file, as the states it goes through. A file
-- is its lines. The new key, the probes for a running application and the process that reads the data
-- back are parameters.
pub mod Recoverable
use channel_agent.Prelude.{
  ℕ, zero, ◌==◌, ◌&&◌, ◌||◌, not, Bool, true, false, Option, none, some, List, [], ◌∷◌, ◌++◌, map,
  drop, if◌then◌else◌, Codes, codes, is_nil, same_codes, starts_with, lstrip_codes, strip_codes,
}
use channel_agent.Files.Rekey.{
  is_there, Fernet, Databases, Disk, Options, Report, Ending, reported, refused, run_rekey,
}

abbrev pub key_prefix : Codes
key_prefix = codes "ENCRYPTION_KEY="

abbrev is_quote : ℕ → Bool
is_quote c = c == b'\'' || c == b'"'

abbrev lstrip_quotes : Codes → Codes
lstrip_quotes [] = []
lstrip_quotes (c ∷ s) = let rest = lstrip_quotes s in if is_quote c then rest else c ∷ s

abbrev rstrip_quotes : Codes → Codes
rstrip_quotes [] = []
rstrip_quotes (c ∷ s) =
    let rest = rstrip_quotes s in if is_nil rest && is_quote c then [] else c ∷ rest

-- `match.group(1).strip().strip("'\"")`
abbrev pub cleaned : Codes → Codes
cleaned s = rstrip_quotes (lstrip_quotes (strip_codes s))

-- `_current_key`
unfoldable pub current_key : List Codes → Codes
unfolding starts_with lstrip_codes
current_key [] = []
current_key (line ∷ lines) =
    let later = current_key lines in
    if starts_with key_prefix line then cleaned (drop 15 line) else later

abbrev pub replaced_line : Codes → Codes → Codes
replaced_line new_key line = if starts_with key_prefix line then key_prefix ++ new_key else line

-- `_replace_key`
unfoldable pub replace_key : Codes → List Codes → List Codes
unfolding starts_with
replace_key new_key lines = map (replaced_line new_key) lines

-- `.env`, `.env.pre-rekey` and the databases.
pub record Place (T : Type 0) : Type 0 where
  pub env : List Codes
  pub safety_net : Option (List Codes)
  pub databases : Databases T

pub record Asked : Type 0 where
  pub dry_run : Bool
  pub yes : Bool
  pub allow_unreadable : Bool
  pub typed : Codes

abbrev pub with_given : {T : Type 0} → Option (Databases T) → Databases T → Databases T
with_given none d = d
with_given (some d') d = d'

abbrev pub dry : Options
dry = record { dry_run = true; allow_unreadable = false; backup = true }

-- The exit code, and the states one after the other, the last one first.
abbrev pub Trace : Type 0 → Type 0
Trace T = List (Place T)

module _ {T P : Type 0} (fernet : Codes → Option (Fernet T P)) (disk : Disk) (new_key : Codes) where
  abbrev pub rekeyed_with : Options → Codes → Databases T → Ending × Option (Databases T)
  rekeyed_with options old_key d = run_rekey fernet disk options old_key new_key (some d)

  -- `_after_failure`: the .env file comes back when nothing is known to be under the new key.
  abbrev pub after_failure : Place T → Place T → Ending → Trace T
  after_failure before s (refused e) = []
  after_failure before s (reported applied report) =
      if report.new == 0
      then record s { env = before.env; safety_net = none } ∷ record s { env = before.env } ∷ []
      else []

  abbrev pub read_back_code : Asked → Option ℕ → ℕ
  read_back_code asked none = 3
  read_back_code asked (some n) = if not (n == 0) && not asked.allow_unreadable then 3 else 0

  abbrev pub after_rotation :
      Asked → (Place T → Option ℕ) → Codes → Place T → Place T → Ending → ℕ × Trace T
  after_rotation asked reads_back old_key before s (refused e) =
      (3, after_failure before s (rekeyed_with dry old_key s.databases).0 ++ s ∷ [])
  after_rotation asked reads_back old_key before s (reported applied report) =
      (read_back_code asked (reads_back s), s ∷ [])

  -- From the confirmation on.
  abbrev pub rotated : Asked → (Place T → Option ℕ) → Codes → Place T → ℕ × Trace T
  rotated asked reads_back old_key before =
      let saved = record before { safety_net = some before.env } in
      let switched = record saved { env = replace_key new_key before.env } in
      let options : Options = record {
        dry_run = false;
        allow_unreadable = asked.allow_unreadable;
        backup = true;
      } in
      let (ending, given) = rekeyed_with options old_key before.databases in
      let s = record switched { databases = with_given given before.databases } in
      let (code, later) = after_rotation asked reads_back old_key before s ending in
      (code, later ++ switched ∷ saved ∷ [])

  abbrev pub planned_for : Asked → (Place T → Option ℕ) → Codes → Place T → Ending → ℕ × Trace T
  planned_for asked reads_back old_key before (refused e) = (2, [])
  planned_for asked reads_back old_key before (reported applied report) =
      if not (report.unreadable == 0) && not asked.allow_unreadable
      then (2, [])
      else if asked.dry_run
      then (0, [])
      else if not asked.yes && not (same_codes (strip_codes asked.typed) (codes "ROTATE"))
      then (1, [])
      else rotated asked reads_back old_key before

  -- `main`, on a database file that is there: the exit code and the states after the first.
  unfoldable pub guided_rotation : List Codes → Asked → (Place T → Option ℕ) → Place T → ℕ × Trace T
  unfolding run_rekey current_key replace_key same_codes lstrip_codes
  guided_rotation reasons asked reads_back before =
      let old_key = current_key before.env in
      if not (is_nil reasons)
      then (2, [])
      else if is_nil old_key
      then (2, [])
      else if is_there before.safety_net && not asked.dry_run
      then (2, [])
      else planned_for asked reads_back old_key before (rekeyed_with dry old_key before.databases).0
