-- ===== src/Examples/Disk.antt =====
-- A rotation of the key, a pull of a model, and a restore.
use channel_agent.Prelude.{
  ℕ, ◌≡◌, refl, ◌==◌, String, true, false, Option, none, some, [], ◌∷◌, if◌then◌else◌, codes, arith,
  Codes, All, rstrip_codes, is_white, same_codes,
}
use channel_agent.Outbound.{NetLibrary, Parts, v4}
use channel_agent.Files.Rekey.{Fernet, Cell, Databases, Disk, Options, run_rekey}
use channel_agent.Files.Models.{Slot, put_in_place}
use channel_agent.Files.Models.Fetch.{
  Response, Seen, Asking, Fetched, answered, fetch, AreGuarded, fetch-AreGuarded,
}
use channel_agent.Files.Models.Download.{Limits, Hashing, pulled, expected_hash, download}
use channel_agent.Files.Models.Download.Kept.{IsKept, download-IsKept}
use channel_agent.Files.Models.Download.Resumed.{cut_answer, rest_answer, download-resumed}
use channel_agent.Files.Restore.{Sqlite, Schema, Store, run_restore}
use channel_agent.Files.Restore.{Request as RestoreRequest}
use channel_agent.Files.Restore.Checked.{IsDone, run_restore-IsDone}
use channel_agent.Files.Rekey.Guided.{Place, Asked, guided_rotation, current_key}
use channel_agent.Files.Rekey.Guided.Recoverable.{IsRecoverable, guided_rotation-IsSafe}
use channel_agent.Files.Rekey.Rotation.{IsRun, run_rekey-IsRun}

-- A token is the number of its key and the text.
abbrev fernet : ℕ → Fernet (ℕ × String) String
fernet key = record {
  decrypt = λ token. if token.0 == key then some token.1 else none;
  encrypt = λ plain. (key, plain);
}

abbrev fernet_of : Codes → Option (Fernet (ℕ × String) String)
fernet_of key = if same_codes key (codes "old") then some (fernet 1) else some (fernet 2)

abbrev cell : String → ℕ → ℕ × String → Cell (ℕ × String)
cell column key token = record { column = column; key = key; encrypted = true; value = some token }

abbrev both : Databases (ℕ × String)
both = record {
  app =
      cell "action_logs.text" 1 (1, "hello")
      ∷ cell "action_logs.text" 2 (2, "again")
      ∷ cell "agents.system_prompt" 1 (1, "be kind")
      ∷ [];
  checkpoints = some (cell "writes.value" 1 (1, "state") ∷ []);
}

abbrev disk : Disk
disk = record { backups_made = true; app_commits = true; checkpoints_commit = true }

abbrev plainly : Options
plainly = record { dry_run = false; allow_unreadable = false; backup = true }

run_rekey-IsRun_example :
    IsRun
      (fernet 1)
      (fernet 2)
      disk
      plainly
      both
      (run_rekey fernet_of disk plainly (codes "old") (codes "new") (some both))
unfolding same_codes
run_rekey-IsRun_example =
    run_rekey-IsRun (fernet 1) (fernet 2) ((λ p. refl), (λ p. refl)) fernet_of disk plainly
      (codes "old") (codes "new") both refl refl refl refl ((refl, (refl, (refl, _))), (refl, _))

abbrev project : Place (ℕ × String)
project = record {
  env = codes "TOKEN=1" ∷ codes "ENCRYPTION_KEY=old" ∷ [];
  safety_net = none;
  databases = both;
}

abbrev asked : Asked
asked = record { dry_run = false; yes = true; allow_unreadable = false; typed = [] }

abbrev no_disk : Disk
no_disk = record { backups_made = true; app_commits = true; checkpoints_commit = false }

-- The second transaction fails.
guided_rotation-IsSafe_example :
    All
      (IsRecoverable (fernet 1) (fernet 2) (codes "new") project)
      (guided_rotation fernet_of no_disk (codes "new") [] asked (λ s. some 0) project).1
unfolding same_codes current_key rstrip_codes is_white
guided_rotation-IsSafe_example =
    guided_rotation-IsSafe (fernet 1) (fernet 2) fernet_of no_disk (codes "new") asked (λ s. some 0)
      project [] ((λ p. refl), (λ p. refl)) ((refl, (refl, (refl, _))), (refl, _)) refl refl refl
      refl refl

abbrev hashing : Hashing
hashing = record { sha256 = λ content. content; lower = λ s. s }

abbrev limits : Limits
limits = record { max_bytes = 8; free = 200000000 }

abbrev nothing_seen : Seen
nothing_seen = record { etag = none; size = none }

abbrev no_slot : Slot
no_slot = record { is_link = false; dest = none; part = none; sidecar = none }

abbrev half_slot : Slot
half_slot = record { is_link = false; dest = none; part = some (1 ∷ 2 ∷ []); sidecar = none }

abbrev other_half : ℕ → Fetched
other_half start = answered (rest_answer start 4 ((3 ∷ 4 ∷ []) ∷ [])) nothing_seen

download-IsKept_example :
    IsKept hashing limits none half_slot (download hashing limits none other_half half_slot)
download-IsKept_example = download-IsKept hashing limits none other_half half_slot (omega arith)

download-resumed_example :
    download hashing limits none
      (λ start. answered (rest_answer start 4 ((3 ∷ 4 ∷ []) ∷ [])) nothing_seen)
      (download hashing limits none
        (λ start. answered (cut_answer 4 ((1 ∷ 2 ∷ []) ∷ [])) nothing_seen)
        no_slot).1
    ≡ (
      pulled (record { size = 4; digest = 1 ∷ 2 ∷ 3 ∷ 4 ∷ [] }) false,
      put_in_place (1 ∷ 2 ∷ 3 ∷ 4 ∷ []) (1 ∷ 2 ∷ 3 ∷ 4 ∷ []) no_slot,
    )
unfolding expected_hash
download-resumed_example =
    download-resumed hashing limits none nothing_seen ((1 ∷ 2 ∷ []) ∷ []) ((3 ∷ 4 ∷ []) ∷ [])
      no_slot refl (omega arith) (omega arith) refl

abbrev hub_parts : Parts
hub_parts = record {
  scheme = codes "https";
  hostname = codes "hf.co";
  has_credentials = false;
  port = none;
  bad_port = false;
}

abbrev net : NetLibrary
net = record {
  urlsplit = λ url. some hub_parts;
  lower = λ s. s;
  parse_address = λ s. none;
  show_address = λ a. codes "93.184.216.34";
  show_port = λ n. codes "443";
  with_netloc = λ parts netloc. netloc;
  ipv4_mapped = λ n. none;
  is_global = λ a. true;
  is_multicast = λ a. false;
}

-- A server that redirects for ever.
abbrev away : Response
away = record {
  status = 302;
  location = some (codes "/again");
  continues = none;
  content_length = none;
  linked_etag = none;
  linked_size = none;
  chunks = [];
  interrupted = false;
}

abbrev asking : Asking
asking = record {
  guard = record {
    allowed_hosts = codes "hf.co" ∷ [];
    allow_http = false;
    allow_private = false;
    resolver = λ host port. some (v4 1572395042 ∷ []);
  };
  token = some (codes "secret");
  hub_host = codes "hf.co";
  offset = 0;
  server = λ sent request. away;
  urljoin = λ base location. base;
}

fetch-AreGuarded_example : AreGuarded net asking 6 (fetch net asking (codes "https://hf.co/m"))
fetch-AreGuarded_example = fetch-AreGuarded net asking (codes "https://hf.co/m")

-- A database is its number of users.
abbrev sqlite : Sqlite ℕ ℕ
sqlite = record {
  is_readable = λ file. true;
  integrity_ok = λ file. true;
  tables = λ file. codes "users" ∷ codes "alembic_version" ∷ [];
  rows = λ file table. some file;
  version = λ file. some (codes "1f");
  values = λ file. [];
  copy = λ file. some file;
}

abbrev schema : Schema
schema = record { counted = codes "users" ∷ []; revisions = codes "1f" ∷ []; head = codes "1f" }

abbrev wish : RestoreRequest ℕ ℕ
wish = record {
  backup = some 3;
  is_live = false;
  reasons = [];
  decrypts = λ v. true;
  yes = false;
  allow_unreadable = false;
  typed = codes "RESTORE";
  clears = true;
  remaining = [];
  replaces = true;
}

abbrev files : Store ℕ
files = record { database = some 5; leftovers = codes "-wal" ∷ []; backups = [] }

run_restore-IsDone_example :
    IsDone sqlite schema wish files (some 3) (run_restore sqlite schema wish files)
run_restore-IsDone_example = run_restore-IsDone sqlite schema wish files
