-- ===== src/Files/Models/Download.antt =====
-- app/admin/models.py, `_download`: a file fetched into `<name>.part`, continued when one is there,
-- checked and moved into place. SHA256, `str.lower` and the free space are parameters.
pub mod Kept
pub mod Resumed
use channel_agent.Prelude.{
  ℕ, zero, suc, ◌+◌, ◌-◌, ◌&&◌, ◌||◌, not, Bool, true, false, Option, none, some, List, [], ◌∷◌,
  ◌++◌, all, length, ◌==◌, ltb, leb, if◌then◌else◌, Codes, codes, is_nil, is_digit, lstrip_codes,
  strip_codes, starts_with, same_codes, drop,
}
use channel_agent.Files.Models.{Bytes, Slot, Installed, is_some, margin, put_in_place}
use channel_agent.Files.Models.Fetch.{
  Response, Seen, Size, bytes, not_a_number, FetchError, Fetched, answered, not_fetched,
}

pub data PullError : Type 0 where
  unreachable : FetchError → PullError
  wrong_range wrong_status value_error too_large no_space interrupted : PullError
  over_limit incomplete wrong_hash : PullError

pub data Pulled : Type 0 where
  pulled : Installed → (verified : Bool) → Pulled
  stopped : PullError → Pulled

pub record Limits : Type 0 where
  pub max_bytes : ℕ
  pub free : ℕ

pub record Hashing : Type 0 where
  pub sha256 : Bytes → Codes
  pub lower : Codes → Codes

abbrev lstrip_quotes : Codes → Codes
lstrip_quotes [] = []
lstrip_quotes (c ∷ s) = let rest = lstrip_quotes s in if c == b'"' then rest else c ∷ s

abbrev rstrip_quotes : Codes → Codes
rstrip_quotes [] = []
rstrip_quotes (c ∷ s) =
    let rest = rstrip_quotes s in if is_nil rest && c == b'"' then [] else c ∷ rest

abbrev strip_quotes : Codes → Codes
strip_quotes s = rstrip_quotes (lstrip_quotes s)

-- `removeprefix("w/")`
abbrev without_weak : Codes → Codes
without_weak s = if starts_with (codes "w/") s then drop 2 s else s

abbrev is_hex : ℕ → Bool
is_hex c = is_digit c || (leb b'a' c && leb c b'f')

abbrev pub is_sha256 : Codes → Bool
is_sha256 s = all is_hex s && length s == 64

abbrev pub normal : (Codes → Codes) → Codes → Codes
normal lower s = strip_quotes (without_weak (lower (strip_quotes (strip_codes s))))

-- `_expected_hash`
unfoldable pub expected_hash : (Codes → Codes) → List (Option Codes) → Option Codes
unfolding lstrip_codes starts_with
expected_hash lower [] = none
expected_hash lower (none ∷ rest) = expected_hash lower rest
expected_hash lower (some s ∷ rest) =
    let later = expected_hash lower rest in
    if not (is_nil s) && is_sha256 (normal lower s) then some (normal lower s) else later

abbrev pub size_of : Option Bytes → ℕ
size_of none = 0
size_of (some content) = length content

-- Where the answer makes the file start: `none` for an answer that is not one.
abbrev pub begins : ℕ → Response → Option ℕ
begins offset r =
    if r.status == 200
    then some 0
    else if r.status == 206
    then elim r.continues [
      | none ↦ none
      | some (first, total) ↦ if first == offset then some offset else none
    ]
    else none

abbrev int : Size → Option ℕ
int (bytes n) = some n
int not_a_number = none

abbrev stated : Option Size → Option Size → Option ℕ
stated (some size) linked = int size
stated none (some linked) = int linked
stated none none = some 0

-- The size of the whole file as the server states it, 0 when it does not; `none` is a ValueError.
abbrev pub total_of : Response → Seen → Option ℕ
total_of r seen =
    if r.status == 206
    then elim r.continues [ none ↦ some 0 | some (first, total) ↦ some total ]
    else stated r.content_length seen.size

-- The loop over the chunks: whether the limit was passed, how many bytes the file has with what came
-- last, and the file.
unfoldable pub receive : ℕ → ℕ → Bytes → List Bytes → Bool × ℕ × Bytes
receive limit received file [] = (false, received, file)
receive limit received file (c ∷ cs) =
    let now = received + length c in
    let rest = receive limit now (file ++ c) cs in if ltb limit now then (true, now, file) else rest

-- "ab" or "wb"
abbrev pub opened : ℕ → Option Bytes → Bytes
opened offset none = []
opened offset (some content) = if offset == 0 then [] else content

module _ (lib : Hashing) (limits : Limits) (wanted : Option Codes) where
  abbrev pub matches : Codes → Option Codes → Bool
  matches digest none = true
  matches digest (some expected) = same_codes digest expected

  -- The hash is checked, and the file moved into place.
  abbrev pub installed : Slot → Option Codes → ℕ → Bytes → Pulled × Slot
  installed slot expected received file =
      if not (matches (lib.sha256 file) expected)
      then (stopped wrong_hash, record slot { part = none })
      else (
        pulled (record { size = received; digest = lib.sha256 file }) (is_some expected),
        put_in_place file (lib.sha256 file) slot,
      )

  abbrev pub finished : Slot → Response → Seen → ℕ → Bool × ℕ × Bytes → Pulled × Slot
  finished slot r seen total (true, received, file) =
      (stopped over_limit, record slot { part = none })
  finished slot r seen total (false, received, file) =
      if r.interrupted
      then (stopped interrupted, record slot { part = some file })
      else if not (total == 0) && not (received == total)
      then (stopped incomplete, record slot { part = some file })
      else installed slot (expected_hash lib.lower (wanted ∷ seen.etag ∷ [])) received file

  -- What is refused before a byte is read: `free` and the margin bound the disk.
  abbrev pub with_total : Slot → Response → Seen → ℕ → Option ℕ → Pulled × Slot
  with_total slot r seen offset none = (stopped value_error, slot)
  with_total slot r seen offset (some total) =
      if not (total == 0) && ltb limits.max_bytes total
      then (stopped too_large, slot)
      else if not (total == 0) && ltb (limits.free + offset) (total + margin)
      then (stopped no_space, slot)
      else finished slot r seen total
          (receive limits.max_bytes offset (opened offset slot.part) r.chunks)

  abbrev pub started : Slot → Response → Seen → Option ℕ → Pulled × Slot
  started slot r seen none = (stopped (if r.status == 206 then wrong_range else wrong_status), slot)
  started slot r seen (some offset) = with_total slot r seen offset (total_of r seen)

  abbrev pub with_answer : Slot → Fetched → Pulled × Slot
  with_answer slot (not_fetched e) = (stopped (unreachable e), slot)
  with_answer slot (answered r seen) = started slot r seen (begins (size_of slot.part) r)

  -- `_download`, with `_fetch` as a function of where to start
  unfoldable pub download : (ℕ → Fetched) → Slot → Pulled × Slot
  unfolding expected_hash receive same_codes
  download fetch slot = with_answer slot (fetch (size_of slot.part))
