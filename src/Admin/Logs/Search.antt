-- ===== src/Admin/Logs/Search.antt =====
-- app/admin/service.py: `_search_action_logs`, the search of the audit trail. A keyword is looked for
-- in the decrypted text, so the rows are read in batches, the newest first. The dates are instants.
pub mod Batches
use channel_agent.Prelude.{
  ℕ, zero, suc, ◌+◌, String, ◌&&◌, ◌||◌, not, Bool, true, false, Option, none, some, List, [], ◌∷◌,
  ◌++◌, length, take, drop, select, strip, str_eq, ltb, leb, ◌==◌, if◌then◌else◌,
}
use mathlib.Core.List.{reverse}
use channel_agent.Env.{Env}
use channel_agent.Exec.{Exec, Result, ok, err, value_error, pure, gets, lift, ◌>>=◌, ◌>>◌}
use channel_agent.Admin.Events.{record_admin_event}
use channel_agent.Model.{
  Database, Detail, channel_value, direction_value, action_status_value, Channel, Direction,
  ActionStatus, ActionLog, StoredText, readable, undecryptable, same_channel, same_direction,
  same_status,
}
use channel_agent.Prelude.{codes, is_infix}

abbrev pub log_search_max_limit : ℕ
log_search_max_limit = 500

abbrev pub log_search_batch : ℕ
log_search_batch = 500

pub record Filters : Type 0 where
  pub user_id : Option ℕ
  pub agent_id : Option ℕ
  pub channel : Option Channel
  pub direction : Option Direction
  pub status : Option ActionStatus
  pub since : Option ℕ
  pub until : Option ℕ
  pub keyword : Option String
  pub limit : ℕ
  pub offset : ℕ

-- A filter that is not given passes every row.
abbrev passes : {A : Type 0} → Option A → (A → Bool) → Bool
passes none test = true
passes (some a) test = test a

unfoldable pub fits : Filters → ActionLog → Bool
fits f e =
    passes f.user_id (λ u. e.user_id == u)
    && passes f.agent_id (λ a. e.agent_id == a)
    && passes f.channel (λ c. same_channel e.channel c)
    && passes f.direction (λ d. same_direction e.direction d)
    && passes f.status (λ s. same_status e.status s)
    && passes f.since (λ t. leb t e.created_at)
    && passes f.until (λ t. ltb e.created_at t)

-- The statement: the rows that fit, by descending id.
abbrev pub statement : Filters → List ActionLog → List ActionLog
statement f rows = reverse (select (fits f) rows)

-- `stmt.where(ActionLog.id < last_id)`
abbrev pub below : Option ℕ → List ActionLog → List ActionLog
below none rows = rows
below (some last_id) rows = select (λ e. ltb e.id last_id) rows

-- `batch[-1].id`
abbrev pub last_id_of : List ActionLog → Option ℕ
last_id_of [] = none
last_id_of (e ∷ []) = some e.id
last_id_of (e ∷ x ∷ es) = last_id_of (x ∷ es)

-- The matches so far, and how many were skipped.
abbrev pub Progress : Type 0
Progress = List ActionLog × ℕ

module _ (matches : ActionLog → Bool) (limit offset : ℕ) where
  -- One entry of the batch: the progress, and whether the limit was reached.
  unfoldable pub scan_entry : ActionLog → Progress → Progress × Bool
  scan_entry e (found, skipped) =
      if not (matches e)
      then ((found, skipped), false)
      else if ltb skipped offset
      then ((found, suc skipped), false)
      else ((found ++ e ∷ [], skipped), length (found ++ e ∷ []) == limit)

  -- `for entry in batch`
  unfoldable pub scan : List ActionLog → Progress → Progress
  scan [] p = p
  scan (e ∷ es) p =
      let (q, stop) = scan_entry e p in let rest = scan es q in if stop then q else rest

  -- `while len(matches) < limit`
  unfoldable pub search_batches : ℕ → List ActionLog → Option ℕ → Progress → List ActionLog
  search_batches zero rows last_id (found, skipped) = found
  search_batches (suc fuel) rows last_id (found, skipped) =
      let batch = take log_search_batch (below last_id rows) in
      let p = scan batch (found, skipped) in
      let rest = search_batches fuel rows (last_id_of batch) p in
      if ltb (length found) limit
      then (if ltb (length batch) log_search_batch then p.0 else rest)
      else found

module _ ⦃env : Env⦄ where
  -- `keyword.strip().lower() if keyword else ""`
  abbrev pub needle_of : Option String → String
  needle_of none = ""
  needle_of (some keyword) = env.lower (strip keyword)

  unfoldable pub contains_needle : String → StoredText → Bool
  contains_needle needle undecryptable = false
  contains_needle needle (readable text) = is_infix (codes needle) (codes (env.lower text))

  -- Each full batch takes 500 rows, so the rows and one more are fuel enough.
  unfoldable pub search_rows : Filters → List ActionLog → Result (List ActionLog)
  search_rows f rows =
      let needle = needle_of f.keyword in
      let found = statement f rows in
      if not (leb 1 f.limit && leb f.limit log_search_max_limit)
      then err value_error
      else if str_eq needle ""
      then ok (take f.limit (drop f.offset found))
      else ok (
          search_batches (λ e. contains_needle needle e.text) f.limit f.offset (suc (length found))
            found none ([], 0))

-- The filters that were given, as the details of the event.
abbrev given : {A : Type 0} → String → (A → Detail) → Option A → List (String × Detail)
given name show none = []
given name show (some a) = (name, show a) ∷ []

abbrev filter_details : Filters → List (String × Detail)
filter_details f =
    given "user_id" Detail.number f.user_id
    ++ given "agent_id" Detail.number f.agent_id
    ++ given "channel" (λ c. Detail.text (channel_value c)) f.channel
    ++ given "direction" (λ d. Detail.text (direction_value d)) f.direction
    ++ given "status" (λ s. Detail.text (action_status_value s)) f.status
    ++ given "since" Detail.moment f.since
    ++ given "until" Detail.moment f.until
    ++ given "keyword" Detail.text f.keyword
    ++ ("limit", Detail.number f.limit) ∷ ("offset", Detail.number f.offset) ∷ []

-- `search_action_logs`: the search, and the event that says who read what.
unfoldable pub search_action_logs : ⦃env : Env⦄ → Filters → String → Exec Database (List ActionLog)
search_action_logs f actor = do
  result ← gets (λ db. search_rows f db.logs)
  found ← lift result
  record_admin_event actor "logs.search" "action_logs" none
      (filter_details f ++ ("results", Detail.number (length found)) ∷ [])
  pure found
