-- ===== src/Admin/Logs.antt =====
-- app/admin/service.py: the audit trail. `record_action` writes it, `find_undelivered_answer` reads
-- back the answer that a failed delivery left.
pub mod Search
use mathlib.Core.List.{reverse}
use channel_agent.Prelude.{
  ℕ, String, ◌&&◌, not, Bool, true, false, Option, none, some, List, [], ◌∷◌, ◌++◌, map, any, take,
  select, first, update, str_eq, ltb, ◌==◌, if◌then◌else◌,
}
use channel_agent.Env.{Env}
use channel_agent.Exec.{Exec, pure, gets, modify, ◌>>=◌, ◌>>◌}
use channel_agent.Model.{
  Database, Channel, Direction, inbound, outbound, ActionStatus, ActionLog, StoredText, readable,
  undecryptable, same_channel, same_direction, same_status,
}

abbrev pub undecryptable_marker : String
undecryptable_marker = "<undecryptable>"

-- A stored text as the `str` that it is: `UndecryptableText` is the marker.
abbrev pub shown : StoredText → String
shown (readable s) = s
shown undecryptable = undecryptable_marker

abbrev pub has_log_id : ℕ → ActionLog → Bool
has_log_id id e = e.id == id

abbrev pub save_log : ActionLog → Exec Database (Unit {0})
save_log e = modify (λ db. record db { logs = update (has_log_id e.id) (λ _. e) db.logs })

module _ ⦃env : Env⦄ where
  abbrev pub new_log :
      ℕ → ℕ → Channel → Direction → String → ActionStatus → List ActionLog → ActionLog
  new_log user_id agent_id channel direction text status rows = record {
    id = env.new_id (map (λ e. e.id) rows);
    user_id = user_id;
    agent_id = agent_id;
    channel = channel;
    direction = direction;
    text = readable text;
    status = status;
    created_at = env.now;
  }

  unfoldable pub record_action :
      ℕ → ℕ → Channel → Direction → String → ActionStatus → Exec Database ActionLog
  record_action user_id agent_id channel direction text status = do
    entry ← gets (λ db. new_log user_id agent_id channel direction text status db.logs)
    modify (λ db. record db { logs = db.logs ++ entry ∷ [] })
    pure entry

abbrev pub undelivered_lookback : ℕ
undelivered_lookback = 50

-- The entries of one conversation in one direction.
abbrev pub in_conversation : ℕ → ℕ → Channel → Direction → ActionLog → Bool
in_conversation user_id agent_id channel direction e =
    e.user_id == user_id
    && e.agent_id == agent_id
    && same_channel e.channel channel
    && same_direction e.direction direction

-- `ActionLog.id > entry.id` in the same conversation
abbrev pub answers_after : ℕ → ℕ → Channel → ActionLog → ActionLog → Bool
answers_after user_id agent_id channel entry e =
    in_conversation user_id agent_id channel outbound e && ltb entry.id e.id

abbrev pub says : String → ActionLog → Bool
says text e = str_eq (shown e.text) text

abbrev pub is_readable : StoredText → Bool
is_readable (readable _) = true
is_readable undecryptable = false

-- Whether an outbound entry is an answer that was generated and not delivered.
abbrev pub is_undelivered : List String → ActionLog → Bool
is_undelivered not_answers e =
    same_status e.status ActionStatus.failed
    && is_readable e.text
    && not (any (str_eq (shown e.text)) not_answers)

abbrev undelivered : List String → Option ActionLog → Option ActionLog
undelivered not_answers none = none
undelivered not_answers (some e) = if is_undelivered not_answers e then some e else none

abbrev answer_to :
    ℕ → ℕ → Channel → List String → List ActionLog → Option ActionLog → Option ActionLog
answer_to user_id agent_id channel not_answers rows none = none
answer_to user_id agent_id channel not_answers rows (some entry) =
    undelivered not_answers (first (answers_after user_id agent_id channel entry) rows)

unfoldable pub find_undelivered_answer :
    ℕ → ℕ → Channel → String → List String → List ActionLog → Option ActionLog
find_undelivered_answer user_id agent_id channel inbound_text not_answers rows =
    let recent =
      take undelivered_lookback
        (reverse (select (in_conversation user_id agent_id channel inbound) rows)) in
    answer_to user_id agent_id channel not_answers rows (first (says inbound_text) recent)
