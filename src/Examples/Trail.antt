-- ===== src/Examples/Trail.antt =====
-- A search of three entries for a word.
use channel_agent.Prelude.{
  ℕ, String, ◌≡◌, none, some, List, [], ◌∷◌, take, drop, select, str_eq, if◌then◌else◌, arith,
}
use channel_agent.Exec.{ok}
use channel_agent.Model.{Channel, ActionLog, ActionStatus, Direction, readable}
use channel_agent.Admin.Logs.Search.{Filters, statement, needle_of, contains_needle, search_rows}
use channel_agent.Admin.Logs.Search.Batches.{search_rows_lem}
use channel_agent.Examples.Fixture.{example_env}

abbrev entry : ℕ → String → ActionLog
entry id text = record {
  id = id;
  user_id = 1;
  agent_id = 1;
  channel = Channel.telegram;
  direction = Direction.inbound;
  text = readable text;
  status = ActionStatus.ok;
  created_at = id;
}

abbrev trail : List ActionLog
trail = entry 1 "hello" ∷ entry 2 "good morning" ∷ entry 3 "hello again" ∷ []

abbrev hellos : Filters
hellos = record {
  user_id = some 1;
  agent_id = none;
  channel = none;
  direction = none;
  status = none;
  since = none;
  until = some 4;
  keyword = some "hello ";
  limit = 5;
  offset = 1;
}

search_rows_lem_example :
    search_rows hellos trail
    ≡ ok (
        take 5 (
          drop 1 (
            if str_eq (needle_of (some "hello ")) ""
            then statement hellos trail
            else select
                (λ e. contains_needle (needle_of (some "hello ")) e.text)
                (statement hellos trail))))
search_rows_lem_example =
    search_rows_lem hellos trail ((omega arith, (omega arith, tt)), ((omega arith, tt), (tt, tt)))
      (omega arith) (omega arith)
