-- ===== src/Examples/Renaming.antt =====
-- A second agent for Ann, and another name for her first one.
use channel_agent.Prelude.{◌≡◌, refl, ◌++◌, ◌∷◌, [], select, first, update, strip, arith}
use channel_agent.Exec.{ok}
use channel_agent.Model.{Database, Agent}
use channel_agent.Admin.Events.{record_admin_event, require_user, get_agent}
use channel_agent.Admin.Settings.{clean_config, apply_settings}
use channel_agent.Admin.Agents.{create_agent, rename_agent, clean_agent_name, agent_named, is_agent}
use channel_agent.Admin.Agents.Names.{HasDistinctNames, create_agent-HasDistinctNames}
use channel_agent.Examples.Fixture.{example_env, database, ann_agent}

one_agent : HasDistinctNames database.agents
unfolding select
one_agent = record { at_most_one = λ user_id name. ground arith }

abbrev work_agent : Agent
work_agent = record ann_agent { id = 2; name = "work" }

abbrev with_work : Database
with_work = (create_agent 1 " work" "api" [] database).1

create-work : create_agent 1 " work" "api" [] database ≡ (ok work_agent, with_work)
unfolding create_agent require_user clean_agent_name agent_named clean_config apply_settings
    record_admin_event first select strip
create-work = refl

create_agent-HasDistinctNames_example :
    (work_agent.user_id ≡ 1)
    × (with_work.agents ≡ database.agents ++ work_agent ∷ [])
    × (select (is_agent 1 work_agent.name) database.agents ≡ [])
    × HasDistinctNames with_work.agents
create_agent-HasDistinctNames_example =
    create_agent-HasDistinctNames 1 " work" "api" [] database work_agent with_work one_agent
      create-work

abbrev home_agent : Agent
home_agent = record ann_agent { name = "home" }

abbrev with_home : Database
with_home = (rename_agent 1 "home" "api" database).1

rename-home : rename_agent 1 "home" "api" database ≡ (ok home_agent, with_home)
unfolding rename_agent get_agent clean_agent_name agent_named record_admin_event first select strip
    update
rename-home = refl
