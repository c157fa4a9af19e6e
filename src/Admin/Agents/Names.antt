-- ===== src/Admin/Agents/Names.antt =====
-- app/admin/service.py: the names of a user's agents stay different.
use channel_agent.Prelude.{
  ℕ, ◌≤◌, ◌≡◌, sym, refl, String, true, false, inl, inr, Option, none, some, List, [], ◌∷◌, ◌++◌,
  length, first, select, update, any, all, HasDistinctIds, update-none, Bool, select-append,
  length-append, arith, Bool-cases, str_eq_iff,
}
use channel_agent.Env.{Env}
use channel_agent.Exec.{Result, ok, err}
use channel_agent.Model.{Database, User, Agent, Detail}
use channel_agent.Auth.{has_user_id}
use channel_agent.Admin.Events.{record_admin_event, require_user, get_agent, has_agent_id}
use channel_agent.Admin.Settings.{
  Setting, system_prompt, model, memory_mode, tools, apply_settings, clean_config,
}
use channel_agent.Admin.Agents.{
  is_agent, new_agent, create_agent, rename_agent, clean_agent_name, agent_named,
}

-- No user has two agents of one name.
pub record HasDistinctNames (rows : List Agent) : Type 0 where
  pub at_most_one : (user_id : ℕ) (name : String) → length (select (is_agent user_id name) rows) ≤ 1

-- Settings change neither the owner nor the name.
apply_settings_keeps :
    (settings : List Setting) (a : Agent)
    → ((apply_settings settings a).user_id ≡ a.user_id)
      × ((apply_settings settings a).name ≡ a.name)
unfolding apply_settings
apply_settings_keeps [] a = (refl, refl)
apply_settings_keeps (system_prompt p ∷ rest) a = apply_settings_keeps rest _
apply_settings_keeps (model m ∷ rest) a = apply_settings_keeps rest _
apply_settings_keeps (memory_mode m ∷ rest) a = apply_settings_keeps rest _
apply_settings_keeps (tools t ∷ rest) a = apply_settings_keeps rest _

HasDistinctNames-append :
    (rows : List Agent) (a : Agent)
    → select (is_agent a.user_id a.name) rows ≡ []
    → HasDistinctNames rows
    → HasDistinctNames (rows ++ a ∷ [])
unfolding select
HasDistinctNames-append rows a free d = record {
  at_most_one = λ user_id name. elim (Bool-cases (is_agent user_id name a)) [
    | inl same ↦
        let u : user_id ≡ a.user_id = ground (arith, same) in
        let n : name ≡ a.name = ground (arith, same, str_eq_iff a.name name) in
        rw (u, n) (rw (select-append, free) (ground arith))
    | inr other ↦
        rw (select-append (is_agent user_id name) rows (a ∷ []), length-append, other)
          (omega (arith, d.at_most_one user_id name))
  ];
}

-- Saving a row `r` as `new`, and the rows that a query then finds.
module _ (q : Agent → Bool) (r new : Agent) where
  select-save_no_more :
      (rows : List Agent)
      → q new ≡ false
      → length (select q (update (has_agent_id r.id) (λ _. new) rows)) ≤ length (select q rows)
  unfolding select update
  select-save_no_more [] h = omega arith
  select-save_no_more (x ∷ rows) h = ground (arith, select-save_no_more rows h)

  select_none :
      (rows : List Agent)
      → all (has_agent_id r.id) (select q rows) ≡ true
      → any (has_agent_id r.id) rows ≡ false
      → select q rows ≡ []
  unfolding select
  select_none [] h k = refl
  select_none (x ∷ rows) h k = ground (arith, select_none rows)

  select-save_one :
      (rows : List Agent)
      → HasDistinctIds (λ a. a.id) rows
      → all (has_agent_id r.id) (select q rows) ≡ true
      → length (select q (update (has_agent_id r.id) (λ _. new) rows)) ≤ 1
  unfolding select update
  select-save_one [] d h = omega arith
  select-save_one (x ∷ rows) d h = elim (Bool-cases (has_agent_id r.id x)) [
    | inl this ↦
        let same : x.id ≡ r.id = ground (arith, this) in
        let fresh : any (has_agent_id r.id) rows ≡ false = rw (sym same) d.0 in
        let others : all (has_agent_id r.id) (select q rows) ≡ true = ground (arith, h) in
        rw
          (
            this,
            update-none (λ a. a.id) (has_agent_id r.id) (λ _. new) rows fresh,
            select_none rows others fresh,
          )
          (ground arith)
    | inr other ↦ ground (arith, select-save_one rows d.1)
  ]

module _ ⦃env : Env⦄ (user_id : ℕ) (given actor : String) (settings : List (String × Detail))
    (db : Database) where
  -- What a creation that returned has done.
  record Creates (agent : Agent) (db' : Database) : Type 0 where
    agents : db'.agents ≡ db.agents ++ agent ∷ []
    free : select (is_agent agent.user_id agent.name) db.agents ≡ []
    owner : agent.user_id ≡ user_id

  create_stages :
      (agent : Agent) (db' : Database)
      → create_agent user_id given actor settings db ≡ (ok agent, db')
      → Creates agent db'
  unfolding create_agent require_user agent_named
  create_stages agent db' e = from_user _ refl
    where
      created :
          (u : User) (name : String) (cleaned : List Setting)
          → first (has_user_id user_id) db.users ≡ some u
          → clean_agent_name given ≡ ok name
          → select (is_agent user_id name) db.agents ≡ []
          → clean_config settings ≡ ok cleaned
          → Creates agent db'
      created u name cleaned h k l m =
          let new = apply_settings cleaned (new_agent user_id name db.agents) in
          let (owner, called) = apply_settings_keeps cleaned (new_agent user_id name db.agents) in
          let same : agent ≡ new = unfold record_admin_event in ground arith in
          record {
            agents = unfold record_admin_event in ground arith;
            free = rw (same, owner, called) l;
            owner = rw (same, owner) refl;
          }

      from_settings :
          (u : User) (name : String) (c : Result (List Setting))
          → first (has_user_id user_id) db.users ≡ some u
          → clean_agent_name given ≡ ok name
          → select (is_agent user_id name) db.agents ≡ []
          → clean_config settings ≡ c
          → Creates agent db'
      from_settings u name (ok cleaned) h k l m = created u name cleaned h k l m
      from_settings u name (err x) h k l m = ground arith

      from_rows :
          (u : User) (name : String) (rows : List Agent)
          → first (has_user_id user_id) db.users ≡ some u
          → clean_agent_name given ≡ ok name
          → select (is_agent user_id name) db.agents ≡ rows
          → Creates agent db'
      from_rows u name [] h k l = from_settings u name _ h k l refl
      from_rows u name (a ∷ []) h k l = ground arith
      from_rows u name (a ∷ b ∷ rest) h k l = ground arith

      from_name :
          (u : User) (n : Result String)
          → first (has_user_id user_id) db.users ≡ some u
          → clean_agent_name given ≡ n
          → Creates agent db'
      from_name u (ok name) h k = from_rows u name _ h k refl
      from_name u (err x) h k = ground arith

      from_user : (u : Option User) → first (has_user_id user_id) db.users ≡ u → Creates agent db'
      from_user none h = ground arith
      from_user (some u) h = from_name u _ h refl

  -- An agent that was created is the user's, is saved behind the others, which are as they were,
  -- and has a name that no agent of its owner had; if no user had two agents of one name, none has
  -- now.
  pub create_agent-HasDistinctNames :
      (agent : Agent) (db' : Database)
      → HasDistinctNames db.agents
      → create_agent user_id given actor settings db ≡ (ok agent, db')
      → (agent.user_id ≡ user_id)
        × (db'.agents ≡ db.agents ++ agent ∷ [])
        × (select (is_agent user_id agent.name) db.agents ≡ [])
        × HasDistinctNames db'.agents
  create_agent-HasDistinctNames agent db' d e =
      let s = create_stages agent db' e in
      (
        s.owner,
        s.agents,
        rw (sym s.owner) s.free,
        rw s.agents (HasDistinctNames-append db.agents agent s.free d),
      )

-- What a renaming that returned has done.
record Renames (given : String) (agent_id : ℕ) (db : Database) (new : Agent) (db' : Database)
    : Type 0 where
  old : Agent
  row : first (has_agent_id agent_id) db.agents ≡ some old
  saved : db'.agents ≡ update (has_agent_id old.id) (λ _. new) db.agents
  owner : new.user_id ≡ old.user_id
  free : all (has_agent_id old.id) (select (is_agent new.user_id new.name) db.agents) ≡ true

module _ ⦃env : Env⦄ (agent_id : ℕ) (given actor : String) (db : Database) where
  rename_stages :
      (new : Agent) (db' : Database)
      → rename_agent agent_id given actor db ≡ (ok new, db')
      → Renames given agent_id db new db'
  unfolding rename_agent get_agent agent_named
  rename_stages new db' e = from_agent _ refl
    where
      renamed :
          (a : Agent) (name : String)
          → first (has_agent_id agent_id) db.agents ≡ some a
          → clean_agent_name given ≡ ok name
          → all (has_agent_id a.id) (select (is_agent a.user_id name) db.agents) ≡ true
          → (db'.agents ≡ update (has_agent_id a.id) (λ _. new) db.agents)
            × (new.user_id ≡ a.user_id)
            × (new.name ≡ name)
          → Renames given agent_id db new db'
      renamed a name h k l (saved, owner, called) = record {
        old = a;
        row = h;
        saved = saved;
        owner = owner;
        free = rw (owner, called) l;
      }

      from_rows :
          (a : Agent) (name : String) (rows : List Agent)
          → first (has_agent_id agent_id) db.agents ≡ some a
          → clean_agent_name given ≡ ok name
          → select (is_agent a.user_id name) db.agents ≡ rows
          → Renames given agent_id db new db'
      from_rows a name [] h k l =
          renamed a name h k (rw l refl)
            (unfold record_admin_event in (ground arith, ground arith, ground arith))
      from_rows a name (c ∷ []) h k l =
          renamed a name h k (rw l (ground arith))
            (unfold record_admin_event in (ground arith, ground arith, ground arith))
      from_rows a name (c ∷ b ∷ rest) h k l = ground arith

      from_name :
          (a : Agent) (n : Result String)
          → first (has_agent_id agent_id) db.agents ≡ some a
          → clean_agent_name given ≡ n
          → Renames given agent_id db new db'
      from_name a (ok name) h k = from_rows a name _ h k refl
      from_name a (err x) h k = ground arith

      from_agent :
          (a : Option Agent)
          → first (has_agent_id agent_id) db.agents ≡ a
          → Renames given agent_id db new db'
      from_agent none h = ground arith
      from_agent (some a) h = from_name a _ h refl

  -- A renaming that returned keeps names different too, where the rows have different ids.
  pub rename_agent-HasDistinctNames :
      (new : Agent) (db' : Database)
      → HasDistinctIds (λ a. a.id) db.agents
      → HasDistinctNames db.agents
      → rename_agent agent_id given actor db ≡ (ok new, db')
      → HasDistinctNames db'.agents
  rename_agent-HasDistinctNames new db' ids d e =
      let s = rename_stages new db' e in
      rw s.saved (record {
        at_most_one = λ user_id name. elim (Bool-cases (is_agent user_id name new)) [
          | inl same ↦
              let u : user_id ≡ new.user_id = ground (arith, same) in
              let n : name ≡ new.name = ground (arith, same, str_eq_iff new.name name) in
              rw (u, n)
                (select-save_one (is_agent new.user_id new.name) s.old new db.agents ids s.free)
          | inr other ↦ omega (
            arith,
            d.at_most_one user_id name,
            select-save_no_more (is_agent user_id name) s.old new db.agents other,
          )
        ];
      })
