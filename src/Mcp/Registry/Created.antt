-- ===== src/Mcp/Registry/Created.antt =====
-- app/admin/mcp.py: a created server is one that the manager can be given.
use mathlib.Core.Path.{subst}
use channel_agent.Prelude.{
  ℕ, ◌≡◌, refl, sym, ◌∙◌, inl, inr, ◌⊎◌, true, false, Option, none, List, [], ◌∷◌, ◌++◌, any,
  delete, any-delete, map, String, Codes, Bool-cases, Option-cases, arith,
}
use channel_agent.Env.{Env}
use channel_agent.Exec.{Result, Error, ok, err, continue, pure}
use channel_agent.Model.{Database}
use channel_agent.Mcp.Server.{Protocol, stdio, http}
use channel_agent.Mcp.Registry.{
  McpServer, Registered, is_named, apply_all, is_builtin, protocol_of, by_transport, default_server,
  create_server,
}
use channel_agent.Mcp.Registry.Fields.{
  Setting, Given, is_url, is_url_key, is_server_name, clean_fields,
}
use channel_agent.Mcp.Registry.Fields.Cleaned.{clean_fields-in_range, clean_fields-url}
use channel_agent.Mcp.Registry.Servers.{
  is_server, AreServers, AreServers-append, valid_lem, same_target, url_kept, url_good, has_target,
}

stdio_lem :
    (id : ℕ) (name : Codes) (builtin_id : Option Codes) (fields : Given) (ts : List Setting)
    → is_server_name name ≡ true
    → is_builtin builtin_id ≡ true
    → clean_fields (delete is_url_key fields) ≡ ok ts
    → is_server (apply_all ts (default_server id name stdio builtin_id)) ≡ true
stdio_lem id name builtin_id fields ts v b c =
    let no_url : any is_url ts ≡ false = clean_fields-url _ ts c ∙ any-delete is_url_key fields in
    let kept : (apply_all ts (default_server id name stdio builtin_id)).config.url ≡ none =
      url_kept ts (default_server id name stdio builtin_id) no_url in
    valid_lem ts (default_server id name stdio builtin_id) (clean_fields-in_range _ ts c)
      (ground (arith, v))
      (subst (λ (o : Option Codes). has_target stdio builtin_id o ≡ true) (sym kept)
        (ground (arith, b)))

http_lem :
    (id : ℕ) (name : Codes) (fields : Given) (ts : List Setting)
    → is_server_name name ≡ true
    → any is_url_key fields ≡ true
    → clean_fields fields ≡ ok ts
    → is_server (apply_all ts (default_server id name http none)) ≡ true
http_lem id name fields ts v b c =
    let with_url : any is_url ts ≡ true = clean_fields-url fields ts c ∙ b in
    valid_lem ts (default_server id name http none) (clean_fields-in_range fields ts c)
      (ground (arith, v))
      (url_good ts (default_server id name http none) (clean_fields-in_range fields ts c)
        (ground (arith, with_url)))

-- A created row has its target.
created_lem :
    (id : ℕ) (name : Codes) (p : Protocol) (builtin_id : Option Codes) (fields : Given)
    (chosen : Option Codes × Given) (ts : List Setting)
    → is_server_name name ≡ true
    → by_transport p builtin_id fields ≡ ok chosen
    → clean_fields chosen.1 ≡ ok ts
    → is_server (apply_all ts (default_server id name p chosen.0)) ≡ true
unfolding by_transport
created_lem id name stdio builtin_id fields (b, rest) ts v h c =
    let e : b ≡ builtin_id = ground (arith, h) in
    let f : rest ≡ delete is_url_key fields = ground (arith, h) in
    subst (λ (o : Option Codes). is_server (apply_all ts (default_server id name stdio o)) ≡ true)
      (sym e)
      (stdio_lem id name builtin_id fields ts v (ground (arith, h))
        (subst (λ (g : Given). clean_fields g ≡ ok ts) f c))
created_lem id name http builtin_id fields (b, rest) ts v h c =
    let e : b ≡ none = ground (arith, h) in
    let f : rest ≡ fields = ground (arith, h) in
    subst (λ (o : Option Codes). is_server (apply_all ts (default_server id name http o)) ≡ true)
      (sym e)
      (http_lem id name fields ts v (ground (arith, h))
        (subst (λ (g : Given). clean_fields g ≡ ok ts) f c))

Result-cases : {A : Type 0} (r : Result A) → ((a : A) × (r ≡ ok a)) ⊎ ((e : Error) × (r ≡ err e))
Result-cases (ok a) = inl (a, refl)
Result-cases (err e) = inr (e, refl)

finished_lem :
    {A B : Type 0} (r : Result A × Database) (rows : List McpServer) (value : B)
    → AreServers rows
    → AreServers (continue {S = Registered} r.0 (λ _. pure value) (r.1, rows)).1.1
finished_lem (ok a, db) rows value h = h
finished_lem (err e, db) rows value h = h

module _ ⦃env : Env⦄ where
  -- However it ends, a creation keeps the servers such that each can be given to the manager (its name,
  -- its numbers and its target in shape) and their names are different.
  pub AreServers-create_server :
      (name protocol : Codes) (builtin_id : Option Codes) (fields : Given) (actor : String)
      (db : Database) (rows : List McpServer)
      → AreServers rows
      → AreServers (create_server name protocol builtin_id fields actor (db, rows)).1.1
  unfolding create_server
  AreServers-create_server name protocol builtin_id fields actor db rows h =
      elim (Bool-cases (is_server_name name)) [
        | inr bad ↦ rw bad h
        | inl good ↦ elim (Bool-cases (any (is_named name) rows)) [
          | inl taken ↦ rw (good, taken) h
          | inr open_name ↦ elim (Option-cases (protocol_of protocol)) [
            | inl no_such ↦ rw (good, open_name, no_such) h
            | inr (p, found) ↦ elim (Result-cases (by_transport p builtin_id fields)) [
              | inr (e, refused) ↦ rw (good, open_name, found, refused) h
              | inl (chosen, c) ↦ elim (Result-cases (clean_fields chosen.1)) [
                | inr (e, refused) ↦ rw (good, open_name, found, c, refused) h
                | inl (ts, cleaned) ↦
                    rw (good, open_name, found, c, cleaned)
                      (finished_lem _ _ _ (added p chosen ts good open_name c cleaned))
              ]
            ]
          ]
        ]
      ]
    where
      id : ℕ
      id = env.new_id (map (λ r. r.id) rows)

      added :
          (p : Protocol) (chosen : Option Codes × Given) (ts : List Setting)
          → is_server_name name ≡ true
          → any (is_named name) rows ≡ false
          → by_transport p builtin_id fields ≡ ok chosen
          → clean_fields chosen.1 ≡ ok ts
          → AreServers (rows ++ apply_all ts (default_server id name p chosen.0) ∷ [])
      added p chosen ts v f c e =
          let (name_kept, _, _) = same_target ts (default_server id name p chosen.0) in
          AreServers-append rows (apply_all ts (default_server id name p chosen.0))
            (created_lem id name p builtin_id fields chosen ts v c e)
            (subst (λ (n : Codes). any (is_named n) rows ≡ false) (sym name_kept) f) h
