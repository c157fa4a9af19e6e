-- ===== src/Files/Rekey/Rotation.antt =====
-- app/admin/rekey.py: what a run of the rotation leaves in the two databases.
use channel_agent.Prelude.{
  Codes, is_nil, same_codes, ◌≡◌, refl, ap, ◌∙◌, ◌⊎◌, inl, inr, ◌==◌, ◌&&◌, ◌||◌, not, Bool, true,
  false, Option, none, some, List, [], ◌∷◌, ◌++◌, map, Bool-cases, if_both, arith,
}
use channel_agent.Files.Rekey.{
  is_there, Fernet, Cell, Update, Kind, is_old, is_new, is_unreadable, sealed, classify, tallied,
  planned, update_for, plan_values, Report, added, Databases, Disk, Options, RekeyError,
  unreadable_values, backup_failed, commit_failed, Ending, reported, refused, cells_or_none,
  executed_option, nothing, report_of, verify, ended, committed, applied, rotate, run_rekey,
}
use channel_agent.Files.Rekey.Applied.{HasDistinctPlaces, rekeyed, execute-plan_values}
use channel_agent.Files.Rekey.Readable.{
  AreDistinctKeys, Content, content, moved, moved-added, contents-rekeyed, plan_values-rekeyed,
}

abbrev option_map : {A B : Type 0} → (A → B) → Option A → Option B
option_map f none = none
option_map f (some x) = some (f x)

-- A key names one row of a column in each database.
abbrev pub AreTables : {T : Type 0} → Databases T → Type 0
AreTables d = HasDistinctPlaces d.app × HasDistinctPlaces (cells_or_none d.checkpoints)

-- What the run may be refused for.
abbrev pub is_reason : Disk → Options → Report → RekeyError → Bool
is_reason disk options r unreadable_values = not (r.unreadable == 0) && not options.allow_unreadable
is_reason disk options r backup_failed = options.backup && not disk.backups_made
is_reason disk options r commit_failed = not (disk.app_commits && disk.checkpoints_commit)
is_reason disk options r e = false

nothing_append :
    {T : Type 0} (us vs : List (Update T))
    → nothing (us ++ vs) ≡ true
    → (nothing us ≡ true) × (nothing vs ≡ true)
nothing_append [] vs h = (refl, h)
nothing_append (u ∷ us) vs h = ground (arith, h)

module _ {T P : Type 0} (old new : Fernet T P) where
  -- What the holder of both keys reads in the databases.
  abbrev pub contents : Databases T → List (Content T P) × Option (List (Content T P))
  contents d = (map (content old new) d.app, option_map (map (content old new)) d.checkpoints)

  -- The databases in which every value is sealed with the new key.
  abbrev rekeyed_all : Databases T → Databases T
  rekeyed_all d = record {
    app = map (rekeyed old new) d.app;
    checkpoints = option_map (map (rekeyed old new)) d.checkpoints;
  }

  abbrev IsEnding : Disk → Options → Databases T → Ending × Databases T → Type 0
  IsEnding disk options d (reported false r, d') =
      (r ≡ report_of old new d) × (d' ≡ d) × (options.dry_run ≡ true ⊎ r.old ≡ 0)
  IsEnding disk options d (reported true r, d') =
      (r ≡ report_of old new d) × (report_of old new d' ≡ moved (report_of old new d))
  IsEnding disk options d (refused e, d') =
      (is_reason disk options (report_of old new d) e ≡ true)
      × (d' ≡ d ⊎ (e ≡ commit_failed) × (d'.checkpoints ≡ d.checkpoints))

  -- What a run may end with.
  abbrev pub IsRotated : Disk → Options → Databases T → Ending × Databases T → Type 0
  IsRotated disk options d result =
      (contents result.1 ≡ contents d) × IsEnding disk options d result

  abbrev pub IsRun : Disk → Options → Databases T → Ending × Option (Databases T) → Type 0
  IsRun disk options d (e, none) = ⊥
  IsRun disk options d (e, some d') = IsRotated disk options d (e, d')

  tallied-update :
      (c : Cell T) (k : Kind T)
      → nothing (update_for old new c k) ≡ true
      → (tallied old new k).old ≡ 0
  tallied-update c (is_old t) h = ground (arith, h)
  tallied-update c is_new h = refl
  tallied-update c is_unreadable h = refl

  planned-nothing :
      (c : Cell T) (v : Option T)
      → nothing (planned old new c v).1 ≡ true
      → (planned old new c v).0.old ≡ 0
  planned-nothing c none h = refl
  planned-nothing c (some t) h = tallied-update c (classify old new t) h

  plan_values-nothing :
      (cells : List (Cell T))
      → nothing (plan_values old new cells).1 ≡ true
      → (plan_values old new cells).0.old ≡ 0
  unfolding plan_values
  plan_values-nothing [] h = refl
  plan_values-nothing (c ∷ cs) h =
      let parts =
        nothing_append (planned old new c (sealed old new c)).1 (plan_values old new cs).1 h in
      ground (arith, planned-nothing c (sealed old new c) parts.0, plan_values-nothing cs parts.1)

  -- Nothing new that neither key reads: the verification passes.
  verify-same :
      (r : Report) (d : Databases T)
      → (report_of old new d).unreadable ≡ r.unreadable
      → verify old new r d ≡ none
  unfolding verify
  verify-same r d h = rw h (ground (arith, Bool-cases (r.unreadable == 0)))

  module _ (keys : AreDistinctKeys old new) where
    executed-option :
        (o : Option (List (Cell T)))
        → HasDistinctPlaces (cells_or_none o)
        → executed_option (plan_values old new (cells_or_none o)).1 o
          ≡ option_map (map (rekeyed old new)) o
    executed-option none h = refl
    executed-option (some cells) h = ap some (execute-plan_values old new cells h)

    plan_values-option :
        (o : Option (List (Cell T)))
        → (plan_values old new (cells_or_none (option_map (map (rekeyed old new)) o))).0
          ≡ moved (plan_values old new (cells_or_none o)).0
    unfolding plan_values
    plan_values-option none = refl
    plan_values-option (some cells) = plan_values-rekeyed old new keys cells

    report_of-rekeyed_all :
        (d : Databases T) → report_of old new (rekeyed_all d) ≡ moved (report_of old new d)
    report_of-rekeyed_all d =
        ap (λ r. added r (plan_values old new (cells_or_none (rekeyed_all d).checkpoints)).0)
          (plan_values-rekeyed old new keys d.app)
        ∙ ap (added (moved (plan_values old new d.app).0)) (plan_values-option d.checkpoints)
        ∙ moved-added (plan_values old new d.app).0
            (plan_values old new (cells_or_none d.checkpoints)).0

    contents-option :
        (o : Option (List (Cell T)))
        → option_map (map (content old new)) (option_map (map (rekeyed old new)) o)
          ≡ option_map (map (content old new)) o
    contents-option none = refl
    contents-option (some cells) = ap some (contents-rekeyed old new keys cells)

    applied-rekeyed_all :
        (disk : Disk) (d : Databases T) (r : Report)
        → AreTables d
        → applied old new disk d r ≡ committed old new disk d (rekeyed_all d) r
    applied-rekeyed_all disk d r tables =
        rw (execute-plan_values old new d.app tables.0, executed-option d.checkpoints tables.1) refl

    rekeyed_all-IsRotated :
        (disk : Disk) (options : Options) (d : Databases T)
        → IsRotated disk options d (
            ended old new true
              (report_of old new d)
              (rekeyed_all d)
              (verify old new (report_of old new d) (rekeyed_all d)))
    rekeyed_all-IsRotated disk options d =
        let now = report_of-rekeyed_all d in
        rw (verify-same (report_of old new d) (rekeyed_all d) (ap (λ r. r.unreadable) now)) (
          if_both (IsRotated disk options d) (not ((report_of old new (rekeyed_all d)).old == 0))
            (λ left. ground (arith, left, ap (λ r. r.old) now))
            (λ done. (
              cc (contents-rekeyed old new keys d.app, contents-option d.checkpoints),
              (refl, now),
            )))

    committed-IsRotated :
        (disk : Disk) (options : Options) (d : Databases T)
        → IsRotated disk options d (committed old new disk d (rekeyed_all d) (report_of old new d))
    committed-IsRotated disk options d =
        if_both (IsRotated disk options d) (not disk.app_commits)
          (λ no_app. (refl, (ground (arith, no_app), inl refl)))
          (λ app.
            if_both (IsRotated disk options d)
              (is_there d.checkpoints && not disk.checkpoints_commit)
              (λ no_checkpoints. (
                ap (λ cs. (cs, option_map (map (content old new)) d.checkpoints))
                    (contents-rekeyed old new keys d.app),
                (ground (arith, no_checkpoints), inr (refl, refl)),
              ))
              (λ both. rekeyed_all-IsRotated disk options d))

    rotate-IsRotated :
        (disk : Disk) (options : Options) (d : Databases T)
        → AreTables d
        → IsRotated disk options d (rotate old new disk options d)
    unfolding rotate
    rotate-IsRotated disk options d tables =
        if_both (IsRotated disk options d) options.dry_run (λ dry. (refl, (refl, refl, inl dry)))
          (λ wet.
            if_both (IsRotated disk options d)
              (not ((report_of old new d).unreadable == 0) && not options.allow_unreadable)
              (λ unread. (refl, (unread, inl refl)))
              (λ all_read.
                if_both (IsRotated disk options d)
                  (nothing (plan_values old new d.app).1
                    && nothing (plan_values old new (cells_or_none d.checkpoints)).1)
                  (λ idle. rw (verify-same (report_of old new d) d refl) (
                    refl,
                    (
                      refl,
                      refl,
                      inr (
                          ground (
                            arith,
                            idle,
                            plan_values-nothing d.app,
                            plan_values-nothing (cells_or_none d.checkpoints),
                          )),
                    ),
                  ))
                  (λ busy.
                    if_both (IsRotated disk options d) (options.backup && not disk.backups_made)
                      (λ no_copy. (refl, (no_copy, inl refl)))
                      (λ copied.
                        rw (applied-rekeyed_all disk d (report_of old new d) tables)
                          (committed-IsRotated disk options d)))))

    -- A rotation with two different keys that are Fernet keys, of a database that is there, whose
    -- tables have one row for each key; each key reads what it sealed, and the old one nothing of
    -- the new one. However it ends, whoever has both keys reads every value as before. Without an
    -- error the data is as it was, and nothing is under the old key unless it was a dry run, or
    -- every value that the old key read is now under the new key, and the counts say so. An error
    -- is for values that neither key reads, a copy that could not be made or a transaction that
    -- failed; it leaves the data as it was, but for the application's own database when the second
    -- transaction fails.
    pub run_rekey-IsRun :
        (fernet : Codes → Option (Fernet T P)) (disk : Disk) (options : Options)
        (old_key new_key : Codes) (d : Databases T)
        → is_nil old_key || is_nil new_key ≡ false
        → same_codes old_key new_key ≡ false
        → fernet old_key ≡ some old
        → fernet new_key ≡ some new
        → AreTables d
        → IsRun disk options d (run_rekey fernet disk options old_key new_key (some d))
    unfolding run_rekey
    run_rekey-IsRun fernet disk options old_key new_key d given other is_old_key is_new_key tables =
        rw (given, other, is_old_key, is_new_key) (rotate-IsRotated disk options d tables)
