-- ===== src/Files/Rekey/Guided/Recoverable.antt =====
-- app/admin/rekey_guided.py: at no moment of a guided rotation is a value without its key.
use channel_agent.Prelude.{
  ℕ, ◌≡◌, refl, sym, ap, ◌∙◌, ◌⊎◌, inl, inr, ◌==◌, ◌&&◌, not, true, false, Option, none, some, List,
  [], ◌∷◌, Codes, codes, is_nil, same_codes, starts_with, strip_codes, All, All-append, Bool-cases,
  if_both, arith,
}
use channel_agent.Files.Rekey.{
  is_there, Fernet, Databases, Disk, Options, Ending, reported, refused, report_of, rotate,
  run_rekey,
}
use channel_agent.Files.Rekey.Readable.{AreDistinctKeys}
use channel_agent.Files.Rekey.Rotation.{AreTables, contents, IsRun, run_rekey-IsRun}
use channel_agent.Files.Rekey.Guided.{
  key_prefix, cleaned, current_key, replaced_line, replace_key, Place, Asked, with_given, dry,
  Trace, rekeyed_with, after_failure, after_rotation, rotated, planned_for, guided_rotation,
}

replaced_line-other :
    (new_key line : Codes) → starts_with key_prefix line ≡ false → replaced_line new_key line ≡ line
replaced_line-other new_key line h = rw h refl

current_key-other :
    (line : Codes) (lines : List Codes)
    → starts_with key_prefix line ≡ false
    → current_key (line ∷ lines) ≡ current_key lines
unfolding current_key
current_key-other line lines h = rw h refl

-- The file that is written holds the new key.
current_key-replace_key :
    (new_key : Codes) (lines : List Codes)
    → cleaned new_key ≡ new_key
    → is_nil (current_key lines) ≡ false
    → current_key (replace_key new_key lines) ≡ new_key
unfolding current_key replace_key
current_key-replace_key new_key [] clean h = ground (arith, h)
current_key-replace_key new_key (line ∷ lines) clean h =
    elim (Bool-cases (starts_with key_prefix line)) [
      | inl key ↦ rw key clean
      | inr other ↦
          ap (λ l. current_key (l ∷ replace_key new_key lines))
            (replaced_line-other new_key line other)
          ∙ current_key-other line (replace_key new_key lines) other
          ∙ current_key-replace_key new_key lines clean
              (ap is_nil (sym (current_key-other line lines other)) ∙ h)
    ]

module _ {T P : Type 0} (old new : Fernet T P) where
  -- Every value can still be read: with the key of the .env file, as nothing is under the new key, or
  -- with that key and the one that is kept.
  abbrev pub IsRecoverable : Codes → Place T → Place T → Type 0
  IsRecoverable new_key before s =
      (contents old new s.databases ≡ contents old new before.databases)
      × (((current_key s.env ≡ current_key before.env)
            × (s.databases ≡ before.databases ⊎ (report_of old new s.databases).new ≡ 0))
          ⊎ ((s.safety_net ≡ some before.env) × (current_key s.env ≡ new_key)))

  module _ (fernet : Codes → Option (Fernet T P)) (disk : Disk) (new_key : Codes) (asked : Asked)
      (reads_back : Place T → Option ℕ) (before : Place T) where
    abbrev old_key : Codes
    old_key = current_key before.env

    abbrev IsSafe : ℕ × Trace T → Type 0
    IsSafe result = All (IsRecoverable new_key before) result.1

    module _ (old_given : is_nil old_key ≡ false) (new_given : is_nil new_key ≡ false)
        (other : same_codes old_key new_key ≡ false) (is_old_key : fernet old_key ≡ some old)
        (is_new_key : fernet new_key ≡ some new) where
      dry_lem :
          (d : Databases T)
          → rekeyed_with fernet disk new_key dry old_key d
            ≡ (reported false (report_of old new d), some d)
      unfolding run_rekey rotate
      dry_lem d = rw (old_given, new_given, other, is_old_key, is_new_key) refl

      after_failure-IsSafe :
          (s : Place T)
          → IsRecoverable new_key before s
          → All (IsRecoverable new_key before) (
              after_failure fernet disk new_key before s
                (reported false (report_of old new s.databases)))
      after_failure-IsSafe s h =
          if_both (λ (t : Trace T). All (IsRecoverable new_key before) t)
            ((report_of old new s.databases).new == 0)
            (λ fresh.
              let unused : (report_of old new s.databases).new ≡ 0 = ground (arith, fresh) in
              ((h.0, inl (refl, inr unused)), ((h.0, inl (refl, inr unused)), _)))
            (λ rewritten. _)

      after_rotation-IsSafe :
          (s : Place T) (e : Ending)
          → IsRecoverable new_key before s
          → IsSafe (after_rotation fernet disk new_key asked reads_back old_key before s e)
      after_rotation-IsSafe s (refused e) h =
          All-append (IsRecoverable new_key before)
            (after_failure fernet disk new_key before s
              (rekeyed_with fernet disk new_key dry old_key s.databases).0)
            (s ∷ []) (rw (dry_lem s.databases) (after_failure-IsSafe s h)) (h, _)
      after_rotation-IsSafe s (reported applied report) h = (h, _)

      rotated_from-IsSafe :
          (keys : AreDistinctKeys old new) (options : Options)
          (result : Ending × Option (Databases T))
          → IsRun old new disk options before.databases result
          → contents old new (with_given result.1 before.databases)
            ≡ contents old new before.databases
      rotated_from-IsSafe keys options (e, none) h = refl
      rotated_from-IsSafe keys options (e, some d') h = h.0

      rotated-IsSafe :
          (keys : AreDistinctKeys old new)
          → AreTables before.databases
          → cleaned new_key ≡ new_key
          → IsSafe (rotated fernet disk new_key asked reads_back old_key before)
      rotated-IsSafe keys tables clean =
          let options : Options = record {
            dry_run = false;
            allow_unreadable = asked.allow_unreadable;
            backup = true;
          } in
          let saved : Place T = record before { safety_net = some before.env } in
          let switched : Place T = record saved { env = replace_key new_key before.env } in
          let result = rekeyed_with fernet disk new_key options old_key before.databases in
          let s : Place T = record switched { databases = with_given result.1 before.databases } in
          let switched_key = current_key-replace_key new_key before.env clean old_given in
          let run =
            run_rekey-IsRun old new keys fernet disk options old_key new_key before.databases
              (rw (old_given, new_given) refl) other is_old_key is_new_key tables in
          All-append (IsRecoverable new_key before)
            (after_rotation fernet disk new_key asked reads_back old_key before s result.0).1
            (switched ∷ saved ∷ [])
            (after_rotation-IsSafe s result.0
              (rotated_from-IsSafe keys options result run, inr (refl, switched_key)))
            ((refl, inr (refl, switched_key)), ((refl, inl (refl, inl refl)), _))

      planned_for-IsSafe :
          (keys : AreDistinctKeys old new) (e : Ending)
          → AreTables before.databases
          → cleaned new_key ≡ new_key
          → IsSafe (planned_for fernet disk new_key asked reads_back old_key before e)
      planned_for-IsSafe keys (refused e) tables clean = _
      planned_for-IsSafe keys (reported applied report) tables clean =
          if_both IsSafe (not (report.unreadable == 0) && not asked.allow_unreadable) (λ unread. _)
            (λ all_read.
              if_both IsSafe asked.dry_run (λ dry. _)
                (λ wet.
                  if_both IsSafe
                    (not asked.yes && not (same_codes (strip_codes asked.typed) (codes "ROTATE")))
                    (λ no_word. _) (λ word. rotated-IsSafe keys tables clean)))

    -- After every step of a guided rotation, whatever fails, whoever has both keys reads every
    -- value as before, and the keys are there: the .env file has the old key and no value is under
    -- the new one or the databases are as they were, or the .env file has the new key and the
    -- former file is kept. The new key is not empty or the old one and has no white space or
    -- quotes around it, both are Fernet keys, each reads what it sealed and the old one nothing of
    -- the new one, and the tables have one row for each key.
    pub guided_rotation-IsSafe :
        (reasons : List Codes)
        → AreDistinctKeys old new
        → AreTables before.databases
        → is_nil new_key ≡ false
        → cleaned new_key ≡ new_key
        → same_codes old_key new_key ≡ false
        → fernet old_key ≡ some old
        → fernet new_key ≡ some new
        → IsSafe (guided_rotation fernet disk new_key reasons asked reads_back before)
    unfolding guided_rotation
    guided_rotation-IsSafe reasons keys tables new_given clean other is_old_key is_new_key =
        if_both IsSafe (not (is_nil reasons)) (λ running. _)
          (λ stopped.
            if_both IsSafe (is_nil old_key) (λ no_key. _)
              (λ old_given.
                if_both IsSafe (is_there before.safety_net && not asked.dry_run) (λ kept. _)
                  (λ free.
                    planned_for-IsSafe old_given new_given other is_old_key is_new_key keys
                      (rekeyed_with fernet disk new_key dry old_key before.databases).0 tables
                      clean)))
