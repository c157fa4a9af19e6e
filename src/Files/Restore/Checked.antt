-- ===== src/Files/Restore/Checked.antt =====
-- app/admin/restore.py: what a restore checks, and what it leaves.
use channel_agent.Prelude.{
  ℕ, ◌≡◌, refl, ◌⊎◌, inl, inr, ◌&&◌, not, Bool, true, false, Option, none, some, List, [], ◌∷◌,
  ◌++◌, ◌==◌, Codes, codes, same_codes, strip_codes, eq_of_same_codes, Bool-cases, is_nil, if_both,
  arith,
}
use channel_agent.Files.Restore.{
  Sqlite, Schema, RestoreError, live_database, is_running, Kept, Store, Request, Restored, restored,
  refused, same_count, same_counts, is_known, verify, verified, make_backup, row_counts,
  check_backup, unreadable_values, swapped, not_cleared, not_replaced, staged, with_copy,
  replaced_by, with_check, run_restore,
}

eq_of_same_count : (a b : Option ℕ) → same_count a b ≡ true → a ≡ b
eq_of_same_count none none h = refl
eq_of_same_count (some a) (some b) h = ground (arith, h)
eq_of_same_count none (some b) h = cc
eq_of_same_count (some a) none h = cc

eq_of_same_counts : (a b : List (Option ℕ)) → same_counts a b ≡ true → a ≡ b
unfolding same_counts
eq_of_same_counts [] [] h = refl
eq_of_same_counts [] (y ∷ b) h = cc
eq_of_same_counts (x ∷ a) [] h = cc
eq_of_same_counts (x ∷ a) (y ∷ b) h = ground (arith, eq_of_same_count x y, eq_of_same_counts a b, h)

zero_or : (n : ℕ) (b : Bool) → not (n == 0) && not b ≡ false → n ≡ 0 ⊎ b ≡ true
zero_or n true h = inr refl
zero_or n false h = inl (ground (arith, h))

word_or :
    (b : Bool) (s : Codes)
    → not b && not (same_codes s (codes "RESTORE")) ≡ false
    → b ≡ true ⊎ s ≡ codes "RESTORE"
word_or true s h = inl refl
word_or false s h = inr (eq_of_same_codes s (codes "RESTORE") (ground (arith, h)))

module _ {F T : Type 0} (sqlite : Sqlite F T) (schema : Schema) (request : Request F T)
    (store : Store F) where
  -- What the copies are after the current database, if any, was kept: a copy that was verified.
  abbrev IsSaved : Option F → List (Kept F) → Type 0
  IsSaved none backups = backups ≡ store.backups
  IsSaved (some current) backups =
      (file : F) × (backups
        ≡ store.backups ++ record { label = codes "before-restore"; file = file } ∷ [])
      × (verify sqlite current file ≡ true)

  -- The checks that a restore passed.
  abbrev pub IsAllowed : F → Type 0
  IsAllowed backup =
      (request.is_live ≡ false)
      × (is_nil request.reasons ≡ true)
      × (sqlite.integrity_ok backup ≡ true)
      × (is_known (sqlite.version backup) schema.revisions ≡ true)
      × (unreadable_values sqlite schema request.decrypts backup ≡ 0
          ⊎ request.allow_unreadable ≡ true)
      × (request.yes ≡ true ⊎ strip_codes request.typed ≡ codes "RESTORE")

  abbrev IsReplaced : F → Option F → Type 0
  IsReplaced backup none = ⊥
  IsReplaced backup (some file) =
      (sqlite.integrity_ok file ≡ true)
      × (row_counts sqlite schema file ≡ row_counts sqlite schema backup)

  abbrev pub IsDone : Option F → Restored × Store F → Type 0
  IsDone o (refused e, store') =
      (store'.database ≡ store.database)
      × (store'.leftovers ≡ store.leftovers ⊎ e ≡ not_cleared ⊎ e ≡ not_replaced)
  IsDone none (restored report, store') = ⊥
  IsDone (some backup) (restored report, store') =
      IsAllowed backup
      × IsSaved store.database store'.backups
      × IsReplaced backup store'.database
      × (store'.leftovers ≡ [])

  -- The parts of a restore, by what was found before them.
  swapped-IsDone :
      (now : Store F) (backup copy : F)
      → IsAllowed backup
      → IsSaved store.database now.backups
      → sqlite.integrity_ok copy ≡ true
      → row_counts sqlite schema copy ≡ row_counts sqlite schema backup
      → IsDone (some backup) (swapped sqlite schema request now backup copy)
  swapped-IsDone now backup copy allowed saved healthy equal =
      rw healthy (allowed, saved, (healthy, equal), refl)

  staged-IsDone :
      (now : Store F) (backup : F) (o : Option F)
      → IsAllowed backup
      → now.database ≡ store.database
      → now.leftovers ≡ store.leftovers
      → IsSaved store.database now.backups
      → IsDone (some backup) (staged sqlite schema request now backup o)
  staged-IsDone now backup none allowed same beside saved = (same, inl beside)
  staged-IsDone now backup (some copy) allowed same beside saved =
      if_both (IsDone (some backup)) (not (sqlite.integrity_ok copy))
        (λ corrupt. (same, inl beside))
        (λ healthy.
          if_both (IsDone (some backup))
            (not (same_counts (row_counts sqlite schema copy) (row_counts sqlite schema backup)))
            (λ differs. (same, inl beside))
            (λ equal.
              if_both (IsDone (some backup)) (not request.clears) (λ kept. (same, inr (inl refl)))
                (λ clears.
                  if_both (IsDone (some backup)) (not request.replaces)
                    (λ kept. (same, inr (inr refl)))
                    (λ replaces.
                      swapped-IsDone now backup copy allowed saved (ground (arith, healthy)) (
                        eq_of_same_counts (row_counts sqlite schema copy)
                          (row_counts sqlite schema backup) (ground (arith, equal)))))))

  verified-verify :
      (source : F) (o : Option F) (kept : F)
      → verified sqlite source o ≡ some kept
      → verify sqlite source kept ≡ true
  verified-verify source none kept h = cc
  verified-verify source (some target) kept h = ground (arith, h)

  with_copy-IsDone :
      (backup current : F) (o : Option F)
      → store.database ≡ some current
      → make_backup sqlite current ≡ o
      → IsAllowed backup
      → IsDone (some backup) (with_copy sqlite schema request store backup o)
  unfolding make_backup
  with_copy-IsDone backup current none there made allowed = (refl, inl refl)
  with_copy-IsDone backup current (some kept) there made allowed =
      staged-IsDone
        (record store {
          backups = store.backups ++ record { label = codes "before-restore"; file = kept } ∷ [];
        })
        backup (sqlite.copy backup) allowed refl refl
        (rw there (kept, refl, verified-verify current (sqlite.copy current) kept made))

  replaced_by-IsDone :
      (backup : F) (o : Option F)
      → store.database ≡ o
      → IsAllowed backup
      → IsDone (some backup) (replaced_by sqlite schema request store backup o)
  replaced_by-IsDone backup none there allowed =
      staged-IsDone store backup (sqlite.copy backup) allowed refl refl (rw there refl)
  replaced_by-IsDone backup (some current) there allowed =
      with_copy-IsDone backup current (make_backup sqlite current) there refl allowed

  check_backup_lem :
      (backup : F)
      → check_backup sqlite schema (some backup) ≡ none
      → (sqlite.integrity_ok backup ≡ true)
        × (is_known (sqlite.version backup) schema.revisions ≡ true)
  unfolding check_backup
  check_backup_lem backup h = (
    elim (Bool-cases (sqlite.integrity_ok backup)) [
      | inl ok ↦ ok
      | inr corrupt ↦ ground (arith, h, corrupt)
    ],
    elim (Bool-cases (is_known (sqlite.version backup) schema.revisions)) [
      | inl known ↦ known
      | inr unknown ↦ ground (arith, h, unknown)
    ],
  )

  with_check-IsDone :
      (backup : F) (e : Option RestoreError)
      → check_backup sqlite schema (some backup) ≡ e
      → request.is_live ≡ false
      → is_nil request.reasons ≡ true
      → IsDone (some backup) (with_check sqlite schema request store (some backup) e)
  unfolding check_backup
  with_check-IsDone backup (some e) checked other stopped = (refl, inl refl)
  with_check-IsDone backup none checked other stopped =
      let healthy = check_backup_lem backup checked in
      if_both (IsDone (some backup))
        (not (unreadable_values sqlite schema request.decrypts backup == 0)
          && not request.allow_unreadable)
        (λ unread. (refl, inl refl))
        (λ all_read.
          if_both (IsDone (some backup))
            (not request.yes && not (same_codes (strip_codes request.typed) (codes "RESTORE")))
            (λ no_word. (refl, inl refl))
            (λ word. replaced_by-IsDone backup store.database refl (
              other,
              stopped,
              healthy.0,
              healthy.1,
              zero_or (unreadable_values sqlite schema request.decrypts backup)
                  request.allow_unreadable all_read,
              word_or request.yes (strip_codes request.typed) word,
            )))

  refused-IsDone : (o : Option F) (e : RestoreError) → IsDone o (refused e, store)
  refused-IsDone none e = (refl, inl refl)
  refused-IsDone (some backup) e = (refl, inl refl)

  checked_lem :
      (o : Option F)
      → request.is_live ≡ false
      → is_nil request.reasons ≡ true
      → IsDone o (with_check sqlite schema request store o (check_backup sqlite schema o))
  checked_lem none other stopped = (refl, inl refl)
  checked_lem (some backup) other stopped =
      with_check-IsDone backup (check_backup sqlite schema (some backup)) refl other stopped

  -- A restore that ends with an error leaves the database as it was, and the files of SQLite
  -- beside it unless removing them or moving the new file failed. One that succeeds was of a
  -- backup that is not the database itself, healthy, of a known revision, readable with the key
  -- unless that was waived, and confirmed, while nothing ran; the database is then healthy with
  -- the rows of the backup, nothing of the old one is beside it, and the one before it, if any,
  -- was kept as a verified copy.
  pub run_restore-IsDone : IsDone request.backup (run_restore sqlite schema request store)
  unfolding run_restore
  run_restore-IsDone =
      if_both (IsDone request.backup) request.is_live
        (λ live. refused-IsDone request.backup live_database)
        (λ other.
          if_both (IsDone request.backup) (not (is_nil request.reasons))
            (λ running. refused-IsDone request.backup is_running)
            (λ stopped. checked_lem request.backup other (ground (arith, stopped))))
