-- ===== src/Files/Backups/Stays.antt =====
-- app/db/backup.py: the copies that are never removed.
use channel_agent.Prelude.{
  ℕ, zero, suc, ◌≡◌, refl, ap, inl, inr, ◌-◌, not, Bool, true, false, List, [], ◌∷◌, any, all, take,
  length, select, ◌==◌, Codes, same_codes, eq_of_same_codes, Bool-cases, if_both, arith,
}
use channel_agent.Files.Backups.{entry_le, insert, sorted, is_dated, outdated, prune_backups}

insert-All :
    (p : Codes → Bool) (name : Codes) (names : List Codes)
    → p name ≡ true
    → all p names ≡ true
    → all p (insert name names) ≡ true
unfolding insert
insert-All p name [] h k = ground (arith, h)
insert-All p name (other ∷ rest) h k =
    if_both (λ (l : List Codes). all p l ≡ true) (entry_le name other)
      (λ first. ground (arith, h, k))
      (λ later. ground (arith, k, insert-All p name rest h (ground (arith, k))))

sorted-All :
    (p : Codes → Bool) (names : List Codes) → all p names ≡ true → all p (sorted names) ≡ true
unfolding sorted
sorted-All p [] h = refl
sorted-All p (name ∷ rest) h =
    insert-All p name (sorted rest) (ground (arith, h)) (sorted-All p rest (ground (arith, h)))

select-All : (p : Codes → Bool) (names : List Codes) → all p (select p names) ≡ true
unfolding select
select-All p [] = refl
select-All p (name ∷ rest) = ground (arith, select-All p rest)

take-All :
    (p : Codes → Bool) (n : ℕ) (names : List Codes)
    → all p names ≡ true
    → all p (take n names) ≡ true
take-All p zero names h = refl
take-All p (suc n) [] h = refl
take-All p (suc n) (name ∷ rest) h = ground (arith, h, take-All p n rest)

outdated-All : (keep : ℕ) (names : List Codes) → all is_dated (outdated keep names) ≡ true
unfolding outdated
outdated-All keep names =
    let dated = sorted (select is_dated names) in
    if_both (λ (l : List Codes). all is_dated l ≡ true) (keep == 0) (λ none_kept. refl)
      (λ some_kept.
        take-All is_dated (length dated - keep) dated
          (sorted-All is_dated (select is_dated names) (select-All is_dated names)))

-- A name that a test refuses is not among those that it accepts.
any-All :
    (p : Codes → Bool) (name : Codes) (names : List Codes)
    → all p names ≡ true
    → p name ≡ false
    → any (same_codes name) names ≡ false
any-All p name [] h k = refl
any-All p name (other ∷ rest) h k = elim (Bool-cases (same_codes name other)) [
  | inl same ↦ ground (arith, h, k, ap p (eq_of_same_codes name other same))
  | inr different ↦ ground (arith, different, any-All p name rest (ground (arith, h)) k)
]

any-select :
    (p : Codes → Bool) (name : Codes) (names : List Codes)
    → p name ≡ true
    → any (same_codes name) names ≡ true
    → any (same_codes name) (select p names) ≡ true
unfolding select
any-select p name [] h k = k
any-select p name (other ∷ rest) h k = elim (Bool-cases (same_codes name other)) [
  | inl same ↦ ground (arith, same, h, ap p (eq_of_same_codes name other same))
  | inr different ↦
      ground (arith, different, k, any-select p name rest h (ground (arith, different, k)))
]

-- A copy that is kept for a rotation or a restore, and a file without a stamp, stay.
prune_backups-any :
    (keep : ℕ) (names : List Codes) (name : Codes)
    → is_dated name ≡ false
    → any (same_codes name) names ≡ true
    → any (same_codes name) (prune_backups keep names) ≡ true
unfolding prune_backups
prune_backups-any keep names name kept there =
    any-select (λ n. not (any (same_codes n) (outdated keep names))) name names
      (ap not (any-All is_dated name (outdated keep names) (outdated-All keep names) kept)) there
