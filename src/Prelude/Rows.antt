-- ===== src/Prelude/Rows.antt =====
-- Tables as lists of rows in the order of insertion: the queries and writes that the program makes.
use Prim.Native.Nat.{ℕ, ◌<◌}
use channel_agent.Prelude.Lists.{length, All}
use channel_agent.Prelude.Bools.{◌==◌}
use mathlib.Core.Path.{◌≡◌, refl}
use mathlib.Core.Bool.{Bool, true, false, ◌||◌}
use mathlib.Core.Option.{Option, none, some}
use mathlib.Core.List.{List, [], ◌∷◌, ◌++◌, map}
use native.Mathlib.Omega.{arith}
use channel_agent.Prelude.Bools.{if◌then◌else◌}
use channel_agent.Prelude.Lists.{any}

module _ {ℓ} {A : Type ℓ} where
  -- select … where p
  unfoldable pub select : (A → Bool) → List A → List A
  select p [] = []
  select p (r ∷ rs) = let rest = select p rs in if p r then r ∷ rest else rest

  -- The first row that satisfies `p`.
  unfoldable pub first : (A → Bool) → List A → Option A
  first p [] = none
  first p (r ∷ rs) = let rest = first p rs in if p r then some r else rest

  -- The last row that satisfies `p`.
  unfoldable pub last : (A → Bool) → List A → Option A
  last p [] = none
  last p (r ∷ rs) = elim (last p rs) [ some x ↦ some x | none ↦ if p r then some r else none ]

  -- update … where p
  unfoldable pub update : (A → Bool) → (A → A) → List A → List A
  update p f [] = []
  update p f (r ∷ rs) = (if p r then f r else r) ∷ update p f rs

  -- delete … where p
  unfoldable pub delete : (A → Bool) → List A → List A
  delete p [] = []
  delete p (r ∷ rs) = let rest = delete p rs in if p r then rest else r ∷ rest

  pub select-append :
      (p : A → Bool) (xs ys : List A) → select p (xs ++ ys) ≡ select p xs ++ select p ys
  unfolding select
  select-append p [] ys = refl
  select-append p (x ∷ xs) ys = ground (arith, select-append p xs ys)

  pub select-eq-nil : (p : A → Bool) (xs : List A) → first p xs ≡ none → select p xs ≡ []
  unfolding select first
  select-eq-nil p [] h = refl
  select-eq-nil p (x ∷ xs) h = ground (arith, select-eq-nil p xs)

  pub any-append : (p : A → Bool) (xs ys : List A) → any p (xs ++ ys) ≡ (any p xs || any p ys)
  any-append p [] ys = refl
  any-append p (x ∷ xs) ys = ground (arith, any-append p xs ys)

  -- Deleting leaves no row that satisfies the condition.
  pub any-delete : (p : A → Bool) (xs : List A) → any p (delete p xs) ≡ false
  unfolding delete
  any-delete p [] = refl
  any-delete p (x ∷ xs) = ground (arith, any-delete p xs)

  pub any_of_select_nil : (p : A → Bool) (xs : List A) → select p xs ≡ [] → any p xs ≡ false
  unfolding select
  any_of_select_nil p [] h = refl
  any_of_select_nil p (x ∷ xs) h = ground (arith, any_of_select_nil p xs)

  pub any_of_select :
      (p : A → Bool) (xs : List A) (x : A) (rest : List A)
      → select p xs ≡ x ∷ rest
      → any p xs ≡ true
  unfolding select
  any_of_select p [] x rest h = cc
  any_of_select p (y ∷ xs) x rest h = ground (arith, any_of_select p xs x rest)

  -- What a query returns satisfies its condition.
  pub select_holds :
      (p : A → Bool) (xs : List A) (x : A) (rest : List A) → select p xs ≡ x ∷ rest → p x ≡ true
  unfolding select
  select_holds p [] x rest h = cc
  select_holds p (y ∷ xs) x rest h = ground (arith, select_holds p xs x rest)

  pub first_holds : (p : A → Bool) (xs : List A) (x : A) → first p xs ≡ some x → p x ≡ true
  unfolding first
  first_holds p [] x h = cc
  first_holds p (y ∷ xs) x h = ground (arith, first_holds p xs x)

  pub delete-none : (p : A → Bool) (xs : List A) → any p xs ≡ false → delete p xs ≡ xs
  unfolding delete
  delete-none p [] h = refl
  delete-none p (x ∷ xs) h = ground (arith, delete-none p xs)

  pub first-append_none :
      (p : A → Bool) (xs ys : List A) → first p xs ≡ none → first p (xs ++ ys) ≡ first p ys
  unfolding first
  first-append_none p [] ys h = refl
  first-append_none p (x ∷ xs) ys h = ground (arith, first-append_none p xs ys)

  pub first-append_some :
      (p : A → Bool) (xs ys : List A) (x : A) → first p xs ≡ some x → first p (xs ++ ys) ≡ some x
  unfolding first
  first-append_some p [] ys x h = cc
  first-append_some p (y ∷ xs) ys x h = ground (arith, first-append_some p xs ys x)

-- Rows with different ids: the id of a row finds that row.
module _ {ℓ} {A : Type ℓ} (id : A → ℕ) where
  abbrev pub same_id : A → A → Bool
  same_id r x = id x == id r

  abbrev pub HasDistinctIds : List A → Type 0
  HasDistinctIds [] = Unit {0}
  HasDistinctIds (r ∷ rs) = (any (same_id r) rs ≡ false) × HasDistinctIds rs

  pub update-none : (p : A → Bool) (f : A → A) (xs : List A) → any p xs ≡ false → update p f xs ≡ xs
  unfolding update
  update-none p f [] h = refl
  update-none p f (x ∷ xs) h = ground (arith, update-none p f xs)

  pub any_id_of_select :
      (q : A → Bool) (r : A) (xs rest : List A) → select q xs ≡ r ∷ rest → any (same_id r) xs ≡ true
  unfolding select
  any_id_of_select q r [] rest h = cc
  any_id_of_select q r (x ∷ xs) rest h = ground (arith, any_id_of_select q r xs rest)

  -- Saving the only row that satisfies `q` replaces that row, where ids differ.
  pub select-save_self :
      (q : A → Bool) (r new : A) (xs : List A)
      → HasDistinctIds xs
      → select q xs ≡ r ∷ []
      → q new ≡ true
      → select q (update (same_id r) (λ _. new) xs) ≡ new ∷ []
  unfolding select update
  select-save_self q r new [] d h k = cc
  select-save_self q r new (x ∷ xs) d h k = ground (
    arith,
    select-save_self q r new xs d.1,
    any_id_of_select q r xs [],
    update-none (same_id r) (λ _. new) xs,
  )

  -- Saving a row leaves the answer to a query that fits neither its old nor its new form.
  pub select-save_other :
      (q p : A → Bool) (r new : A) (xs rest : List A)
      → HasDistinctIds xs
      → select q xs ≡ r ∷ rest
      → p r ≡ false
      → p new ≡ false
      → select p (update (same_id r) (λ _. new) xs) ≡ select p xs
  unfolding select update
  select-save_other q p r new [] rest d h k l = refl
  select-save_other q p r new (x ∷ xs) rest d h k l = ground (
    arith,
    select-save_other q p r new xs rest d.1,
    any_id_of_select q r xs rest,
    update-none (same_id r) (λ _. new) xs,
  )

  -- Saving a row keeps the number of answers to a query that does not see the change.
  pub length-select-save :
      (q p : A → Bool) (r new : A) (xs rest : List A)
      → HasDistinctIds xs
      → select q xs ≡ r ∷ rest
      → p new ≡ p r
      → length (select p (update (same_id r) (λ _. new) xs)) ≡ length (select p xs)
  unfolding select update
  length-select-save q p r new [] rest d h k = refl
  length-select-save q p r new (x ∷ xs) rest d h k = ground (
    arith,
    length-select-save q p r new xs rest d.1,
    any_id_of_select q r xs rest,
    update-none (same_id r) (λ _. new) xs,
  )

  any-save :
      (x r new : A) (xs : List A)
      → id new ≡ id r
      → any (same_id x) (update (same_id r) (λ _. new) xs) ≡ any (same_id x) xs
  unfolding update
  any-save x r new [] e = refl
  any-save x r new (y ∷ xs) e = ground (arith, any-save x r new xs e)

  pub HasDistinctIds-save :
      (r new : A) (xs : List A)
      → id new ≡ id r
      → HasDistinctIds xs
      → HasDistinctIds (update (same_id r) (λ _. new) xs)
  unfolding update
  HasDistinctIds-save r new [] e d = tt
  HasDistinctIds-save r new (x ∷ xs) e d = (
    ground (arith, any-save x r new xs e, any-save new r new xs e, d.0),
    HasDistinctIds-save r new xs e d.1,
  )

  pub HasDistinctIds-append :
      (xs : List A) (new : A)
      → All (λ x. id x < id new) xs
      → HasDistinctIds xs
      → HasDistinctIds (xs ++ new ∷ [])
  HasDistinctIds-append [] new h d = (refl, tt)
  HasDistinctIds-append (x ∷ xs) new h d = (
    ground (arith, any-append (same_id x) xs (new ∷ []), d.0, h.0),
    HasDistinctIds-append xs new h.1 d.1,
  )

  -- An id larger than every other is new.
  pub first_id-none :
      (n : ℕ) (xs : List A) → All (λ i. i < n) (map id xs) → first (λ x. id x == n) xs ≡ none
  unfolding first
  first_id-none n [] h = refl
  first_id-none n (x ∷ xs) h = ground (arith, first_id-none n xs h.1, h.0)

  pub any_id-none :
      (n : ℕ) (xs : List A) → All (λ i. i < n) (map id xs) → any (λ x. id x == n) xs ≡ false
  any_id-none n [] h = refl
  any_id-none n (x ∷ xs) h = ground (arith, any_id-none n xs h.1, h.0)
