-- ===== src/Admin/Logs/Search/Batches.antt =====
-- app/admin/service.py: reading the audit trail in batches finds what one pass would.
use mathlib.Core.Path.{subst}
use mathlib.Core.List.{reverse_aux}
use channel_agent.Prelude.{
  ℕ, zero, suc, ◌+◌, ◌≤◌, ◌<◌, ◌-◌, ◌&&◌, ◌≡◌, refl, sym, ap, ◌∙◌, Bool, true, false, Option, none,
  some, List, [], ◌∷◌, ◌++◌, length, take, drop, All, select, str_eq, ltb, leb, ltb→lt, arith, ◌==◌,
  if◌then◌else◌, append_assoc, append-nil, length-append, Bool-cases, inl, inr,
}
use channel_agent.Env.{Env}
use channel_agent.Exec.{ok}
use channel_agent.Model.{ActionLog}
use channel_agent.Admin.Logs.Search.{
  Filters, Progress, fits, statement, below, last_id_of, scan_entry, scan, search_batches,
  log_search_batch, needle_of, contains_needle, search_rows,
}

le_of_eq : (a b : ℕ) → (a == b) ≡ true → b ≤ a
le_of_eq a b h = ground arith

le_of_ltb : (a b : ℕ) → ltb a b ≡ false → b ≤ a
le_of_ltb a b h = ground arith

lt_of_le : (a b : ℕ) → a ≤ b → (a == b) ≡ false → a < b
lt_of_le a b h k = ground arith

-- Ids that fall from row to row.
abbrev pub IsDescending : List ActionLog → Type 0
IsDescending [] = Unit {0}
IsDescending (e ∷ es) = All (λ x. x.id < e.id) es × IsDescending es

take-drop : (n : ℕ) (xs : List ActionLog) → take n xs ++ drop n xs ≡ xs
take-drop zero xs = refl
take-drop (suc n) [] = refl
take-drop (suc n) (x ∷ xs) = ap (λ l. x ∷ l) (take-drop n xs)

take_short : (n : ℕ) (xs : List ActionLog) → length (take n xs) < n → take n xs ≡ xs
take_short zero xs h = absurd (omega (arith, h))
take_short (suc n) [] h = refl
take_short (suc n) (x ∷ xs) h = ap (λ l. x ∷ l) (take_short n xs (omega (arith, h)))

length-drop_le :
    (n : ℕ) (xs : List ActionLog) → n ≤ length (take n xs) → length (drop n xs) + n ≡ length xs
length-drop_le zero xs h = omega arith
length-drop_le (suc n) [] h = absurd (omega (arith, h))
length-drop_le (suc n) (x ∷ xs) h = omega (arith, length-drop_le n xs (omega (arith, h)))

last_id_lt :
    (n l : ℕ) (ys zs : List ActionLog)
    → All (λ x. x.id < n) (ys ++ zs)
    → last_id_of ys ≡ some l
    → l < n
last_id_lt n l [] zs a h = ground arith
last_id_lt n l (e ∷ []) zs a h = ground (arith, a.0)
last_id_lt n l (e ∷ x ∷ es) zs a h = last_id_lt n l (x ∷ es) zs a.1 h

select_below :
    (l : ℕ) (zs : List ActionLog) → All (λ x. x.id < l) zs → select (λ e. ltb e.id l) zs ≡ zs
unfolding select
select_below l [] a = refl
select_below l (z ∷ zs) a = ground (arith, a.0, select_below l zs a.1)

-- What is below the last row of a part is what follows it.
below_last :
    (l : ℕ) (ys zs : List ActionLog)
    → IsDescending (ys ++ zs)
    → last_id_of ys ≡ some l
    → select (λ e. ltb e.id l) (ys ++ zs) ≡ zs
unfolding select
below_last l [] zs d h = ground arith
below_last l (e ∷ []) zs d h =
    let same : e.id ≡ l = ground arith in ground (arith, select_below e.id zs d.0)
below_last l (e ∷ x ∷ es) zs d h =
    ground (arith, below_last l (x ∷ es) zs d.1 h, last_id_lt e.id l (x ∷ es) zs d.0 h)

last_id-append :
    (pre : List ActionLog) (x : ActionLog) (xs : List ActionLog)
    → last_id_of (pre ++ x ∷ xs) ≡ last_id_of (x ∷ xs)
last_id-append [] x xs = refl
last_id-append (p ∷ []) x xs = refl
last_id-append (p ∷ q ∷ pre) x xs = last_id-append (q ∷ pre) x xs

last_id_some : (x : ActionLog) (xs : List ActionLog) → (l : ℕ) × (last_id_of (x ∷ xs) ≡ some l)
last_id_some x [] = (x.id, refl)
last_id_some x (y ∷ xs) = last_id_some y xs

module _ (matches : ActionLog → Bool) (limit offset : ℕ) where
  -- One pass over rows that finds what is left of the page.
  scan_page :
      (xs found : List ActionLog) (skipped r d : ℕ)
      → length found + suc r ≡ limit
      → skipped + d ≡ offset
      → (scan matches limit offset xs (found, skipped)).0
        ≡ found ++ take (suc r) (drop d (select matches xs))
  unfolding scan scan_entry select
  scan_page [] found skipped r zero h k = sym (append-nil found)
  scan_page [] found skipped r (suc d) h k = sym (append-nil found)
  scan_page (e ∷ es) found skipped r (suc d) h k =
      ground
        (arith, scan_page es found skipped r (suc d) h k, scan_page es found (suc skipped) r d h)
  scan_page (e ∷ es) found skipped zero zero h k =
      ground (arith, scan_page es found skipped zero zero h k, length-append found (e ∷ []))
  scan_page (e ∷ es) found skipped (suc r) zero h k = ground (
    arith,
    scan_page es found skipped (suc r) zero h k,
    scan_page es (found ++ e ∷ []) skipped r zero,
    length-append found (e ∷ []),
    append_assoc found (e ∷ []) (take (suc r) (select matches es)),
  )

  length-scan :
      (xs : List ActionLog) (p : Progress)
      → length p.0 < limit
      → length (scan matches limit offset xs p).0 ≤ limit
  unfolding scan scan_entry
  length-scan [] p h = omega (arith, h)
  length-scan (e ∷ es) (found, skipped) h = ground (
    arith,
    length-scan es (found, skipped) h,
    length-scan es (found, suc skipped) h,
    length-scan es (found ++ e ∷ [], skipped),
    length-append found (e ∷ []),
  )

  scan-append :
      (xs ys : List ActionLog) (p : Progress)
      → length p.0 < limit
      → scan matches limit offset (xs ++ ys) p ≡ (
          if length (scan matches limit offset xs p).0 == limit
          then scan matches limit offset xs p
          else scan matches limit offset ys (scan matches limit offset xs p))
  unfolding scan scan_entry
  scan-append [] ys p h = ground arith
  scan-append (e ∷ xs) ys (found, skipped) h = ground (
    arith,
    scan-append xs ys (found, skipped) h,
    scan-append xs ys (found, suc skipped) h,
    scan-append xs ys (found ++ e ∷ [], skipped),
    length-append found (e ∷ []),
  )

  search_full :
      (fuel : ℕ) (rows : List ActionLog) (last : Option ℕ) (p : Progress)
      → limit ≤ length p.0
      → search_batches matches limit offset fuel rows last p ≡ p.0
  unfolding search_batches
  search_full zero rows last (found, skipped) h = refl
  search_full (suc fuel) rows last (found, skipped) h = ground arith

  -- The rows before the batch `xs`, and those after it.
  below_batch :
      (rows pre xs ys : List ActionLog)
      → rows ≡ (pre ++ xs) ++ ys
      → IsDescending rows
      → 1 ≤ length xs
      → below (last_id_of xs) rows ≡ ys
  below_batch rows pre [] ys e d h = absurd (omega (arith, h))
  below_batch rows pre (x ∷ xs) ys e d h =
      let (l, last) = last_id_some x xs in
      rw (last, e)
        (below_last l (pre ++ x ∷ xs) ys (subst IsDescending e d) (last_id-append pre x xs ∙ last))

  batches :
      (fuel : ℕ) (rows pre rest : List ActionLog) (last : Option ℕ) (p : Progress)
      → rows ≡ pre ++ rest
      → IsDescending rows
      → below last rows ≡ rest
      → length rest < fuel
      → length p.0 < limit
      → search_batches matches limit offset fuel rows last p ≡ (scan matches limit offset rest p).0
  unfolding search_batches
  batches zero rows pre rest last p e d b f h = absurd (omega (arith, f))
  batches (suc fuel) rows pre rest last (found, skipped) e d b f h =
      let p : Progress = (found, skipped) in
      let room : ltb (length found) limit ≡ true = ground (arith, h) in
      let xs = take log_search_batch rest in
      let ys = drop log_search_batch rest in
      let whole : xs ++ ys ≡ rest = take-drop log_search_batch rest in
      let e' : rows ≡ (pre ++ xs) ++ ys =
        e ∙ ap (λ l. pre ++ l) (sym whole) ∙ sym (append_assoc pre xs ys) in
      elim (Bool-cases (ltb (length xs) log_search_batch)) [
        | inl short ↦
            rw (b, search_batches)
              (rw (room, short)
                (ap (λ l. (scan matches limit offset l p).0)
                  (take_short log_search_batch rest (ltb→lt (length xs) log_search_batch short))))
        | inr full ↦
            let q = scan matches limit offset xs p in
            let many = le_of_ltb (length xs) log_search_batch full in
            let shrinks = length-drop_le log_search_batch rest many in
            let along : scan matches limit offset rest p
                ≡ (if length q.0 == limit then q else scan matches limit offset ys q) =
              ap (λ l. scan matches limit offset l p) (sym whole) ∙ scan-append xs ys p h in
            let next : search_batches matches limit offset fuel rows (last_id_of xs) q
                ≡ (if length q.0 == limit then q else scan matches limit offset ys q).0 =
              elim (Bool-cases (length q.0 == limit)) [
                | inl done ↦
                    rw done
                      (search_full fuel rows (last_id_of xs) q (le_of_eq (length q.0) limit done))
                | inr more ↦ rw more (
                    batches fuel rows (pre ++ xs) ys (last_id_of xs) q e' d
                      (below_batch rows pre xs ys e' d (omega (arith, many)))
                      (omega (arith, shrinks, f))
                      (lt_of_le (length q.0) limit (length-scan xs p h) more))
              ] in
            rw (b, search_batches) (rw (room, full, along) next)
      ]

within : (n : ℕ) → 1 ≤ n → n ≤ 500 → (leb 1 n && leb n 500) ≡ true
within n low high = ground arith

-- Ids that rise from row to row, as they do in a table.
abbrev pub IsAscending : List ActionLog → Type 0
IsAscending [] = Unit {0}
IsAscending (e ∷ es) = All (λ x. e.id < x.id) es × IsAscending es

-- Each row of `acc` is before each row of `xs`.
abbrev AreBefore : List ActionLog → List ActionLog → Type 0
AreBefore acc xs = All (λ a. All (λ x. a.id < x.id) xs) acc

AreBefore-head :
    (acc : List ActionLog) (x : ActionLog) (xs : List ActionLog)
    → AreBefore acc (x ∷ xs)
    → All (λ a. a.id < x.id) acc × AreBefore acc xs
AreBefore-head [] x xs h = (tt, tt)
AreBefore-head (a ∷ acc) x xs h =
    let (heads, tails) = AreBefore-head acc x xs h.1 in ((h.0.0, heads), (h.0.1, tails))

IsDescending-reverse :
    (p : ActionLog → Bool) (xs acc : List ActionLog)
    → IsAscending xs
    → IsDescending acc
    → AreBefore acc xs
    → IsDescending (reverse_aux (select p xs) acc)
unfolding select
IsDescending-reverse p [] acc u d b = d
IsDescending-reverse p (x ∷ xs) acc u d b =
    let (heads, tails) = AreBefore-head acc x xs b in
    elim (Bool-cases (p x)) [
      | inl kept ↦ rw kept (IsDescending-reverse p xs (x ∷ acc) u.1 (heads, d) (u.0, tails))
      | inr left ↦ rw left (IsDescending-reverse p xs acc u.1 d tails)
    ]

-- A search of a table, whose ids rise, with a limit from 1 to 500: the entries that fit the filters
-- and whose text holds the keyword (all that fit, if it is empty), the newest first, from the offset
-- on and up to the limit.
pub search_rows_lem :
    ⦃env : Env⦄ (f : Filters) (rows : List ActionLog)
    → IsAscending rows
    → 1 ≤ f.limit
    → f.limit ≤ 500
    → search_rows f rows
      ≡ ok (
          take f.limit (
            drop f.offset (
              if str_eq (needle_of f.keyword) ""
              then statement f rows
              else select (λ e. contains_needle (needle_of f.keyword) e.text) (statement f rows))))
unfolding search_rows
search_rows_lem f rows up low high =
    let d : IsDescending (statement f rows) = IsDescending-reverse (fits f) rows [] up tt tt in
    let found = statement f rows in
    let m : ActionLog → Bool = λ e. contains_needle (needle_of f.keyword) e.text in
    let all =
      batches m f.limit f.offset (suc (length found)) found [] found none ([], 0) refl d refl
        (omega arith) (omega (arith, low)) in
    let whole : suc (f.limit - 1) ≡ f.limit = omega (arith, low) in
    let page : search_batches m f.limit f.offset (suc (length found)) found none ([], 0)
        ≡ take f.limit (drop f.offset (select m found)) =
      all
      ∙ scan_page m f.limit f.offset found [] 0 (f.limit - 1) f.offset (omega (arith, low))
          (omega arith)
      ∙ ap (λ n. take n (drop f.offset (select m found))) whole in
    elim (Bool-cases (str_eq (needle_of f.keyword) "")) [
      | inl empty ↦ ground (arith, low, high)
      | inr some_word ↦ rw (some_word, search_rows, within f.limit low high) (ap ok page)
    ]
