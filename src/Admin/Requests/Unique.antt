-- ===== src/Admin/Requests/Unique.antt =====
-- app/admin/service.py: a sender has one access request at most, whatever its status.
use channel_agent.Prelude.{
  ℕ, String, ◌≤◌, ◌<◌, ◌≡◌, refl, ap, Bool, true, false, ◌⊎◌, inl, inr, List, [], ◌∷◌, ◌++◌, ◌+◌,
  ◌∙◌, map, All, length, select, update, HasDistinctIds, select-append, select-save_self,
  length-select-save, HasDistinctIds-save, HasDistinctIds-append, select_holds, arith, str_eq_iff,
  str_eq_refl, if◌then◌else◌, Bool-cases,
}
use channel_agent.Env.{Env, EnvLaws}
use channel_agent.Exec.{ok}
use channel_agent.Model.{Database, Channel, AccessRequest, RequestStatus, same_channel}
use channel_agent.Admin.Requests.{
  is_request, has_request_id, reopened, new_request, ensure_access_request,
}

abbrev pub request_id : AccessRequest → ℕ
request_id r = r.id

-- Different ids, and one row at most for each sender.
pub record IsUnique (rows : List AccessRequest) : Type 0 where
  pub ids : HasDistinctIds request_id rows
  pub keys : (c : Channel) (e : String) → length (select (is_request c e) rows) ≤ 1

pub same_channel_refl : (c : Channel) → same_channel c c ≡ true
same_channel_refl c = ground arith

pub eq_of_same_channel : (c d : Channel) → same_channel c d ≡ true → c ≡ d
eq_of_same_channel c d h = ground arith

-- Two keys of one row are equal, so the queries for them are.
is_request_unique :
    (c c' : Channel) (e e' : String) (r x : AccessRequest)
    → is_request c e r ≡ true
    → is_request c' e' r ≡ true
    → is_request c e x ≡ is_request c' e' x
is_request_unique c c' e e' r x h k = ground (
  arith,
  str_eq_iff r.external_id e,
  str_eq_iff r.external_id e',
  eq_of_same_channel r.channel c,
  eq_of_same_channel r.channel c',
)

own_key : (r : AccessRequest) → is_request r.channel r.external_id r ≡ true
own_key r = ground (arith, same_channel_refl r.channel, str_eq_refl r.external_id)

-- Whether the administrators are told: not about a request that waits, nor one that was denied.
abbrev pub is_news : List AccessRequest → Bool
is_news [] = true
is_news (r ∷ rs) = elim r.status [ RequestStatus.approved ↦ true | _ ↦ false ]

All-map :
    (P : ℕ → Type 0) (rows : List AccessRequest)
    → All P (map request_id rows)
    → All (λ r. P r.id) rows
All-map P [] h = tt
All-map P (r ∷ rs) h = (h.0, All-map P rs h.1)

-- Adding the first row of a sender.
length-select_append :
    (p : AccessRequest → Bool) (rows : List AccessRequest) (new : AccessRequest)
    → length (select p (rows ++ new ∷ [])) ≡ length (select p rows) + (if p new then 1 else 0)
unfolding select
length-select_append p [] new = ground arith
length-select_append p (r ∷ rs) new = ground (arith, length-select_append p rs new)

IsUnique-append :
    (new : AccessRequest) (rows : List AccessRequest)
    → All (λ i. i < new.id) (map request_id rows)
    → IsUnique rows
    → select (is_request new.channel new.external_id) rows ≡ []
    → IsUnique (rows ++ new ∷ [])
IsUnique-append new rows h u e = record {
  ids = HasDistinctIds-append request_id rows new (All-map (λ i. i < new.id) rows h) u.ids;
  keys = λ c k. elim (Bool-cases (is_request c k new)) [
    | inl same ↦
        let q : is_request c k ≡ is_request new.channel new.external_id =
          λ i x. is_request_unique c new.channel k new.external_id new x same (own_key new) i in
        let nothing : select (is_request c k) rows ≡ [] = ap (λ p. select p rows) q ∙ e in
        ground (arith, length-select_append (is_request c k) rows new)
    | inr other ↦ ground (arith, length-select_append (is_request c k) rows new, u.keys c k)
  ];
}

-- Saving another version of a row under the same key.
IsUnique-save :
    (r new : AccessRequest) (rows rest : List AccessRequest) (q : AccessRequest → Bool)
    → select q rows ≡ r ∷ rest
    → new.id ≡ r.id
    → new.channel ≡ r.channel
    → new.external_id ≡ r.external_id
    → IsUnique rows
    → IsUnique (update (has_request_id r.id) (λ _. new) rows)
IsUnique-save r new rows rest q e i c k u = record {
  ids = HasDistinctIds-save request_id r new rows i u.ids;
  keys = λ d j.
      ground (
        arith,
        length-select-save request_id q (is_request d j) r new rows rest u.ids e,
        u.keys d j,
      );
}

module _ ⦃env : Env⦄ (c : Channel) (e text : String) (db : Database) where
  -- What `ensure_access_request` leaves: one row for the sender, which is what it returns, and the
  -- flag of the row that it found.
  pub record IsEnsured (before : List AccessRequest) (r : AccessRequest) (told : Bool)
      (db' : Database) : Type 0 where
    pub one : select (is_request c e) db'.requests ≡ r ∷ []
    pub unique : IsUnique db'.requests
    pub flag : told ≡ is_news before
    pub waits : (told ≡ false) ⊎ (r.status ≡ RequestStatus.pending) × (r.first_message_text ≡ text)
    pub stands : (told ≡ true) ⊎ (db' ≡ db)

  IsEnsured-new :
      select (is_request c e) db.requests ≡ []
      → EnvLaws env
      → IsUnique db.requests
      → IsEnsured []
          (new_request c e text db.requests)
          true
          (record db { requests = db.requests ++ new_request c e text db.requests ∷ [] })
  unfolding select
  IsEnsured-new h laws u = record {
    one = rw (select-append, h) (ground (arith, own_key (new_request c e text db.requests)));
    unique = IsUnique-append _ db.requests (laws.new_id_grows _) u h;
    flag = refl;
    waits = inr (refl, refl);
    stands = inl refl;
  }

  new_lem :
      select (is_request c e) db.requests ≡ []
      → ensure_access_request c e text db ≡ (
        ok (new_request c e text db.requests, true),
        record db { requests = db.requests ++ new_request c e text db.requests ∷ [] },
      )
  unfolding ensure_access_request
  new_lem h = rw h refl

  abbrev pub Ensures : List AccessRequest → Type 0
  Ensures rows =
      (r : AccessRequest) × (told : Bool) × (db' : Database) × (ensure_access_request c e text db
        ≡ (ok (r, told), db'))
      × IsEnsured rows r told db'

  ensured_again :
      (r : AccessRequest) (status : RequestStatus)
      → r.status ≡ status
      → select (is_request c e) db.requests ≡ r ∷ []
      → IsUnique db.requests
      → Ensures (r ∷ [])
  unfolding ensure_access_request
  ensured_again r RequestStatus.approved s h u = (
    reopened r text,
    true,
    record db { requests = update (has_request_id r.id) (λ _. reopened r text) db.requests },
    rw (h, s) refl,
    record {
      one =
          select-save_self request_id (is_request c e) r (reopened r text) db.requests u.ids h
            (ground (arith, select_holds (is_request c e) db.requests r [] h));
      unique = IsUnique-save r (reopened r text) db.requests [] (is_request c e) h refl refl refl u;
      flag = rw s refl;
      waits = inr (refl, refl);
      stands = inl refl;
    },
  )
  ensured_again r _ s h u = (
    r,
    false,
    db,
    rw (h, s) refl,
    record { one = h; unique = u; flag = rw s refl; waits = inl refl; stands = inr refl },
  )

  -- `ensure_access_request` never raises on a table with one row at most for each sender, and keeps
  -- it so: the sender has exactly the returned row, the flag is true exactly when there was none or
  -- an approved one, the row then waits with the new text, and otherwise nothing changes.
  pub ensure_access_request-IsEnsured :
      EnvLaws env → IsUnique db.requests → Ensures (select (is_request c e) db.requests)
  ensure_access_request-IsEnsured laws u = go (select (is_request c e) db.requests) refl
    where
      go : (rows : List AccessRequest) → select (is_request c e) db.requests ≡ rows → Ensures rows
      go [] h = (new_request c e text db.requests, true, _, new_lem h, IsEnsured-new h laws u)
      go (r ∷ []) h = ensured_again r r.status refl h u
      go (r ∷ r' ∷ rest) h = absurd (ground (arith, u.keys c e))
