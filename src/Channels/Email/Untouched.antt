-- ===== src/Channels/Email/Untouched.antt =====
-- app/channels/email.py: which mail is never touched.
use channel_agent.Prelude.{
  ℕ, ◌≡◌, refl, ◌∙◌, inl, inr, ◌+◌, ◌&&◌, not, Bool, true, false, Option, none, some, List, [], ◌∷◌,
  update, first, first_holds, ◌==◌, ==_iff, ltb, Codes, is_nil, All, Bool-cases, if_both, arith,
}
use channel_agent.Channels.Dispatch.{DispatchOutcome}
use channel_agent.Channels.Email.{
  Mail, Server, Found, skipped, to_file, to_answer, is_uid, filed, marked, StoreEnd, stored,
  not_stored, store_raises, moved_or_left, after_store, subject_has_tag, mark_seen_and_file,
  usable_folder, judged, after_file, also, read_one, read_each, read_found, tag_is_usable,
  fetch_tagged_unseen, finalize_message, Inbox, concluded, handle, handle_all, failed_folder,
  is_failure, polled, poll_once, attempts_of, max_attempts, can_move,
}

-- What is done to one message of the INBOX leaves the others.
first-update :
    (u v : ℕ) (f : Mail → Mail) (mails : List Mail)
    → ((m : Mail) → (f m).uid ≡ m.uid)
    → v == u ≡ false
    → first (is_uid u) (update (is_uid v) f mails) ≡ first (is_uid u) mails
unfolding first update
first-update u v f [] same h = refl
first-update u v f (m ∷ ms) same h =
    let rest = first-update u v f ms same h in
    elim (Bool-cases (is_uid v m)) [
      | inl here ↦ ground (arith, here, rest, same m, h)
      | inr other ↦ ground (arith, other, rest)
    ]

moved_or_left-first :
    (server : Server) (flagged : Bool) (u v : ℕ) (folder : Codes) (mails : List Mail)
    → v == u ≡ false
    → first (is_uid u) (moved_or_left server flagged v folder mails) ≡ first (is_uid u) mails
moved_or_left-first server flagged u v folder mails h =
    if_both (λ ms. first (is_uid u) ms ≡ first (is_uid u) mails)
      (not (is_nil folder) && server.has_folder folder && can_move server v)
      (λ moved. first-update u v (filed flagged folder) mails (λ m. refl) h)
      (λ stays. first-update u v (marked flagged) mails (λ m. refl) h)

after_store-first :
    (server : Server) (u v : ℕ) (folder : Codes) (mails : List Mail) (e : StoreEnd)
    → v == u ≡ false
    → first (is_uid u) (after_store server v folder mails e).1 ≡ first (is_uid u) mails
after_store-first server u v folder mails stored h =
    moved_or_left-first server true u v folder mails h
after_store-first server u v folder mails not_stored h =
    moved_or_left-first server false u v folder mails h
after_store-first server u v folder mails store_raises h = refl

mark_seen_and_file-first :
    (server : Server) (u v : ℕ) (folder : Codes) (mails : List Mail)
    → v == u ≡ false
    → first (is_uid u) (mark_seen_and_file server v folder mails).1 ≡ first (is_uid u) mails
unfolding mark_seen_and_file
mark_seen_and_file-first server u v folder mails h =
    after_store-first server u v folder mails (server.stores v) h

-- A message that the INBOX has, and whose subject does not have the tag.
module _ (server : Server) (tag : Codes) (u : ℕ) (letter : Mail)
    (plain : subject_has_tag server letter.subject tag ≡ false) where
  abbrev Keeps : List Mail → Type 0
  Keeps mails = first (is_uid u) mails ≡ some letter

  abbrev AreOthers : Option (List Mail) → Type 0
  AreOthers none = Unit {0}
  AreOthers (some found) = All (λ (m : Mail). m.uid == u ≡ false) found

  abbrev IsKept : List Mail × Option (List Mail) → Type 0
  IsKept result = Keeps result.0 × AreOthers result.1

  judged-plain :
      (mails : List Mail) → Keeps mails → judged server tag u (first (is_uid u) mails) ≡ skipped
  judged-plain mails h = rw (h, plain) (ground arith)

  judged-other :
      (uid : ℕ) (o : Option Mail) (m : Mail) → judged server tag uid o ≡ to_answer m → o ≡ some m
  judged-other uid none m h = cc
  judged-other uid (some other) m h = ground (arith, h)

  also-IsKept :
      (m : Mail) (result : List Mail × Option (List Mail))
      → m.uid == u ≡ false
      → IsKept result
      → IsKept (also server m result)
  also-IsKept m (mails, none) other h = h
  also-IsKept m (mails, some found) other h = (h.0, (other, h.1))

  after_file-IsKept :
      (next : List Mail → List Mail × Option (List Mail)) (r : Bool × List Mail)
      → Keeps r.1
      → ((ms : List Mail) → Keeps ms → IsKept (next ms))
      → IsKept (after_file server next r)
  after_file-IsKept next (true, mails) h k = k mails h
  after_file-IsKept next (false, mails) h k = (h, _)

  read_one-IsKept :
      (next : List Mail → List Mail × Option (List Mail)) (folder : Codes) (uid : ℕ)
      (mails : List Mail) (found : Found)
      → judged server tag uid (first (is_uid uid) mails) ≡ found
      → uid == u ≡ false
      → Keeps mails
      → ((ms : List Mail) → Keeps ms → IsKept (next ms))
      → IsKept (read_one server next folder uid mails found)
  read_one-IsKept next folder uid mails skipped e other h k = k mails h
  read_one-IsKept next folder uid mails to_file e other h k =
      after_file-IsKept next (mark_seen_and_file server uid folder mails)
        (mark_seen_and_file-first server u uid folder mails other ∙ h) k
  read_one-IsKept next folder uid mails (to_answer m) e other h k =
      also-IsKept m (next mails)
        (ground (
          arith,
          other,
          first_holds (is_uid uid) mails m (judged-other uid (first (is_uid uid) mails) m e),
        ))
        (k mails h)

  read_each-IsKept :
      (folder : Codes) (uids : List ℕ) (mails : List Mail)
      → Keeps mails
      → IsKept (read_each server tag folder uids mails)
  unfolding read_each
  read_each-IsKept folder [] mails h = (h, _)
  read_each-IsKept folder (uid ∷ uids) mails h = elim (Bool-cases (uid == u)) [
    | inl same ↦
        rw ((==_iff uid u).0 same, judged-plain mails h) (read_each-IsKept folder uids mails h)
    | inr other ↦
        read_one-IsKept (λ ms. read_each server tag folder uids ms) folder uid mails
          (judged server tag uid (first (is_uid uid) mails)) refl other h
          (λ ms k. read_each-IsKept folder uids ms k)
  ]

  read_found-IsKept :
      (folder : Codes) (mails : List Mail) (o : Option (List ℕ))
      → Keeps mails
      → IsKept (read_found server tag folder mails o)
  read_found-IsKept folder mails none h = (h, _)
  read_found-IsKept folder mails (some uids) h = read_each-IsKept folder uids mails h

  fetch-IsKept :
      (folder : Codes) (mails : List Mail)
      → Keeps mails
      → IsKept (fetch_tagged_unseen server tag folder mails)
  unfolding fetch_tagged_unseen
  fetch-IsKept folder mails h =
      if_both IsKept (not (tag_is_usable tag)) (λ unusable. (h, _))
        (λ usable.
          if_both IsKept (not server.opens) (λ closed. (h, _))
            (λ opened.
              read_found-IsKept (usable_folder server folder) mails (server.search tag mails) h))

  module _ {ℓ} {S : Type ℓ} (dispatch : S → Mail → Bool → S × Option DispatchOutcome) where
    finalize-Keeps :
        (uid : ℕ) (folder : Codes) (mails : List Mail)
        → uid == u ≡ false
        → Keeps mails
        → Keeps (finalize_message server uid folder mails)
    unfolding finalize_message
    finalize-Keeps uid folder mails other h =
        if_both Keeps (not server.opens) (λ closed. h)
          (λ opened.
            mark_seen_and_file-first server u uid (usable_folder server folder) mails other ∙ h)

    concluded-Keeps :
        (folder : Codes) (m : Mail) (box : Inbox S) (failure : Bool)
        → m.uid == u ≡ false
        → Keeps box.mails
        → Keeps (concluded server dispatch folder m box failure).mails
    concluded-Keeps folder m box false other h = finalize-Keeps m.uid folder box.mails other h
    concluded-Keeps folder m box true other h =
        if_both (λ (b : Inbox S). Keeps b.mails)
          (ltb (attempts_of m.uid box.attempts + 1) max_attempts) (λ again. h)
          (λ last. finalize-Keeps m.uid (failed_folder folder) box.mails other h)

    handle_all-Keeps :
        (folder : Codes) (box : Inbox S) (found : List Mail)
        → All (λ (m : Mail). m.uid == u ≡ false) found
        → Keeps box.mails
        → Keeps (handle_all server dispatch folder box found).mails
    unfolding handle_all handle
    handle_all-Keeps folder box [] others h = h
    handle_all-Keeps folder box (m ∷ ms) others h =
        let turn = dispatch box.world m (not (attempts_of m.uid box.attempts == 0)) in
        handle_all-Keeps folder (handle server dispatch folder box m) ms others.1 (
          concluded-Keeps folder m (record box { world = turn.0 })
            (is_failure server dispatch turn.1) others.0 h)

    polled-Keeps :
        (folder : Codes) (box : Inbox S) (result : List Mail × Option (List Mail))
        → IsKept result
        → Keeps (polled server dispatch folder box result).mails
    polled-Keeps folder box (mails, none) h = h.0
    polled-Keeps folder box (mails, some found) h =
        handle_all-Keeps folder (record box { mails = mails }) found h.1 h.0

-- A message of the INBOX whose subject does not have the tag is as it was after a poll, whatever
-- the search of the server returns and however the turns of other messages end.
pub poll_once-plain {ℓ} :
    {S : Type ℓ} (server : Server) (dispatch : S → Mail → Bool → S × Option DispatchOutcome)
    (tag folder : Codes) (box : Inbox S) (u : ℕ) (letter : Mail)
    → subject_has_tag server letter.subject tag ≡ false
    → first (is_uid u) box.mails ≡ some letter
    → first (is_uid u) (poll_once server dispatch tag folder box).mails ≡ some letter
unfolding poll_once
poll_once-plain server dispatch tag folder box u letter plain h =
    polled-Keeps server tag u letter plain dispatch folder box
      (fetch_tagged_unseen server tag folder box.mails)
      (fetch-IsKept server tag u letter plain folder box.mails h)
