-- ===== src/Channels/Email/Attempts.antt =====
-- app/channels/email.py: how often a message is tried.
use channel_agent.Prelude.{
  ℕ, ◌≡◌, refl, ap, ◌∙◌, ◌+◌, ◌<◌, not, Bool, true, false, Option, none, some, List, [], ◌∷◌, first,
  delete, ◌==◌, ==-refl, ltb, ◌++◌, ◌&&◌, if◌then◌else◌, update, Codes, codes, is_nil, strip_codes,
  All, if_both, arith,
}
use channel_agent.Channels.Dispatch.{DispatchOutcome}
use channel_agent.Channels.Email.{
  Mail, Server, stored, is_uid, filed, marked, can_move, folder_is_usable, mark_seen_and_file,
  finalize_message, Attempts, same_uid, attempts_of, pop_attempts, set_attempts, max_attempts,
  Inbox, is_failure, failed_folder, concluded, handle, handle_all, polled, poll_once,
  fetch_tagged_unseen,
}

attempts_of-set_attempts : (uid n : ℕ) (a : Attempts) → attempts_of uid (set_attempts uid n a) ≡ n
unfolding attempts_of set_attempts first
attempts_of-set_attempts uid n a = ground (arith, ==-refl uid)

attempts_of-pop_attempts : (uid : ℕ) (a : Attempts) → attempts_of uid (pop_attempts uid a) ≡ 0
unfolding attempts_of pop_attempts first delete
attempts_of-pop_attempts uid [] = refl
attempts_of-pop_attempts uid (e ∷ a) = ground (arith, attempts_of-pop_attempts uid a)

is_nil-append : (s : Codes) (c : ℕ) (t : Codes) → is_nil (s ++ c ∷ t) ≡ false
is_nil-append [] c t = refl
is_nil-append (d ∷ s) c t = refl

-- No message has been tried as often as it may be.
abbrev pub AreUnderLimit : Attempts → Type 0
AreUnderLimit a = All (λ (e : ℕ × ℕ). e.1 < max_attempts) a

delete-AreUnderLimit :
    (p : ℕ × ℕ → Bool) (a : Attempts) → AreUnderLimit a → AreUnderLimit (delete p a)
unfolding delete
delete-AreUnderLimit p [] h = _
delete-AreUnderLimit p (e ∷ a) h =
    if_both AreUnderLimit (p e) (λ gone. delete-AreUnderLimit p a h.1)
      (λ stays. (h.0, delete-AreUnderLimit p a h.1))

module _ {ℓ} {S : Type ℓ} (server : Server)
    (dispatch : S → Mail → Bool → S × Option DispatchOutcome) (folder : Codes) where
  concluded-AreUnderLimit :
      (m : Mail) (box : Inbox S) (failure : Bool)
      → AreUnderLimit box.attempts
      → AreUnderLimit (concluded server dispatch folder m box failure).attempts
  unfolding pop_attempts set_attempts
  concluded-AreUnderLimit m box false h = delete-AreUnderLimit (same_uid m.uid) box.attempts h
  concluded-AreUnderLimit m box true h =
      if_both (λ (b : Inbox S). AreUnderLimit b.attempts)
        (ltb (attempts_of m.uid box.attempts + 1) max_attempts)
        (λ again. (ground (arith, again), delete-AreUnderLimit (same_uid m.uid) box.attempts h))
        (λ last. delete-AreUnderLimit (same_uid m.uid) box.attempts h)

  handle_all-AreUnderLimit :
      (box : Inbox S) (found : List Mail)
      → AreUnderLimit box.attempts
      → AreUnderLimit (handle_all server dispatch folder box found).attempts
  unfolding handle_all handle
  handle_all-AreUnderLimit box [] h = h
  handle_all-AreUnderLimit box (m ∷ ms) h =
      let turn = dispatch box.world m (not (attempts_of m.uid box.attempts == 0)) in
      handle_all-AreUnderLimit (handle server dispatch folder box m) ms (
        concluded-AreUnderLimit m (record box { world = turn.0 })
          (is_failure server dispatch turn.1) h)

  polled-AreUnderLimit :
      (box : Inbox S) (result : List Mail × Option (List Mail))
      → AreUnderLimit box.attempts
      → AreUnderLimit (polled server dispatch folder box result).attempts
  polled-AreUnderLimit box (mails, none) h = h
  polled-AreUnderLimit box (mails, some found) h =
      handle_all-AreUnderLimit (record box { mails = mails }) found h

  poll_once-AreUnderLimit :
      (tag : Codes) (box : Inbox S)
      → AreUnderLimit box.attempts
      → AreUnderLimit (poll_once server dispatch tag folder box).attempts
  unfolding poll_once
  poll_once-AreUnderLimit tag box h =
      polled-AreUnderLimit box (fetch_tagged_unseen server tag folder box.mails) h

  concluded-again :
      (m : Mail) (box : Inbox S)
      → attempts_of m.uid box.attempts + 1 < max_attempts
      → (let after = concluded server dispatch folder m box true in
          (after.mails ≡ box.mails)
          × (attempts_of m.uid after.attempts ≡ attempts_of m.uid box.attempts + 1))
  concluded-again m box h =
      let again : ltb (attempts_of m.uid box.attempts + 1) max_attempts ≡ true =
        ground (arith, h) in
      rw again
        (refl, attempts_of-set_attempts m.uid (attempts_of m.uid box.attempts + 1) box.attempts)

  concluded-last :
      (m : Mail) (box : Inbox S)
      → attempts_of m.uid box.attempts ≡ 2
      → (let after = concluded server dispatch folder m box true in
          (after.mails ≡ finalize_message server m.uid (failed_folder folder) box.mails)
          × (attempts_of m.uid after.attempts ≡ 0))
  concluded-last m box h =
      let last : ltb (attempts_of m.uid box.attempts + 1) max_attempts ≡ false =
        ground (arith, h) in
      rw last (refl, attempts_of-pop_attempts m.uid box.attempts)

  -- What the last attempt does to the mailbox.
  finalize_message-failed :
      (uid : ℕ) (mails : List Mail)
      → server.opens ≡ true
      → server.stores uid ≡ stored
      → is_nil folder ≡ false
      → strip_codes folder ≡ folder
      → strip_codes (folder ++ codes ".Failed") ≡ folder ++ codes ".Failed"
      → folder_is_usable (folder ++ codes ".Failed") ≡ true
      → finalize_message server uid (failed_folder folder) mails ≡ (
          if server.has_folder (folder ++ codes ".Failed") && can_move server uid
          then update (is_uid uid) (filed true (folder ++ codes ".Failed")) mails
          else update (is_uid uid) (marked true) mails)
  unfolding finalize_message failed_folder mark_seen_and_file
  finalize_message-failed uid mails opens stores named clean clean_failed usable =
      let long : is_nil (folder ++ codes ".Failed") ≡ false = is_nil-append folder b'.' _ in
      rw (clean, named, opens, usable, clean_failed, stores, long) refl

  module _ (m : Mail)
      (fails : (s : S) (r : Bool) → is_failure server dispatch (dispatch s m r).1 ≡ true) where
    abbrev pub tried : Inbox S → Inbox S
    tried box = handle server dispatch folder box m

    -- A turn that fails leaves the message for another poll.
    handle-again :
        (box : Inbox S)
        → attempts_of m.uid box.attempts + 1 < max_attempts
        → ((tried box).mails ≡ box.mails)
          × (attempts_of m.uid (tried box).attempts ≡ attempts_of m.uid box.attempts + 1)
    unfolding handle
    handle-again box h =
        let retry = not (attempts_of m.uid box.attempts == 0) in
        rw (fails box.world retry)
          (concluded-again m (record box { world = (dispatch box.world m retry).0 }) h)

    handle-last :
        (box : Inbox S)
        → attempts_of m.uid box.attempts ≡ 2
        → ((tried box).mails ≡ finalize_message server m.uid (failed_folder folder) box.mails)
          × (attempts_of m.uid (tried box).attempts ≡ 0)
    unfolding handle
    handle-last box h =
        let retry = not (attempts_of m.uid box.attempts == 0) in
        rw (fails box.world retry)
          (concluded-last m (record box { world = (dispatch box.world m retry).0 }) h)

    -- A message that was not tried before and whose turns fail is left as it is after the first
    -- and the second turn. After the third its count is forgotten, and it is marked as seen and
    -- filed in the folder named like the configured one with ".Failed" behind it, if the server
    -- has that folder or makes it and can move there, and only marked if not. The name of the
    -- folder is not empty and usable, with no white space around it, the mailbox opens, and the
    -- STORE succeeds.
    pub handle-thrice :
        (box : Inbox S)
        → attempts_of m.uid box.attempts ≡ 0
        → server.opens ≡ true
        → server.stores m.uid ≡ stored
        → is_nil folder ≡ false
        → strip_codes folder ≡ folder
        → strip_codes (folder ++ codes ".Failed") ≡ folder ++ codes ".Failed"
        → folder_is_usable (folder ++ codes ".Failed") ≡ true
        → ((tried box).mails ≡ box.mails)
          × ((tried (tried box)).mails ≡ box.mails)
          × ((tried (tried (tried box))).mails ≡ (
              if server.has_folder (folder ++ codes ".Failed") && can_move server m.uid
              then update (is_uid m.uid) (filed true (folder ++ codes ".Failed")) box.mails
              else update (is_uid m.uid) (marked true) box.mails))
          × (attempts_of m.uid (tried (tried (tried box))).attempts ≡ 0)
    handle-thrice box h opens stores named clean clean_failed usable =
        let one = handle-again box (omega (arith, h)) in
        let two = handle-again (tried box) (omega (arith, h, one.1)) in
        let last = handle-last (tried (tried box)) (omega (arith, h, one.1, two.1)) in
        (
          one.0,
          two.0 ∙ one.0,
          last.0
              ∙ ap (finalize_message server m.uid (failed_folder folder)) (two.0 ∙ one.0)
              ∙ finalize_message-failed m.uid box.mails opens stores named clean clean_failed
                  usable,
          last.1,
        )
