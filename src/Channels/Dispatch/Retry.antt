-- ===== src/Channels/Dispatch/Retry.antt =====
-- app/channels/dispatch.py and app/admin/service.py: a message whose answer was kept but not
-- delivered is processed again without asking the model.
use mathlib.Core.List.{reverse, reverse-append}
use channel_agent.Prelude.{
  ℕ, String, ◌≡◌, ◌≢◌, ◌<◌, refl, ◌∙◌, Bool, true, false, none, some, List, [], ◌∷◌, ◌++◌, map,
  any_id-none, All, first, select, select-append, append-nil, first-append_none, update, arith,
  ==-refl, if◌then◌else◌, Bool-cases, inl, inr, str_eq_refl, str_eq_iff,
}
use channel_agent.Env.{Env, EnvLaws}
use channel_agent.Exec.{ok}
use channel_agent.Model.{Database, Channel, ActionLog, ActionStatus, inbound, outbound}
use channel_agent.Admin.Logs.{
  in_conversation, answers_after, says, shown, is_undelivered, find_undelivered_answer, has_log_id,
}
use channel_agent.Admin.Requests.Unique.{same_channel_refl}
use channel_agent.Channels.World.{World, NormalizedEvent, replied}
use channel_agent.Channels.Dispatch.{
  Turn, answered, undelivered, serve, redeliver, apology_message, no_reply_note,
}
use channel_agent.Channels.Dispatch.Outcomes.{
  log_id, update-append_last, inbound_entry, outbound_entry, world_after,
}

-- No entry that is older than `entry` answers it.
first-answers_after :
    (u a : ℕ) (c : Channel) (entry : ActionLog) (rows : List ActionLog)
    → All (λ i. i < entry.id) (map log_id rows)
    → first (answers_after u a c entry) rows ≡ none
unfolding first
first-answers_after u a c entry [] h = refl
first-answers_after u a c entry (e ∷ es) h =
    ground (arith, first-answers_after u a c entry es h.1, h.0)

All-last :
    (n : ℕ) (rows : List ActionLog) (e : ActionLog)
    → All (λ i. i < n) (map log_id (rows ++ e ∷ []))
    → e.id < n
All-last n [] e h = h.0
All-last n (x ∷ xs) e h = All-last n xs e h.1

module _ (u a : ℕ) (c : Channel) (text : String) (rows : List ActionLog)
    (entry out : ActionLog) where
  -- The newest two entries: a message with this text, and what answered it.
  pub record IsExchange : Type 0 where
    pub asks : in_conversation u a c inbound entry ≡ true
    pub answers : in_conversation u a c outbound out ≡ true
    pub older : All (λ i. i < entry.id) (map log_id rows)
    pub newer : entry.id < out.id
    pub said : says text entry ≡ true

  not_inbound :
      in_conversation u a c outbound out ≡ true → in_conversation u a c inbound out ≡ false
  not_inbound h = ground arith

  not_outbound :
      in_conversation u a c inbound entry ≡ true → in_conversation u a c outbound entry ≡ false
  not_outbound h = ground arith

  recent_inbound :
      IsExchange
      → reverse (select (in_conversation u a c inbound) ((rows ++ entry ∷ []) ++ out ∷ []))
        ≡ entry ∷ reverse (select (in_conversation u a c inbound) rows)
  unfolding select
  recent_inbound x =
      rw (select-append, select-append)
        (ground (
          arith,
          x.asks,
          not_inbound x.answers,
          append-nil (select (in_conversation u a c inbound) rows ++ entry ∷ []),
          reverse-append (select (in_conversation u a c inbound) rows) (entry ∷ []),
        ))

  first_answer :
      IsExchange → first (answers_after u a c entry) ((rows ++ entry ∷ []) ++ out ∷ []) ≡ some out
  unfolding first
  first_answer x =
      let past : first (answers_after u a c entry) (rows ++ entry ∷ []) ≡ none =
        first-append_none (answers_after u a c entry) rows (entry ∷ [])
          (first-answers_after u a c entry rows x.older)
        ∙ ground (arith, not_outbound x.asks) in
      first-append_none (answers_after u a c entry) (rows ++ entry ∷ []) (out ∷ []) past
      ∙ ground (arith, x.answers, x.newer)

  -- The search of `find_undelivered_answer` finds the answer of the newest exchange, if it was
  -- generated and not delivered.
  find_undelivered_answer-exchange :
      (not_answers : List String)
      → IsExchange
      → is_undelivered not_answers out ≡ true
      → find_undelivered_answer u a c text not_answers ((rows ++ entry ∷ []) ++ out ∷ []) ≡ some out
  unfolding find_undelivered_answer first
  find_undelivered_answer-exchange not_answers x d =
      rw (recent_inbound x) (ground (arith, x.said, first_answer x, d))

module _ ⦃env : Env⦄ (rt : Turn) (event : NormalizedEvent) (user_id agent_id : ℕ) (apologize : Bool)
    (w : World) (text : String) where
  -- The message was answered with `text`, which was not delivered: the world that `serve` leaves.
  pub record IsUndelivered : Type 0 where
    pub answer : rt event.channel event.user_id agent_id event.text false ≡ some text
    pub lost : event.delivers text ≡ false
    pub not_apology : text ≢ apology_message
    pub not_note : text ≢ no_reply_note

  abbrev asked : ActionLog
  asked = inbound_entry rt event user_id agent_id apologize w

  abbrev pub unsent : ActionLog
  unsent = outbound_entry rt event user_id agent_id apologize w

  exchanged :
      EnvLaws env
      → IsUndelivered
      → IsExchange user_id agent_id event.channel event.text w.work.logs asked unsent
  exchanged laws u = record {
    asks = ground (arith, same_channel_refl event.channel, ==-refl user_id, ==-refl agent_id);
    answers = ground (arith, same_channel_refl event.channel, ==-refl user_id, ==-refl agent_id);
    older = laws.new_id_grows _;
    newer = All-last unsent.id w.work.logs asked (laws.new_id_grows _);
    said = str_eq_refl event.text;
  }

  is_kept : IsUndelivered → is_undelivered (apology_message ∷ no_reply_note ∷ []) unsent ≡ true
  is_kept u = ground (
    arith,
    u.answer,
    u.lost,
    str_eq_iff text apology_message,
    str_eq_iff text no_reply_note,
    u.not_apology,
    u.not_note,
  )

  abbrev delivered_entry : ActionLog
  delivered_entry = record unsent { status = ActionStatus.ok }

  -- The database after the kept answer went through: its entry is "ok", and no entry is added.
  abbrev pub redelivered : Database
  redelivered = record w.work { logs = (w.work.logs ++ asked ∷ []) ++ delivered_entry ∷ [] }

  abbrev left : World
  left = world_after rt event user_id agent_id apologize w

  -- The world after one more delivery of `text`, with this result.
  abbrev pub retried : Bool → World
  retried true = record left {
    stored = redelivered;
    work = redelivered;
    effects = left.effects ++ replied event.channel event.user_id text true ∷ [];
  }
  retried false = record left {
    effects = left.effects ++ replied event.channel event.user_id text false ∷ [];
  }

  unsent_text : IsUndelivered → shown unsent.text ≡ text
  unsent_text u = ground (arith, u.answer)

  save_unsent :
      EnvLaws env
      → update (has_log_id unsent.id) (λ _. delivered_entry) left.work.logs ≡ redelivered.logs
  save_unsent laws =
      update-append_last (has_log_id unsent.id) (λ _. delivered_entry) (w.work.logs ++ asked ∷ [])
        unsent (any_id-none log_id unsent.id _ (laws.new_id_grows _)) (==-refl unsent.id)

  -- A message was answered but not delivered, and is processed again in the world that this left,
  -- with nothing in between; new ids are larger than those there are, and the answer is neither
  -- the apology nor the note for an empty reply. Then, whatever the model would say now, it is not
  -- asked. The kept text is sent once more, no entry is added, and the kept entry turns from
  -- "failed" to "ok" exactly if the delivery now goes through.
  pub serve-retry :
      EnvLaws env
      → IsUndelivered
      → (rt' : Turn) (delivers : String → Bool) (apologize' : Bool)
      → serve rt' (record event { delivers = delivers }) user_id agent_id apologize' true left
        ≡ (ok (if delivers text then answered else undelivered), retried (delivers text))
  unfolding serve redeliver
  serve-retry laws u rt' delivers apologize' =
      let found =
        find_undelivered_answer-exchange user_id agent_id event.channel event.text w.work.logs asked
          unsent (apology_message ∷ no_reply_note ∷ []) (exchanged laws u) (is_kept u) in
      rw found (elim (Bool-cases (delivers text)) [
        | inl sent ↦ ground (arith, unsent_text u, sent, save_unsent laws)
        | inr lost ↦ ground (arith, unsent_text u, lost)
      ])
