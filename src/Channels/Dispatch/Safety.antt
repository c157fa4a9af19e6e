-- ===== src/Channels/Dispatch/Safety.antt =====
-- app/channels/dispatch.py: for whom the model is called.
pub mod Switching
use channel_agent.Prelude.{
  ℕ, String, ◌≡◌, ◌≢◌, refl, ◌∙◌, Bool, true, false, Option, none, some, List, [], ◌∷◌, ◌++◌, arith,
  ◌+◌, if◌then◌else◌, Bool-cases, inl, inr,
}
use channel_agent.Env.{Env}
use channel_agent.Exec.{Exec, Error, Result, ok, err, pure, raise, gets, continue, ◌>>=◌}
use channel_agent.Model.{Database, User, ChannelIdentity}
use channel_agent.Auth.{AuthDecision, authorize, channel_identifier_key}
use channel_agent.Auth.Decision.{IsAuthorized, authorize-IsAuthorized}
use channel_agent.Channels.World.{
  World, NormalizedEvent, Notice, Senders, Effect, turn, replied, notified, on_database, commit,
  try_reply, reply, notify_one, notify_all, notify_admins,
}
use channel_agent.Channels.Dispatch.{
  Turn, when, record_denied, deny, refuse_disabled, dispatch_event,
}

-- How often the model was asked to answer.
abbrev is_turn : Effect → ℕ
is_turn (turn _ _ _) = 1
is_turn (replied _ _ _ _) = 0
is_turn (notified _ _ _ _) = 0

unfoldable pub turns : List Effect → ℕ
turns [] = 0
turns (e ∷ es) = is_turn e + turns es

pub turns-append : (es : List Effect) (e : Effect) → turns (es ++ e ∷ []) ≡ turns es + is_turn e
unfolding turns
turns-append [] e = omega arith
turns-append (x ∷ es) e = omega (arith, turns-append es e)

-- Actions that do not ask the model.
pub record IsQuiet {A : Type 0} (m : Exec World A) : Type 0 where
  pub at : (w : World) → turns (m w).1.effects ≡ turns w.effects

module _ {A : Type 0} where
  IsQuiet-pure : (a : A) → IsQuiet (pure a)
  IsQuiet-pure a = record { at = λ w. refl }

  IsQuiet-raise : (e : Error) → IsQuiet (raise {A = A} e)
  IsQuiet-raise e = record { at = λ w. refl }

  IsQuiet-gets : (f : World → A) → IsQuiet (gets f)
  IsQuiet-gets f = record { at = λ w. refl }

  IsQuiet-on_database : (m : Exec Database A) → IsQuiet (on_database m)
  IsQuiet-on_database m = record { at = λ w. refl }

  quiet_continue :
      {B : Type 0} (r : Result B) (f : B → Exec World A) (w : World)
      → ((b : B) → IsQuiet (f b))
      → turns (continue r f w).1.effects ≡ turns w.effects
  quiet_continue (ok b) f w hf = (hf b).at w
  quiet_continue (err e) f w hf = refl

  IsQuiet-bind :
      {B : Type 0} (m : Exec World B) (f : B → Exec World A)
      → IsQuiet m
      → ((b : B) → IsQuiet (f b))
      → IsQuiet (m >>= f)
  IsQuiet-bind m f hm hf = record {
    at = λ w. let (r, w') = m w in quiet_continue r f w' hf ∙ hm.at w;
  }

  IsQuiet-if :
      (b : Bool) (m n : Exec World A) → IsQuiet m → IsQuiet n → IsQuiet (if b then m else n)
  IsQuiet-if true m n h k = h
  IsQuiet-if false m n h k = k

IsQuiet-commit : IsQuiet commit
IsQuiet-commit = record { at = λ w. refl }

IsQuiet-reply : (event : NormalizedEvent) (text : String) → IsQuiet (reply event text)
unfolding turns
IsQuiet-reply event text = record {
  at = λ w. ground (
    arith,
    turns-append w.effects (replied event.channel event.user_id text (event.delivers text)),
  );
}

IsQuiet-try_reply : (event : NormalizedEvent) (text : String) → IsQuiet (try_reply event text)
unfolding turns
IsQuiet-try_reply event text = record {
  at = λ w. ground (
    arith,
    turns-append w.effects (replied event.channel event.user_id text (event.delivers text)),
  );
}

IsQuiet-notify_one :
    (sender : Option (String → Notice → Bool)) (i : ChannelIdentity) (n : Notice)
    → IsQuiet (notify_one sender i n)
IsQuiet-notify_one none i n = record { at = λ w. refl }
IsQuiet-notify_one (some sender) i n = record {
  at = λ w.
      ground (
        arith,
        turns-append w.effects (notified i.channel i.external_id n (sender i.external_id n)),
      );
}

ruleset quiet_rules = (
  IsQuiet-pure, IsQuiet-raise, IsQuiet-gets, IsQuiet-on_database, IsQuiet-if, IsQuiet-commit,
  IsQuiet-bind, IsQuiet-reply, IsQuiet-try_reply, IsQuiet-notify_one,
)

IsQuiet-notify_all :
    (s : Senders) (is : List ChannelIdentity) (n : Notice) → IsQuiet (notify_all s is n)
unfolding notify_all
IsQuiet-notify_all s [] n = search quiet_rules
IsQuiet-notify_all s (i ∷ is) n =
    IsQuiet-bind _ _ (IsQuiet-notify_one (s i.channel) i n)
      (λ one. IsQuiet-bind _ _ (IsQuiet-notify_all s is n) (λ others. IsQuiet-pure (one + others)))

IsQuiet-notify_admins : (s : Senders) (n : Notice) → IsQuiet (notify_admins s n)
unfolding notify_admins
IsQuiet-notify_admins s n = search (quiet_rules, IsQuiet-notify_all)

IsQuiet-when : (b : Bool) (m : Exec World (Unit {0})) → IsQuiet m → IsQuiet (when b m)
IsQuiet-when true m h = h
IsQuiet-when false m h = search quiet_rules

module _ ⦃env : Env⦄ where
  IsQuiet-record_denied :
      (event : NormalizedEvent) (user : Option User) → IsQuiet (record_denied event user)
  IsQuiet-record_denied event none = search quiet_rules
  IsQuiet-record_denied event (some user) = search quiet_rules

  IsQuiet-deny :
      (s : Senders) (event : NormalizedEvent) (d : AuthDecision) → IsQuiet (deny s event d)
  unfolding deny
  IsQuiet-deny s event d =
      search (quiet_rules, IsQuiet-when, IsQuiet-record_denied, IsQuiet-notify_admins) depth 9

  IsQuiet-refuse_disabled :
      (event : NormalizedEvent) (user_id agent_id : ℕ)
      → IsQuiet (refuse_disabled event user_id agent_id)
  unfolding refuse_disabled
  IsQuiet-refuse_disabled event user_id agent_id = search quiet_rules depth 9

  decided :
      (rt : Turn) (s : Senders) (event : NormalizedEvent) (apologize retry : Bool) (w : World)
      (m : Result AuthDecision × Database)
      → authorize event.channel event.user_id w.work ≡ m
      → turns (dispatch_event rt s event apologize retry w).1.effects ≢ turns w.effects
      → IsAuthorized w.work event.channel (channel_identifier_key event.channel event.user_id)
  unfolding dispatch_event
  decided rt s event apologize retry w (err e, db) h asked = absurd (asked (rw h refl))
  decided rt s event apologize retry w (ok d, db) h asked = elim (Bool-cases d.allowed) [
    | inl allowed ↦ (authorize-IsAuthorized event.channel event.user_id w.work d db h).1.0 allowed
    | inr refused ↦
        absurd (asked (simp (h, refused) ((IsQuiet-deny s event d).at (record w { work = db }))))
  ]

  -- The model is asked to answer only for an authorized sender: if a dispatch adds a turn, the
  -- sender's key has one identity, of an active user, that holds CHAT or ADMIN.
  pub dispatch_event-IsAuthorized :
      (rt : Turn) (s : Senders) (event : NormalizedEvent) (apologize retry : Bool) (w : World)
      → turns (dispatch_event rt s event apologize retry w).1.effects ≢ turns w.effects
      → IsAuthorized w.work event.channel (channel_identifier_key event.channel event.user_id)
  dispatch_event-IsAuthorized rt s event apologize retry w asked =
      decided rt s event apologize retry w _ refl asked
