-- ===== src/Files/Rekey/Readable.antt =====
-- app/admin/rekey.py: what the keys read before and after a rotation.
use channel_agent.Prelude.{
  ℕ, ◌≡◌, refl, ap, ◌∙◌, ◌+◌, String, Bool, true, Option, none, some, List, [], ◌∷◌, map,
  if◌then◌else◌, arith,
}
use channel_agent.Files.Rekey.{
  Fernet, Cell, classify, sealed, planned, kind_of, plan_values, Report, added, tallied,
}
use channel_agent.Files.Rekey.Applied.{rekeyed, rekeyed_as, rekeyed_value}

-- What is documented of Fernet: a key reads what it sealed, and no other key does.
abbrev pub AreDistinctKeys : {T P : Type 0} → Fernet T P → Fernet T P → Type 0
AreDistinctKeys {P = P} old new =
    ((plain : P) → new.decrypt (new.encrypt plain) ≡ some plain)
    × ((plain : P) → old.decrypt (new.encrypt plain) ≡ none)

-- A value as the holder of both keys reads it.
pub record Content (T P : Type 0) : Type 0 where
  pub column : String
  pub key : ℕ
  pub encrypted : Bool
  pub readable : Option P
  pub plain : Option T

abbrev pub moved : Report → Report
moved r = record { old = 0; new = r.old + r.new; unreadable = r.unreadable }

pub moved-added : (a b : Report) → added (moved a) (moved b) ≡ moved (added a b)
moved-added a b = ground arith

module _ {T P : Type 0} (old new : Fernet T P) where
  abbrev either : Option P → Option P → Option P
  either (some plain) other = some plain
  either none other = other

  abbrev reading : Option T → Option P
  reading none = none
  reading (some t) = either (old.decrypt t) (new.decrypt t)

  unfoldable pub content : Cell T → Content T P
  content c = record {
    column = c.column;
    key = c.key;
    encrypted = c.encrypted;
    readable = reading (sealed old new c);
    plain = if c.encrypted then none else c.value;
  }

  module _ (keys : AreDistinctKeys old new) where
    content-as :
        (c : Cell T) (t : T) (a b : Option P)
        → c.encrypted ≡ true
        → c.value ≡ some t
        → old.decrypt t ≡ a
        → new.decrypt t ≡ b
        → content (rekeyed_as old new c (kind_of old new a b)) ≡ content c
    unfolding content
    content-as c t (some p) b enc val ha hb = rw (enc, val, ha, keys.0 p, keys.1 p) refl
    content-as c t none (some p) enc val ha hb = refl
    content-as c t none none enc val ha hb = refl

    tallied-as :
        (c : Cell T) (t : T) (a b : Option P)
        → c.encrypted ≡ true
        → c.value ≡ some t
        → old.decrypt t ≡ a
        → new.decrypt t ≡ b
        → (let d = rekeyed_as old new c (kind_of old new a b) in
            (planned old new d (sealed old new d)).0
            ≡ moved (tallied old new (kind_of old new a b)))
    unfolding classify
    tallied-as c t (some p) b enc val ha hb = rw (enc, keys.0 p, keys.1 p) refl
    tallied-as c t none (some p) enc val ha hb = rw (enc, val, ha, hb) refl
    tallied-as c t none none enc val ha hb = rw (enc, val, ha, hb) refl

    content-value :
        (c : Cell T) (v : Option T)
        → sealed old new c ≡ v
        → content (rekeyed_value old new c v) ≡ content c
    unfolding classify
    content-value c none h = refl
    content-value c (some t) h =
        content-as c t (old.decrypt t) (new.decrypt t) (ground (arith, h)) (ground (arith, h)) refl
          refl

    content-rekeyed : (c : Cell T) → content (rekeyed old new c) ≡ content c
    unfolding rekeyed
    content-rekeyed c = content-value c (sealed old new c) refl

    planned-value :
        (c : Cell T) (v : Option T)
        → sealed old new c ≡ v
        → (let d = rekeyed_value old new c v in
            (planned old new d (sealed old new d)).0 ≡ moved (planned old new c v).0)
    unfolding classify
    planned-value c none h = rw h refl
    planned-value c (some t) h =
        tallied-as c t (old.decrypt t) (new.decrypt t) (ground (arith, h)) (ground (arith, h)) refl
          refl

    pub contents-rekeyed :
        (cells : List (Cell T)) → map content (map (rekeyed old new) cells) ≡ map content cells
    contents-rekeyed [] = refl
    contents-rekeyed (c ∷ cs) = cc (content-rekeyed c, contents-rekeyed cs)

    pub plan_values-rekeyed :
        (cells : List (Cell T))
        → (plan_values old new (map (rekeyed old new) cells)).0
          ≡ moved (plan_values old new cells).0
    unfolding plan_values rekeyed
    plan_values-rekeyed [] = refl
    plan_values-rekeyed (c ∷ cs) =
        let here = planned-value c (sealed old new c) refl in
        ap (λ r. added r (plan_values old new (map (rekeyed old new) cs)).0) here
        ∙ ap (λ r. added (moved (planned old new c (sealed old new c)).0) r)
            (plan_values-rekeyed cs)
        ∙ moved-added (planned old new c (sealed old new c)).0 (plan_values old new cs).0
