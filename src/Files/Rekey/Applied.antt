-- ===== src/Files/Rekey/Applied.antt =====
-- app/admin/rekey.py: the updates of a plan rewrite each value that it looked at, and no other.
use channel_agent.Prelude.{
  ◌≡◌, refl, sym, ap, ◌∙◌, inl, inr, ◌==◌, String, ◌&&◌, ◌||◌, Bool, false, Option, none, some,
  List, [], ◌∷◌, ◌++◌, any, any-append, map, str_eq, str_eq_iff, str_eq_refl, Bool-cases, arith,
}
use channel_agent.Files.Rekey.{
  Fernet, Cell, Update, Kind, is_old, is_new, is_unreadable, classify, update_for, sealed, planned,
  plan_values, write, at_place, execute,
}

str_eq_sym : (a b : String) → str_eq a b ≡ str_eq b a
str_eq_sym a b = ground (arith, str_eq_iff a b, str_eq_iff b a)

-- The cell at the place of another.
abbrev pub same_place : {T : Type 0} → Cell T → Cell T → Bool
same_place c d = str_eq c.column d.column && c.key == d.key

-- A key names one row of a column.
abbrev pub HasDistinctPlaces : {T : Type 0} → List (Cell T) → Type 0
HasDistinctPlaces [] = Unit {0}
HasDistinctPlaces (c ∷ cs) = (any (same_place c) cs ≡ false) × HasDistinctPlaces cs

module _ {T : Type 0} where
  apply_to : List (Update T) → Cell T → Cell T
  apply_to [] c = c
  apply_to (u ∷ us) c = apply_to us (write u c)

  map_lem :
      (us : List (Update T)) (u : Update T) (cells : List (Cell T))
      → map (apply_to us) (map (write u) cells) ≡ map (apply_to (u ∷ us)) cells
  unfolding apply_to
  map_lem us u [] = refl
  map_lem us u (c ∷ cs) = ap (λ r. apply_to us (write u c) ∷ r) (map_lem us u cs)

  execute-map :
      (us : List (Update T)) (cells : List (Cell T)) → execute us cells ≡ map (apply_to us) cells
  unfolding execute apply_to
  execute-map [] [] = refl
  execute-map [] (c ∷ cs) = ap (λ r. c ∷ r) (execute-map [] cs)
  execute-map (u ∷ us) cells = execute-map us (map (write u) cells) ∙ map_lem us u cells

  -- Updates at other places leave a cell alone.
  apply_to-other :
      (us : List (Update T)) (c : Cell T) → any (at_place c) us ≡ false → apply_to us c ≡ c
  unfolding apply_to
  apply_to-other [] c h = refl
  apply_to-other (u ∷ us) c h = elim (Bool-cases (at_place c u)) [
    | inl here ↦ ground (arith, h, here)
    | inr other ↦ rw other (apply_to-other us c (ground (arith, h, other)))
  ]

  apply_to-append :
      (us vs : List (Update T)) (c : Cell T) → apply_to (us ++ vs) c ≡ apply_to vs (apply_to us c)
  unfolding apply_to
  apply_to-append [] vs c = refl
  apply_to-append (u ∷ us) vs c = apply_to-append us vs (write u c)

  -- The place of a cell is what a write leaves.
  any_place-value :
      (us : List (Update T)) (c : Cell T) (v : Option T)
      → any (at_place (record c { value = v })) us ≡ any (at_place c) us
  any_place-value [] c v = refl
  any_place-value (u ∷ us) c v = ap (λ b. at_place c u || b) (any_place-value us c v)

module _ {T P : Type 0} (old new : Fernet T P) where
  abbrev pub rekeyed_as : Cell T → Kind T → Cell T
  rekeyed_as c (is_old t) = record c { value = some t }
  rekeyed_as c is_new = c
  rekeyed_as c is_unreadable = c

  abbrev pub rekeyed_value : Cell T → Option T → Cell T
  rekeyed_value c none = c
  rekeyed_value c (some t) = rekeyed_as c (classify old new t)

  -- A value that the old key reads is sealed again with the new one; any other stays.
  unfoldable pub rekeyed : Cell T → Cell T
  unfolding classify
  rekeyed c = rekeyed_value c (sealed old new c)

  abbrev updates_of : Cell T → List (Update T)
  updates_of c = (planned old new c (sealed old new c)).1

  update_for-other :
      (c d : Cell T) (k : Kind T)
      → same_place c d ≡ false
      → any (at_place d) (update_for old new c k) ≡ false
  update_for-other c d (is_old t) h = ground (arith, h, str_eq_sym c.column d.column)
  update_for-other c d is_new h = refl
  update_for-other c d is_unreadable h = refl

  planned-other :
      (c d : Cell T) (v : Option T)
      → same_place c d ≡ false
      → any (at_place d) (planned old new c v).1 ≡ false
  planned-other c d none h = refl
  planned-other c d (some t) h = update_for-other c d (classify old new t) h

  updates_of-other :
      (c d : Cell T) → same_place c d ≡ false → any (at_place d) (updates_of c) ≡ false
  updates_of-other c d h = planned-other c d (sealed old new c) h

  plan_values-other :
      (c : Cell T) (cs : List (Cell T))
      → any (same_place c) cs ≡ false
      → any (at_place c) (plan_values old new cs).1 ≡ false
  unfolding plan_values
  plan_values-other c [] h = refl
  plan_values-other c (d ∷ ds) h =
      let apart : same_place d c ≡ false = ground (arith, h, str_eq_sym c.column d.column) in
      any-append (at_place c) (updates_of d) (plan_values old new ds).1
      ∙ ground (arith, updates_of-other d c apart, plan_values-other c ds (ground (arith, h)))

  apply_to-kind : (c : Cell T) (k : Kind T) → apply_to (update_for old new c k) c ≡ rekeyed_as c k
  unfolding apply_to
  apply_to-kind c (is_old t) = ground (arith, str_eq_refl c.column)
  apply_to-kind c is_new = refl
  apply_to-kind c is_unreadable = refl

  apply_to-value :
      (c : Cell T) (v : Option T) → apply_to (planned old new c v).1 c ≡ rekeyed_value c v
  unfolding apply_to
  apply_to-value c none = refl
  apply_to-value c (some t) = apply_to-kind c (classify old new t)

  apply_to-own : (c : Cell T) → apply_to (updates_of c) c ≡ rekeyed c
  unfolding rekeyed
  apply_to-own c = apply_to-value c (sealed old new c)

  rekeyed-other :
      (c : Cell T) (k : Kind T) (us : List (Update T))
      → any (at_place c) us ≡ false
      → apply_to us (rekeyed_as c k) ≡ rekeyed_as c k
  rekeyed-other c (is_old t) us h =
      apply_to-other us (rekeyed_as c (is_old t)) (any_place-value us c (some t) ∙ h)
  rekeyed-other c is_new us h = apply_to-other us c h
  rekeyed-other c is_unreadable us h = apply_to-other us c h

  rekeyed_value-other :
      (c : Cell T) (v : Option T) (us : List (Update T))
      → any (at_place c) us ≡ false
      → apply_to us (rekeyed_value c v) ≡ rekeyed_value c v
  rekeyed_value-other c none us h = apply_to-other us c h
  rekeyed_value-other c (some t) us h = rekeyed-other c (classify old new t) us h

  map-other :
      (c : Cell T) (cs : List (Cell T)) (us : List (Update T))
      → any (same_place c) cs ≡ false
      → map (apply_to (updates_of c ++ us)) cs ≡ map (apply_to us) cs
  map-other c [] us h = refl
  map-other c (d ∷ ds) us h =
      let apart : same_place c d ≡ false = ground (arith, h) in
      let here =
        apply_to-append (updates_of c) us d
        ∙ ap (apply_to us) (apply_to-other (updates_of c) d (updates_of-other c d apart)) in
      ground (arith, here, map-other c ds us (ground (arith, h)))

  pub execute-plan_values :
      (cells : List (Cell T))
      → HasDistinctPlaces cells
      → execute (plan_values old new cells).1 cells ≡ map rekeyed cells
  unfolding plan_values execute rekeyed
  execute-plan_values [] h = refl
  execute-plan_values (c ∷ cs) h =
      let us = (plan_values old new cs).1 in
      let own =
        apply_to-append (updates_of c) us c
        ∙ ap (apply_to us) (apply_to-own c)
        ∙ rekeyed_value-other c (sealed old new c) us (plan_values-other c cs h.0) in
      let rest = map-other c cs us h.0 ∙ sym (execute-map us cs) ∙ execute-plan_values cs h.1 in
      execute-map (updates_of c ++ us) (c ∷ cs)
      ∙ ap (λ r. r ∷ map (apply_to (updates_of c ++ us)) cs) own
      ∙ ap (λ r. rekeyed c ∷ r) rest
