-- ===== src/Exec.antt =====
-- Functions that change a state and may raise. What was written before a raise stays written (the
-- caller decides whether to roll back), so the state comes back beside the error too.
use channel_agent.Prelude.{ℕ, Bool, true, false, Option, none, some, List, [], ◌∷◌}

-- app/admin/service.py, the exception classes, and the two of app/admin/mcp.py; the messages are not modelled but for the numbers in
-- them. `multiple_rows` is SQLAlchemy's error of `scalar_one_or_none`, `missing_row` an attribute
-- read of a relationship that is `None`, `reply_failed` what a channel's `reply` raises.
pub data Error : Type 0 where
  user_not_found identity_not_found agent_not_found request_not_found : Error
  mcp_server_not_found mcp_server_name_taken : Error
  permission_not_held : Error
  identity_already_linked agent_name_taken request_already_resolved : Error
  user_has_history : (user agents logs : ℕ) → Error
  invalid_input value_error : Error
  multiple_rows missing_row reply_failed : Error

pub data Result {ℓ} (A : Type ℓ) : Type ℓ where
  ok : A → Result A
  err : Error → Result A

abbrev pub Exec : Type 0 → Type 0 → Type 0
Exec S A = S → Result A × S

abbrev pub continue : {S A B : Type 0} → Result A → (A → Exec S B) → Exec S B
continue (ok a) f s = f a s
continue (err e) f s = (err e, s)

infixl 5 ◌>>=◌ ◌>>◌
abbrev pub ◌>>=◌ : {S A B : Type 0} → Exec S A → (A → Exec S B) → Exec S B
◌>>=◌ m f s = let (r, s') = m s in continue r f s'

abbrev pub ◌>>◌ : {S A B : Type 0} → Exec S A → Exec S B → Exec S B
m >> k = m >>= λ _. k

module _ {S A : Type 0} where
  abbrev pub pure : A → Exec S A
  pure a s = (ok a, s)

  abbrev pub raise : Error → Exec S A
  raise e s = (err e, s)

  abbrev pub gets : (S → A) → Exec S A
  gets f s = (ok (f s), s)

  abbrev pub lift : Result A → Exec S A
  lift r s = (r, s)

  -- `if x is None: raise …`
  abbrev pub or_raise : Option A → Error → Exec S A
  or_raise none e = raise e
  or_raise (some a) e = pure a

abbrev pub modify : {S : Type 0} → (S → S) → Exec S (Unit {0})
modify f s = (ok tt, f s)

abbrev pub raise_if : {S : Type 0} → Bool → Error → Exec S (Unit {0})
raise_if true e s = (err e, s)
raise_if false e s = (ok tt, s)

-- `scalar_one_or_none`
abbrev pub one_or_none : {A : Type 0} → List A → Result (Option A)
one_or_none [] = ok none
one_or_none (a ∷ []) = ok (some a)
one_or_none (a ∷ b ∷ rest) = err multiple_rows
