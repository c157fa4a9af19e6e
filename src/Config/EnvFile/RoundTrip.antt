-- ===== src/Config/EnvFile/RoundTrip.antt =====
-- app/settings_rules.py: what one line of .env assigns, and what a new line changes.
use mathlib.Core.Path.{subst}
use channel_agent.Prelude.{
  append_assoc, ℕ, String, ◌≡◌, refl, ap, ◌∙◌, inl, inr, ◌&&◌, ◌||◌, not, Bool, true, false, none,
  some, List, [], ◌∷◌, ◌++◌, any, all, ltb, ◌==◌, Codes, codes, is_nil, starts_with, Bool-cases,
  arith, is_alnum, is_white, partition-append, same_codes, eq_of_same_codes, rstrip_codes,
  lstrip_codes, strip_codes, rstrip-append_newline, rstrip-append, rstrip_solid,
}
use channel_agent.Config.Rules.{Kind, rule_of, unrepresentable}
use channel_agent.Config.EnvFile.{
  assignment, is_safe, unquoted, without_last, format_value, start_of,
}

-- The characters of a name.
abbrev pub is_name_character : ℕ → Bool
is_name_character c = is_alnum c || c == b'_'

abbrev pub IsName : Codes → Type 0
IsName key = (is_nil key ≡ false) × (all is_name_character key ≡ true)

abbrev pub HasNames : List (String × Kind) → Type 0
HasNames [] = Unit {0}
HasNames ((name, kind) ∷ rest) = IsName (codes name) × HasNames rest

pub IsName-rule :
    (key : Codes) (rs : List (String × Kind)) (kind : Kind)
    → HasNames rs
    → rule_of key rs ≡ some kind
    → IsName key
unfolding rule_of
IsName-rule key [] kind n h = cc
IsName-rule key ((name, k) ∷ rest) kind n h = elim (Bool-cases (same_codes (codes name) key)) [
  | inl same ↦ subst IsName (eq_of_same_codes (codes name) key same) n.0
  | inr other ↦ IsName-rule key rest kind n.1 (ground (arith, h, other))
]

character_not_white : (c : ℕ) → is_name_character c ≡ true → is_white c ≡ false
unfolding is_white
character_not_white c h = ground arith

rstrip-assigned : (key t : Codes) → rstrip_codes (key ++ b'=' ∷ t) ≡ key ++ b'=' ∷ rstrip_codes t
unfolding rstrip_codes
rstrip-assigned [] t =
    unfold is_white in
    elim (Bool-cases (is_nil (rstrip_codes t))) [ inl h ↦ rw h refl | inr h ↦ rw h refl ]
rstrip-assigned (c ∷ []) t = rw (rstrip-assigned [] t) refl
rstrip-assigned (c ∷ d ∷ s) t = rw (rstrip-assigned (d ∷ s) t) refl

lstrip-name : (c : ℕ) (s : Codes) → is_name_character c ≡ true → lstrip_codes (c ∷ s) ≡ c ∷ s
unfolding lstrip_codes
lstrip-name c s h = rw (character_not_white c h) refl

name_no_equals : (key : Codes) → all is_name_character key ≡ true → any (λ c. c == b'=') key ≡ false
name_no_equals [] h = refl
name_no_equals (c ∷ s) h = ground (arith, name_no_equals s)

strip-assigned :
    (key t : Codes) → IsName key → strip_codes (key ++ b'=' ∷ t) ≡ key ++ b'=' ∷ rstrip_codes t
strip-assigned [] t n = cc
strip-assigned (c ∷ s) t n =
    ap rstrip_codes (lstrip-name c (s ++ b'=' ∷ t) (ground arith)) ∙ rstrip-assigned (c ∷ s) t

-- A line that begins with a name and "=" assigns it the rest.
pub assignment-start :
    (key t : Codes)
    → IsName key
    → assignment (key ++ b'=' ∷ t) ≡ some (key, unquoted (rstrip_codes t))
unfolding assignment starts_with
assignment-start [] t n = cc
assignment-start (c ∷ s) t n =
    rw
      (
        strip-assigned (c ∷ s) t n,
        partition-append b'=' (c ∷ s) (rstrip_codes t) (name_no_equals (c ∷ s) n.1),
      )
      (ground arith)

-- What a value may be to be written.
abbrev pub is_writable : ℕ → Bool
is_writable c = not (ltb c 32 || c == 127) && not (c == b'\'' || c == b'\\')

pub writable : (v : Codes) → unrepresentable v ≡ none → all is_writable v ≡ true
unfolding unrepresentable
writable v h = all-both v (ground arith) (ground arith)
  where
    all-both :
        (v : Codes)
        → any (λ c. ltb c 32 || c == 127) v ≡ false
        → any (λ c. c == b'\'' || c == b'\\') v ≡ false
        → all is_writable v ≡ true
    all-both [] g h = refl
    all-both (c ∷ s) g h = ground (arith, all-both s)

without_last-append : (c : ℕ) (s : Codes) → without_last c (s ++ c ∷ []) ≡ some s
unfolding without_last
without_last-append c [] = ground arith
without_last-append c (d ∷ []) = ground (arith, without_last-append c [])
without_last-append c (d ∷ e ∷ s) = rw (without_last-append c (e ∷ s)) refl

abbrev is_bare : ℕ → Bool
is_bare c = not (is_white c) && not (c == b'\'' || c == b'"')

safe_solid : (c : ℕ) → is_safe c ≡ true → is_white c ≡ false
unfolding is_white
safe_solid c h = ground arith

-- Where each character that has `p` lacks `q`, a text of characters with `p` has none with `q`.
pub none_of_all :
    (p q : ℕ → Bool)
    → ((c : ℕ) → p c ≡ true → q c ≡ false)
    → (v : Codes) → all p v ≡ true
    → any q v ≡ false
none_of_all p q h [] k = refl
none_of_all p q h (c ∷ s) k = ground (arith, none_of_all p q h s, h c)

rstrip-format : (v : Codes) → rstrip_codes (format_value v) ≡ format_value v
unfolding format_value
rstrip-format v = elim (Bool-cases (all is_safe v)) [
  | inl safe ↦ rw safe (rstrip_solid v (none_of_all is_safe is_white safe_solid v safe))
  | inr other ↦
      rw other (rstrip-append (b'\'' ∷ v) (b'\'' ∷ []) refl (unfold rstrip_codes is_white in refl))
]

unquoted-format : (v : Codes) → unquoted (format_value v) ≡ v
unfolding format_value unquoted
unquoted-format [] = refl
unquoted-format (c ∷ s) = elim (Bool-cases (all is_safe (c ∷ s))) [
  | inl safe ↦ rw safe (ground arith)
  | inr other ↦ rw (other, without_last-append b'\'' (c ∷ s)) refl
]

-- The line of a value is read as the value.
pub assignment-new :
    (key v : Codes)
    → IsName key
    → assignment (start_of key ++ format_value v ++ 10 ∷ []) ≡ some (key, v)
assignment-new key v n =
    ap assignment (
      append_assoc (start_of key) (format_value v) (10 ∷ [])
      ∙ append_assoc key (b'=' ∷ []) (format_value v ++ 10 ∷ []))
    ∙ assignment-start key (format_value v ++ 10 ∷ []) n
    ∙ ap (λ t. some (key, unquoted t)) (rstrip-append_newline (format_value v) ∙ rstrip-format v)
    ∙ ap (λ t. some (key, t)) (unquoted-format v)
