-- ===== src/Config/EnvFile/Update.antt =====
-- app/settings_rules.py: what `set_config` does to the values that are read.
use channel_agent.Prelude.{
  ℕ, ◌≡◌, refl, ap, ◌∙◌, inl, inr, Bool, true, false, Option, none, some, List, [], ◌∷◌, ◌++◌, any,
  leb, ◌+◌, if◌then◌else◌, Codes, starts_with, Bool-cases, arith, append_assoc, same_codes,
  same_codes_refl, rstrip_codes, strip-append_newline,
}
use channel_agent.Config.EnvFile.{
  assignment, format_value, replace_line, append_line, start_of, unquoted,
}
use channel_agent.Config.EnvFile.Dict.{value_if, last_value}
use channel_agent.Config.EnvFile.RoundTrip.{IsName, assignment-start, assignment-new}

abbrev pub is_some : Option Codes → Bool
is_some none = false
is_some (some v) = true

-- The number of lines that assign a name.
unfoldable pub assigning : Codes → List Codes → ℕ
assigning key [] = 0
assigning key (l ∷ ls) = (if is_some (value_if key (assignment l)) then 1 else 0) + assigning key ls

last_value-none : (key : Codes) (ls : List Codes) → assigning key ls ≡ 0 → last_value key ls ≡ none
unfolding last_value assigning
last_value-none key [] h = refl
last_value-none key (l ∷ ls) h = ground (arith, last_value-none key ls)

-- A text that begins with `s` is `s` and a rest.
rest_of : (s text : Codes) → starts_with s text ≡ true → (t : Codes) × (text ≡ s ++ t)
unfolding starts_with
rest_of [] text h = (text, refl)
rest_of (c ∷ s) [] h = cc
rest_of (c ∷ s) (d ∷ text) h =
    let r = rest_of s text (ground (arith, h)) in (r.0, ground (arith, h, r.1))

-- A line that begins with "name=" assigns the name a value.
start-assigns :
    (key l : Codes)
    → IsName key
    → starts_with (start_of key) l ≡ true
    → (v : Codes) × (assignment l ≡ some (key, v))
start-assigns key l n h =
    let r = rest_of (start_of key) l h in
    (
      unquoted (rstrip_codes r.0),
      ap assignment (r.1 ∙ append_assoc key (b'=' ∷ []) r.0) ∙ assignment-start key r.0 n,
    )

start-assigns_no_other :
    (key l name : Codes)
    → IsName key
    → starts_with (start_of key) l ≡ true
    → same_codes key name ≡ false
    → value_if name (assignment l) ≡ none
start-assigns_no_other key l name n h k =
    let r = start-assigns key l n h in ap (value_if name) r.1 ∙ ground (arith, k)

module _ (key value : Codes) (n : IsName key) where
  abbrev pub new_line : Codes
  new_line = start_of key ++ format_value value ++ 10 ∷ []

  value_if-new :
      (name : Codes)
      → value_if name (assignment new_line) ≡ (if same_codes key name then some value else none)
  value_if-new name = ap (value_if name) (assignment-new key value n)

  pub last_value-replace_other :
      (name : Codes) (ls : List Codes)
      → same_codes key name ≡ false
      → last_value name (replace_line (start_of key) new_line ls) ≡ last_value name ls
  unfolding last_value replace_line
  last_value-replace_other name [] h = refl
  last_value-replace_other name (l ∷ ls) h = elim (Bool-cases (starts_with (start_of key) l)) [
    | inl start ↦ rw (start, value_if-new name, h, start-assigns_no_other key l name n start h) refl
    | inr other ↦ rw (other, last_value-replace_other name ls h) refl
  ]

  pub last_value-replace_same :
      (ls : List Codes)
      → any (starts_with (start_of key)) ls ≡ true
      → leb (assigning key ls) 1 ≡ true
      → last_value key (replace_line (start_of key) new_line ls) ≡ some value
  unfolding last_value replace_line assigning
  last_value-replace_same [] h k = cc
  last_value-replace_same (l ∷ ls) h k = elim (Bool-cases (starts_with (start_of key) l)) [
    | inl start ↦
        rw (start, value_if-new key, same_codes_refl key)
          (ground
            (arith, last_value-none key ls, k, start-assigns key l n start, same_codes_refl key))
    | inr other ↦ rw (other) (ground (arith, last_value-replace_same ls, h, k, other))
  ]

  assignment-append_newline : (l : Codes) → assignment (l ++ 10 ∷ []) ≡ assignment l
  unfolding assignment
  assignment-append_newline l = rw (strip-append_newline l) refl

  pub last_value-append :
      (name : Codes) (ls : List Codes)
      → last_value name (append_line new_line ls)
        ≡ (if same_codes key name then some value else last_value name ls)
  unfolding last_value append_line
  last_value-append name [] = rw (value_if-new name) refl
  last_value-append name (l ∷ []) = ground (arith, value_if-new name, assignment-append_newline l)
  last_value-append name (l ∷ m ∷ ls) = ground (arith, last_value-append name (m ∷ ls))
