-- ===== src/Config/EnvFile/Written.antt =====
-- app/settings_rules.py: the lines that a change writes, and the values that are read from them.
use mathlib.Core.Path.{subst}
use channel_agent.Prelude.{
  ℕ, ◌≡◌, refl, sym, ap, ◌∙◌, inl, inr, true, false, none, some, List, [], ◌∷◌, ◌++◌, any, all, leb,
  ltb, Codes, starts_with, Bool-cases, Option-cases, arith, any-append, same_codes, same_codes_refl,
  eq_of_same_codes,
}
use channel_agent.Config.Rules.{TextLibrary, validate, rule_of, rules}
use channel_agent.Config.EnvFile.{
  decode_newlines, format_value, start_of, written_lines, read_lines, joined, read_env, lookup,
}
use channel_agent.Config.EnvFile.Lines.{
  AreLines, is_full, is_return, read_lines-joined, AreLines-replace_line, AreLines-append_line,
  AreLines-split_lines, clean_read_lines, clean_replace_line, clean_append_line,
}
use channel_agent.Config.EnvFile.Dict.{or_else, last_value, lookup-values_of}
use channel_agent.Config.EnvFile.RoundTrip.{
  IsName, IsName-rule, HasNames, is_name_character, is_writable, writable, none_of_all,
}
use channel_agent.Config.EnvFile.Update.{
  assigning, last_value-replace_other, last_value-replace_same, last_value-append,
}

-- A name and a value that may be written.
abbrev pub IsSetting : Codes → Codes → Type 0
IsSetting key value = IsName key × (all is_writable value ≡ true)

all_names : HasNames rules
all_names = ground (arith)

pub IsSetting-validate :
    (lib : TextLibrary) (key value : Codes)
    → validate lib key value ≡ some none
    → IsSetting key value
unfolding validate
IsSetting-validate lib key value h = elim (Option-cases (rule_of key rules)) [
  | inl k ↦ ground (arith, h, k)
  | inr (kind, k) ↦ (IsName-rule key rules kind all_names k, writable value (ground (arith, h, k)))
]

-- The line that is written has one newline, at its end.
name_no_control : (c : ℕ) → is_name_character c ≡ true → ltb c 32 ≡ false
name_no_control c h = ground arith

full_append : (s : Codes) → any (λ c. ltb c 32) s ≡ false → is_full (s ++ 10 ∷ []) ≡ true
full_append [] h = refl
full_append (c ∷ []) h = ground arith
full_append (c ∷ d ∷ s) h = ground (arith, full_append (d ∷ s))

no_return_append :
    (s : Codes) → any (λ c. ltb c 32) s ≡ false → any is_return (s ++ 10 ∷ []) ≡ false
no_return_append [] h = refl
no_return_append (c ∷ s) h = ground (arith, no_return_append s)

format_no_control :
    (v : Codes) → all is_writable v ≡ true → any (λ c. ltb c 32) (format_value v) ≡ false
unfolding format_value
format_no_control v h = ground (
  arith,
  none_of_all is_writable (λ c. ltb c 32) (λ c k. ground (arith, k)) v h,
  any-append (λ c. ltb c 32) v (b'\'' ∷ []),
)

text_no_control :
    (key value : Codes)
    → IsSetting key value
    → any (λ c. ltb c 32) (start_of key ++ format_value value) ≡ false
text_no_control key value s = ground (
  arith,
  any-append (λ c. ltb c 32) (start_of key) (format_value value),
  any-append (λ c. ltb c 32) key (b'=' ∷ []),
  format_no_control value s.1,
  none_of_all is_name_character (λ c. ltb c 32) name_no_control key s.0.1,
)

-- The lines that are written are the lines that are read.
read-written :
    (key value content : Codes)
    → IsSetting key value
    → read_lines (joined (written_lines key value (read_lines content)))
      ≡ written_lines key value (read_lines content)
unfolding written_lines
read-written key value content s =
    elim (Bool-cases (any (starts_with (start_of key)) (read_lines content))) [
      | inl found ↦ rw found (
          read_lines-joined _ (AreLines-replace_line (start_of key) new lines full are)
            (clean_replace_line (start_of key) new lines clean (clean_read_lines content)))
      | inr absent ↦ rw absent (
          read_lines-joined _ (AreLines-append_line new lines full are)
            (clean_append_line new lines clean (clean_read_lines content)))
    ]
  where
    lines : List Codes
    lines = read_lines content

    new : Codes
    new = start_of key ++ format_value value ++ 10 ∷ []

    full : is_full new ≡ true
    full = full_append (start_of key ++ format_value value) (text_no_control key value s)

    clean : any is_return new ≡ false
    clean = no_return_append (start_of key ++ format_value value) (text_no_control key value s)

    are : AreLines lines
    are = AreLines-split_lines (decode_newlines false content)

-- The values that are read after a change, in the lines before it.
read_env-written :
    (key value content name : Codes)
    → IsSetting key value
    → lookup name (read_env (some (joined (written_lines key value (read_lines content)))))
      ≡ or_else (last_value name (written_lines key value (read_lines content))) none
unfolding read_env lookup
read_env-written key value content name s =
    rw (read-written key value content s)
      (lookup-values_of name (written_lines key value (read_lines content)) [])

read_env-before :
    (content name : Codes)
    → lookup name (read_env (some content)) ≡ or_else (last_value name (read_lines content)) none
unfolding read_env lookup
read_env-before content name = lookup-values_of name (read_lines content) []

last_value-written_other :
    (key value name : Codes) (ls : List Codes)
    → IsName key
    → same_codes key name ≡ false
    → last_value name (written_lines key value ls) ≡ last_value name ls
unfolding written_lines
last_value-written_other key value name ls n h = ground (
  arith,
  h,
  last_value-replace_other key value n name ls h,
  last_value-append key value n name ls,
)

last_value-written_same :
    (key value : Codes) (ls : List Codes)
    → IsName key
    → leb (assigning key ls) 1 ≡ true
    → last_value key (written_lines key value ls) ≡ some value
unfolding written_lines
last_value-written_same key value ls n h = ground (
  arith,
  last_value-replace_same key value n ls,
  h,
  last_value-append key value n key ls,
  same_codes_refl key,
)

pub written_other :
    (key value content name : Codes)
    → IsSetting key value
    → same_codes key name ≡ false
    → lookup name (read_env (some (joined (written_lines key value (read_lines content)))))
      ≡ lookup name (read_env (some content))
written_other key value content name s h =
    read_env-written key value content name s
    ∙ ap (λ v. or_else v none) (last_value-written_other key value name (read_lines content) s.0 h)
    ∙ sym (read_env-before content name)

pub written_same :
    (key value content name : Codes)
    → IsSetting key value
    → leb (assigning key (read_lines content)) 1 ≡ true
    → same_codes key name ≡ true
    → lookup name (read_env (some (joined (written_lines key value (read_lines content)))))
      ≡ some value
written_same key value content name s h k =
    subst
      (λ (n : Codes).
        lookup n (read_env (some (joined (written_lines key value (read_lines content)))))
        ≡ some value)
      (eq_of_same_codes key name k)
      (read_env-written key value content key s
        ∙ ap (λ v. or_else v none) (last_value-written_same key value (read_lines content) s.0 h))
