-- ===== src/Mcp/Names.antt =====
-- app/mcp/catalogue.py: the names under which the tools of a server are offered.
use channel_agent.Prelude.{
  ℕ, ◌≡◌, refl, ◌⊎◌, inl, inr, Bool, true, false, Option, none, some, [], ◌∷◌, ◌++◌, length, drop,
  ltb, if◌then◌else◌, Codes, codes, is_infix, starts_with, Bool-cases, arith,
}

abbrev pub name_prefix : Codes
name_prefix = codes "mcp__"

abbrev pub separator : Codes
separator = codes "__"

unfoldable pub catalogue_name : Codes → Codes → Codes
catalogue_name server tool = name_prefix ++ server ++ separator ++ tool

abbrev put_before : ℕ → Option (Codes × Codes) → Option (Codes × Codes)
put_before c none = none
put_before c (some (a, b)) = some (c ∷ a, b)

-- `text.partition("__")`: `none` where it does not occur.
unfoldable pub partition_separator : Codes → Option (Codes × Codes)
partition_separator [] = none
partition_separator (c ∷ s) =
    let later = put_before c (partition_separator s) in
    if starts_with separator (c ∷ s) then some ([], drop 2 (c ∷ s)) else later

unfoldable pub split_name : Codes → Option (Codes × Codes)
unfolding partition_separator
split_name name = if starts_with name_prefix name then partition_separator (drop 5 name) else none

-- Whether the separator begins in the server's name.
abbrev pub is_ambiguous : Codes → Bool
is_ambiguous server = is_infix separator (server ++ b'_' ∷ [])

partition-plain :
    (server tool : Codes)
    → is_ambiguous server ≡ false
    → partition_separator (server ++ separator ++ tool) ≡ some (server, tool)
unfolding partition_separator is_infix starts_with
partition-plain [] tool h = refl
partition-plain (c ∷ []) tool h = ground (arith, h)
partition-plain (c ∷ d ∷ s) tool h = ground (arith, h, partition-plain (d ∷ s) tool)

-- The server's part of a name that is split too early.
partition-ambiguous :
    (server tool : Codes)
    → is_ambiguous server ≡ true
    → (a : Codes) × (b : Codes) × (partition_separator (server ++ separator ++ tool) ≡ some (a, b))
      × (ltb (length a) (length server) ≡ true)
unfolding partition_separator is_infix starts_with
partition-ambiguous [] tool h = cc
partition-ambiguous (c ∷ []) tool h = ([], b'_' ∷ tool, ground (arith, h), ground arith)
partition-ambiguous (c ∷ d ∷ s) tool h = elim (Bool-cases (starts_with separator (c ∷ d ∷ s))) [
  | inl here ↦ ([], s ++ separator ++ tool, ground (arith, here), ground arith)
  | inr later ↦
      let (a, b, e, l) = partition-ambiguous (d ∷ s) tool (ground (arith, h, later)) in
      (c ∷ a, b, ground (arith, e, later), ground (arith, l))
]

-- The name of a tool is read back as its server and its tool exactly if the separator does not begin
-- in the server's name; otherwise it is read as a tool of a shorter name's server.
pub split_name-catalogue_name :
    (server tool : Codes)
    → ((is_ambiguous server ≡ false)
        × (split_name (catalogue_name server tool) ≡ some (server, tool)))
      ⊎ ((is_ambiguous server ≡ true)
          × ((a : Codes) × (b : Codes) × (split_name (catalogue_name server tool) ≡ some (a, b))
              × (ltb (length a) (length server) ≡ true)))
unfolding split_name catalogue_name starts_with
split_name-catalogue_name server tool = elim (Bool-cases (is_ambiguous server)) [
  | inl early ↦ inr (early, partition-ambiguous server tool early)
  | inr plain ↦ inl (plain, partition-plain server tool plain)
]
