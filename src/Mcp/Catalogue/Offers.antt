-- ===== src/Mcp/Catalogue/Offers.antt =====
-- app/mcp/catalogue.py: what a turn is offered, and where a call of it goes.
use channel_agent.Prelude.{
  ◌≡◌, refl, ◌⊎◌, inl, inr, true, false, some, List, [], ◌∷◌, any, All, Codes, same_codes,
  Bool-cases, arith,
}
use channel_agent.Mcp.Names.{catalogue_name, split_name, is_ambiguous, split_name-catalogue_name}
use channel_agent.Mcp.Server.{ServerConfig, Tool, Done, done, error, Managed}
use channel_agent.Mcp.Catalogue.{Offer, is_offered, offers_of, offers_from}

-- A tool of a server that is on, whose name is allowed and is read back as the server and the tool
-- unless the separator begins in the server's name.
abbrev pub IsToolOf : List Codes → ServerConfig → Offer → Type 0
IsToolOf allowed c o =
    (t : Tool) × (o.name ≡ catalogue_name c.name t.name)
    × (any (same_codes t.name) c.disabled_tools ≡ false)
    × (any (same_codes o.name) allowed ≡ true)
    × ((is_ambiguous c.name ≡ true) ⊎ (split_name o.name ≡ some (c.name, t.name)))

abbrev pub IsOffer : List Codes → List Managed → Offer → Type 0
IsOffer allowed [] o = ⊥
IsOffer allowed (m ∷ ms) o = IsToolOf allowed m.config o ⊎ IsOffer allowed ms o

read_back :
    (server tool : Codes)
    → (is_ambiguous server ≡ true) ⊎ (split_name (catalogue_name server tool) ≡ some (server, tool))
read_back server tool = elim (split_name-catalogue_name server tool) [
  | inl plain ↦ inr plain.1
  | inr early ↦ inl early.0
]

offers_of_lem :
    (allowed : List Codes) (m : Managed) (ts : List Tool)
    → All (IsToolOf allowed m.config) (offers_of allowed m ts)
unfolding offers_of
offers_of_lem allowed m [] = tt
offers_of_lem allowed m (t ∷ ts) = elim (Bool-cases (is_offered allowed m t)) [
  | inr other ↦ rw other (offers_of_lem allowed m ts)
  | inl offered ↦ rw offered (
    (t, refl, ground (arith, offered), ground (arith, offered), read_back m.config.name t.name),
    offers_of_lem allowed m ts,
  )
]

offers_from_lem :
    (allowed : List Codes) (m : Managed) (r : Done (List Tool))
    → All (IsToolOf allowed m.config) (offers_from allowed (r, m))
offers_from_lem allowed m (error e) = tt
offers_from_lem allowed m (done tools) = offers_of_lem allowed m tools
