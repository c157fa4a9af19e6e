-- ===== src/Env.antt =====
-- What the code takes from outside the repository: the primary keys that SQLite assigns, `str.lower`
-- and `repr` of Python's full Unicode tables, SHA-256, and the clock (`_utcnow`).
use channel_agent.Prelude.{ℕ, String, ◌<◌, List, All}

pub record Env : Type 0 where
  pub new_id : List ℕ → ℕ
  pub lower : String → String
  pub repr : String → String
  pub sha256_hex : String → String
  pub now : ℕ

-- SQLite documents that a new row of a table with an integer primary key gets an id larger than
-- every id in the table.
pub record EnvLaws (env : Env) : Type 0 where
  pub new_id_grows : (ids : List ℕ) → All (λ i. i < env.new_id ids) ids
