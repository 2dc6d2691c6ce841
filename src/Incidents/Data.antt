-- ===== src/Incidents/Data.antt =====
-- An incident as the API sends it, in the fields that the scripts decide by.
use gateway_hub.Prelude.{ℕ, Bool, String}

pub record Incident : Type 0 where
  pub ref : String
  pub status : String
  pub ongoing : Bool
  -- `started_ms || 0`
  pub started_ms : ℕ

-- What a request brings back: `fetch` or the parser throws, the answer is not ok, or it has a body.
pub data Response {ℓ} (A : Type ℓ) : Type ℓ where
  failed : Response A
  refused : Response A
  answered : A → Response A
