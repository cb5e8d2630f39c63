-- ===== src/Chunk.antt =====
-- workers/src/archiviste_workers/generate/models.py: a retrieved chunk and a citation. A score is
-- held in millionths, since the search rounds it to six decimals.
use archiviste_nocilia.Prelude.{ℕ, String, Text, List}
use archiviste_nocilia.Prelude.Int.{ℤ}

pub record Chunk : Type 0 where
  pub source_path : Text
  pub ord : ℕ
  pub text : Text
  pub score : ℤ
  -- any string, as the search returns it
  pub access_tier : String

pub record Citation : Type 0 where
  pub source_path : Text
  pub chunk_ords : List ℕ
