-- ===== src/Acl/Tests.antt =====
-- The access filter on a concrete retrieval.
use archiviste_nocilia.Prelude.{◌+◌, ◌≡◌, [], ◌∷◌, filter, length}
use archiviste_nocilia.Acl.{filter_chunks_by_tier}
use archiviste_nocilia.Acl.Clearance.{permits, filter_chunks_by_tier_lem}
use archiviste_nocilia.Fixtures.{public_chunk, hidden_chunk}

filter_chunks_by_tier_lem_example :
    ((filter_chunks_by_tier (public_chunk ∷ hidden_chunk ∷ []) "members").visible
      ≡ filter (permits "members") (public_chunk ∷ hidden_chunk ∷ []))
    × (length (filter_chunks_by_tier (public_chunk ∷ hidden_chunk ∷ []) "members").visible
          + (filter_chunks_by_tier (public_chunk ∷ hidden_chunk ∷ []) "members").blocked_count
        ≡ length (public_chunk ∷ hidden_chunk ∷ []))
filter_chunks_by_tier_lem_example =
    filter_chunks_by_tier_lem (public_chunk ∷ hidden_chunk ∷ []) "members"
