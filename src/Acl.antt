-- ===== src/Acl.antt =====
-- workers/src/archiviste_workers/services/acl.py: the access filter that runs on what the search
-- returned. Tier names are compared whole. The telemetry line for an unknown tier is left out.
pub mod Clearance
mod Tests
use archiviste_nocilia.Prelude.{
  ℕ, ◌+◌, String, Bool, false, ◌||◌, List, [], ◌∷◌, ◌++◌, ◌==◌, if◌then◌else◌,
}
use archiviste_nocilia.Chunk.{Chunk}

-- `t in tiers`
unfoldable pub tier_in : String → List String → Bool
tier_in t [] = false
tier_in t (u ∷ tiers) = t == u || tier_in t tiers

-- `ALLOWED_ACCESS_TIERS_BY_USER_TIER.get(user_tier, frozenset())`
unfoldable pub allowed_access_tiers : String → List String
allowed_access_tiers user_tier =
    if user_tier == "anonymous"
    then "public" ∷ []
    else if user_tier == "members"
    then "public" ∷ "members" ∷ []
    else if user_tier == "author_only"
    then "public" ∷ "members" ∷ "author_only" ∷ []
    else []

unfoldable pub is_known_tier : String → Bool
unfolding tier_in
is_known_tier t = tier_in t ("public" ∷ "members" ∷ "author_only" ∷ [])

pub record FilterResult : Type 0 where
  pub visible : List Chunk
  pub blocked_count : ℕ

-- The body of the loop. Both branches that block a chunk only count it.
pub filter_step : List String → FilterResult → Chunk → FilterResult
unfolding is_known_tier tier_in
filter_step allowed r chunk =
    if is_known_tier chunk.access_tier
    then (if tier_in chunk.access_tier allowed
        then record r { visible = r.visible ++ chunk ∷ [] }
        else record r { blocked_count = r.blocked_count + 1 })
    else record r { blocked_count = r.blocked_count + 1 }

pub filter_loop : List String → FilterResult → List Chunk → FilterResult
filter_loop allowed r [] = r
filter_loop allowed r (chunk ∷ chunks) = filter_loop allowed (filter_step allowed r chunk) chunks

unfoldable pub filter_chunks_by_tier : List Chunk → String → FilterResult
unfolding filter_loop filter_step allowed_access_tiers
filter_chunks_by_tier chunks user_tier =
    filter_loop (allowed_access_tiers user_tier) (record { visible = []; blocked_count = 0 }) chunks
