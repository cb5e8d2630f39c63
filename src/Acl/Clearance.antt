-- ===== src/Acl/Clearance.antt =====
-- The filter against a description by ranks: a chunk is visible exactly if its tier is known and
-- does not rank above the caller's clearance.
use archiviste_nocilia.Prelude.{
  ℕ, ◌+◌, String, Bool, true, false, Option, none, some, ◌≡◌, refl, sym, List, [], ◌∷◌, ◌++◌, ◌==◌,
  arith, leb, if◌then◌else◌, filter, length, length-append, append_nil, append_assoc,
}
use archiviste_nocilia.Chunk.{Chunk}
use archiviste_nocilia.Acl.{
  FilterResult, allowed_access_tiers, filter_step, filter_loop, filter_chunks_by_tier,
}

-- How secret a document's tier is; an unknown tier has no rank.
unfoldable pub rank : String → Option ℕ
rank t =
    if t == "public"
    then some 0
    else if t == "members"
    then some 1
    else if t == "author_only"
    then some 2
    else none

-- The highest rank that a caller may read; an unknown caller may read nothing.
unfoldable pub clearance : String → Option ℕ
clearance t =
    if t == "anonymous"
    then some 0
    else if t == "members"
    then some 1
    else if t == "author_only"
    then some 2
    else none

abbrev pub within : Option ℕ → Option ℕ → Bool
within none c = false
within (some r) none = false
within (some r) (some c) = leb r c

unfoldable pub permits : String → Chunk → Bool
permits user_tier chunk = within (rank chunk.access_tier) (clearance user_tier)

pub filter_step_lem :
    (u : String) (r : FilterResult) (chunk : Chunk)
    → filter_step (allowed_access_tiers u) r chunk ≡ (
        if permits u chunk
        then record r { visible = r.visible ++ chunk ∷ [] }
        else record r { blocked_count = r.blocked_count + 1 })
unfolding filter_step allowed_access_tiers permits rank clearance
filter_step_lem u r chunk = ground arith

pub filter_loop-visible :
    (u : String) (r : FilterResult) (chunks : List Chunk)
    → (filter_loop (allowed_access_tiers u) r chunks).visible
      ≡ r.visible ++ filter (permits u) chunks
unfolding filter_loop
filter_loop-visible u r [] = sym (append_nil r.visible)
filter_loop-visible u r (chunk ∷ chunks) = ground (
  arith,
  filter_step_lem u r chunk,
  filter_loop-visible u (filter_step (allowed_access_tiers u) r chunk) chunks,
  append_assoc r.visible (chunk ∷ []) (filter (permits u) chunks),
)

pub filter_loop-count :
    (u : String) (r : FilterResult) (chunks : List Chunk)
    → let s = filter_loop (allowed_access_tiers u) r chunks in
      length s.visible + s.blocked_count ≡ length r.visible + r.blocked_count + length chunks
unfolding filter_loop
filter_loop-count u r [] = omega arith
filter_loop-count u r (chunk ∷ chunks) = ground (
  arith,
  filter_step_lem u r chunk,
  filter_loop-count u (filter_step (allowed_access_tiers u) r chunk) chunks,
  length-append r.visible (chunk ∷ []),
)

-- The filter returns exactly the chunks whose tier is known and does not rank above the caller's
-- clearance, in the order of the search, and it counts all the others as blocked.
pub filter_chunks_by_tier_lem :
    (chunks : List Chunk) (u : String)
    → let r = filter_chunks_by_tier chunks u in
      (r.visible ≡ filter (permits u) chunks) × (length r.visible + r.blocked_count ≡ length chunks)
unfolding filter_chunks_by_tier
filter_chunks_by_tier_lem chunks u = (
  filter_loop-visible u (record { visible = []; blocked_count = 0 }) chunks,
  ground (arith, filter_loop-count u (record { visible = []; blocked_count = 0 }) chunks),
)

within_mono : (r c d : Option ℕ) → within c d ≡ true → within r c ≡ true → within r d ≡ true
within_mono none c d h k = cc
within_mono (some r) none d h k = cc
within_mono (some r) (some c) none h k = cc
within_mono (some r) (some c) (some d) h k = ground arith

filter_mono :
    (p q : Chunk → Bool) (xs : List Chunk)
    → ((x : Chunk) → p x ≡ true → q x ≡ true)
    → filter p (filter q xs) ≡ filter p xs
filter_mono p q [] h = refl
filter_mono p q (x ∷ xs) h = ground (arith, h x, filter_mono p q xs h)

-- A caller whose clearance is within that of another sees the part of the other's chunks that the
-- filter leaves for itself: filtering for the higher clearance first changes nothing.
pub visible_mono :
    (chunks : List Chunk) (u v : String)
    → within (clearance u) (clearance v) ≡ true
    → (filter_chunks_by_tier (filter_chunks_by_tier chunks v).visible u).visible
      ≡ (filter_chunks_by_tier chunks u).visible
visible_mono chunks u v h =
    rw
      (
        (filter_chunks_by_tier_lem chunks v).0,
        (filter_chunks_by_tier_lem (filter (permits v) chunks) u).0,
        (filter_chunks_by_tier_lem chunks u).0,
      )
      (filter_mono (permits u) (permits v) chunks
        (unfold permits in λ x. within_mono (rank x.access_tier) (clearance u) (clearance v) h))
