-- ===== src/Router/Modes.antt =====
-- Which mode a retrieval leads to, and what of it can reach the model.
use archiviste_nocilia.Prelude.{
  String, Bool, false, not, ◌&&◌, ◌||◌, ◌≡◌, refl, sym, ◌∙◌, ap, List, [], ◌∷◌, arith, leb,
  if◌then◌else◌, filter, is_empty,
}
use archiviste_nocilia.Prelude.Int.{ℤ, ltb_ℤ}
use archiviste_nocilia.Chunk.{Chunk}
use archiviste_nocilia.Acl.{filter_chunks_by_tier}
use archiviste_nocilia.Acl.Clearance.{permits, filter_chunks_by_tier_lem}
use archiviste_nocilia.Services.{Services}
use archiviste_nocilia.Intent.{IntentResult}
use archiviste_nocilia.Pipeline.{Mode, generate, Context, PreparedMode, finalize_generation}
use archiviste_nocilia.Router.Contexts.{lore_gap_threshold, llm_timeout_s}
use archiviste_nocilia.Router.Decide.{max_from, max_score_of, decide_retrieved}
use archiviste_nocilia.Router.Finish.{
  finish, failure_row, generation_result, respond, invoke_and_finalize,
}
use archiviste_nocilia.Llm.{Reply}

-- Some chunk scores 0.45 or more.
abbrev pub some_reaches : List Chunk → Bool
some_reaches [] = false
some_reaches (c ∷ chunks) = not (ltb_ℤ c.score lore_gap_threshold) || some_reaches chunks

max_from-reaches :
    (m : ℤ) (chunks : List Chunk)
    → ltb_ℤ (max_from m chunks) lore_gap_threshold
      ≡ (ltb_ℤ m lore_gap_threshold && not (some_reaches chunks))
unfolding max_from
max_from-reaches m [] = ground arith
max_from-reaches m (c ∷ chunks) =
    ground (arith, max_from-reaches (if ltb_ℤ m c.score then c.score else m) chunks)

max_score_of-reaches :
    (chunks : List Chunk)
    → ltb_ℤ (max_score_of chunks) lore_gap_threshold ≡ not (some_reaches chunks)
unfolding max_score_of
max_score_of-reaches [] = refl
max_score_of-reaches (c ∷ chunks) = ground (arith, max_from-reaches c.score chunks)

-- The mode by what was found: nothing found, or nothing visible that reaches the threshold, is a
-- gap of the lore; found and all of it above the caller's clearance is a mystery.
abbrev pub mode_of : String → List Chunk → Mode
mode_of u chunks =
    if is_empty chunks
    then Mode.lore_gap
    else if is_empty (filter (permits u) chunks)
    then Mode.mystery
    else if some_reaches (filter (permits u) chunks)
    then Mode.canon
    else Mode.lore_gap

-- Nothing is visible and something is blocked, in terms of the chunks found.
pub hidden_iff :
    (chunks : List Chunk) (u : String)
    → let acl = filter_chunks_by_tier chunks u in
      (is_empty acl.visible && leb 1 acl.blocked_count)
      ≡ (is_empty (filter (permits u) chunks) && not (is_empty chunks))
hidden_iff [] u =
    ground (arith, (filter_chunks_by_tier_lem [] u).0, (filter_chunks_by_tier_lem [] u).1)
hidden_iff (c ∷ chunks) u = ground (
  arith,
  (filter_chunks_by_tier_lem (c ∷ chunks) u).0,
  (filter_chunks_by_tier_lem (c ∷ chunks) u).1,
)

module _ (s : Services) (ctx : Context) (ir : IntentResult) where
  -- The mode of a retrieval is the one that its description by ranks and scores gives.
  pub decide_retrieved-mode :
      (chunks : List Chunk)
      → (decide_retrieved s ctx ir chunks).mode ≡ mode_of ctx.parsed.user_tier chunks
  unfolding decide_retrieved
  decide_retrieved-mode chunks = ground (
    arith,
    hidden_iff chunks ctx.parsed.user_tier,
    (filter_chunks_by_tier_lem chunks ctx.parsed.user_tier).0,
    max_score_of-reaches (filter (permits ctx.parsed.user_tier) chunks),
  )

-- A preparation without the count of blocked chunks.
abbrev pub uncounted : PreparedMode → PreparedMode
uncounted p = record p { blocked_count = 0 }

module _ (s : Services) (ctx : Context) where
  finish-uncounted :
      (p : PreparedMode) (r : Reply) → finish s ctx (uncounted p) r ≡ finish s ctx p r
  unfolding failure_row generation_result finalize_generation respond
  finish-uncounted p Reply.timeout = refl
  finish-uncounted p (Reply.upstream status) = refl
  finish-uncounted p (Reply.message m) = refl

  invoke_and_finalize-uncounted :
      (p : PreparedMode) → invoke_and_finalize s ctx (uncounted p) ≡ invoke_and_finalize s ctx p
  unfolding invoke_and_finalize
  invoke_and_finalize-uncounted p =
      ap (λ run. (generate p.messages ∷ run.0, run.1))
        (finish-uncounted p (s.invoke p.messages llm_timeout_s))

  decide_retrieved-uncounted :
      (ir : IntentResult) (chunks chunks' : List Chunk)
      → filter (permits ctx.parsed.user_tier) chunks ≡ filter (permits ctx.parsed.user_tier) chunks'
      → is_empty chunks ≡ is_empty chunks'
      → uncounted (decide_retrieved s ctx ir chunks) ≡ uncounted (decide_retrieved s ctx ir chunks')
  unfolding decide_retrieved
  decide_retrieved-uncounted ir chunks chunks' h k = ground (
    arith,
    hidden_iff chunks ctx.parsed.user_tier,
    hidden_iff chunks' ctx.parsed.user_tier,
    (filter_chunks_by_tier_lem chunks ctx.parsed.user_tier).0,
    (filter_chunks_by_tier_lem chunks' ctx.parsed.user_tier).0,
  )

  -- What the caller may not read has no influence: two retrievals with the same permitted chunks,
  -- both of them empty or none, lead to the same messages to the model, the same effects and the
  -- same response or error.
  pub blocked_chunks_no_influence :
      (ir : IntentResult) (chunks chunks' : List Chunk)
      → filter (permits ctx.parsed.user_tier) chunks ≡ filter (permits ctx.parsed.user_tier) chunks'
      → is_empty chunks ≡ is_empty chunks'
      → invoke_and_finalize s ctx (decide_retrieved s ctx ir chunks)
        ≡ invoke_and_finalize s ctx (decide_retrieved s ctx ir chunks')
  blocked_chunks_no_influence ir chunks chunks' h k =
      sym (invoke_and_finalize-uncounted (decide_retrieved s ctx ir chunks))
      ∙ (ap (invoke_and_finalize s ctx) (decide_retrieved-uncounted ir chunks chunks' h k)
          ∙ invoke_and_finalize-uncounted (decide_retrieved s ctx ir chunks'))
