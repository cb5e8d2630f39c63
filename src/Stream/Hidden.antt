-- ===== src/Stream/Hidden.antt =====
-- What a caller may not read does not reach the stream.
use archiviste_nocilia.Prelude.{ℕ, ◌≡◌, refl, List, arith, is_empty, filter}
use archiviste_nocilia.Prelude.Int.{ℤ}
use archiviste_nocilia.Chunk.{Chunk}
use archiviste_nocilia.Acl.{filter_chunks_by_tier}
use archiviste_nocilia.Acl.Clearance.{permits, filter_chunks_by_tier_lem}
use archiviste_nocilia.Memory.{Message}
use archiviste_nocilia.Llm.{StreamReply}
use archiviste_nocilia.Prompt.{build_messages, build_mystery_messages}
use archiviste_nocilia.Services.{Services}
use archiviste_nocilia.Intent.{IntentResult}
use archiviste_nocilia.Pipeline.{Context, finalize_generation}
use archiviste_nocilia.Router.Decide.{max_score_of}
use archiviste_nocilia.Router.Modes.{hidden_iff}
use archiviste_nocilia.Stream.Branches.{canon_reply, mystery_reply, stream_mystery}
use archiviste_nocilia.Stream.{stream_retrieved}

module _ (s : Services) (ctx : Context) (ir : IntentResult) where
  canon_reply-uncounted :
      (messages : List Message) (visible : List Chunk) (m : ℤ) (n n' : ℕ) (r : StreamReply)
      → canon_reply s ctx ir messages visible m n r ≡ canon_reply s ctx ir messages visible m n' r
  unfolding finalize_generation
  canon_reply-uncounted messages visible m n n' (StreamReply.timed_out parts) = refl
  canon_reply-uncounted messages visible m n n' (StreamReply.broken parts status) = refl
  canon_reply-uncounted messages visible m n n' (StreamReply.finished parts final) = refl

  mystery_reply-uncounted :
      (messages : List Message) (n n' : ℕ) (r : StreamReply)
      → mystery_reply s ctx ir messages n r ≡ mystery_reply s ctx ir messages n' r
  unfolding finalize_generation
  mystery_reply-uncounted messages n n' (StreamReply.timed_out parts) = refl
  mystery_reply-uncounted messages n n' (StreamReply.broken parts status) = refl
  mystery_reply-uncounted messages n n' (StreamReply.finished parts final) = refl

  -- What the caller may not read has no influence on a stream: two retrievals with the same
  -- permitted chunks, both of them empty or none, give the same effects and the same events.
  pub stream_retrieved-blocked :
      (chunks chunks' : List Chunk)
      → filter (permits ctx.parsed.user_tier) chunks ≡ filter (permits ctx.parsed.user_tier) chunks'
      → is_empty chunks ≡ is_empty chunks'
      → stream_retrieved s ctx ir chunks ≡ stream_retrieved s ctx ir chunks'
  unfolding stream_retrieved stream_mystery
  stream_retrieved-blocked chunks chunks' h k =
      let t = ctx.parsed.user_tier in
      let n = (filter_chunks_by_tier chunks t).blocked_count in
      let n' = (filter_chunks_by_tier chunks' t).blocked_count in
      let visible = (filter_chunks_by_tier chunks t).visible in
      let canon = build_messages ctx.parsed.query visible ctx.suspected ctx.memory_messages in
      let mystery = build_mystery_messages ctx.parsed.query ctx.suspected ctx.memory_messages in
      ground (
        arith,
        hidden_iff chunks t,
        hidden_iff chunks' t,
        (filter_chunks_by_tier_lem chunks t).0,
        (filter_chunks_by_tier_lem chunks' t).0,
        canon_reply-uncounted canon visible (max_score_of visible) n n' (s.astream canon),
        mystery_reply-uncounted mystery n n' (s.astream mystery),
      )
