-- ===== src/Stream.antt =====
-- workers/src/archiviste_workers/generate/stream_router.py: the streaming endpoint POST
-- /v1/generate/stream, up to its four branches, which Branches has.
pub mod Branches
pub mod Grammar
pub mod Endings
pub mod Hidden
pub mod Agreement
mod Tests
use archiviste_nocilia.Prelude.{
  ℕ, Bool, ◌&&◌, Option, none, some, List, [], ◌∷◌, ◌++◌, if◌then◌else◌, is_empty, leb,
}
use archiviste_nocilia.Prelude.Int.{ltb_ℤ}
use archiviste_nocilia.Chunk.{Chunk}
use archiviste_nocilia.Acl.{filter_chunks_by_tier}
use archiviste_nocilia.Prompt.{build_messages}
use archiviste_nocilia.Services.{Services}
use archiviste_nocilia.Intent.{Intent, IntentResult, classify_intent}
use archiviste_nocilia.Request.{
  GenerateRequest, GenerateError, Parsed, accepted, rejected, Payload, Headers, parse_request,
}
use archiviste_nocilia.Pipeline.{
  Mode, StreamErrorCode, Effect, classify, retrieve, generate, Context,
}
use archiviste_nocilia.Router.Contexts.{
  lore_gap_threshold, top_k, make_context, classifier_suspected,
}
use archiviste_nocilia.Router.Decide.{max_score_of}
use archiviste_nocilia.Stream.Branches.{
  insert_failure_log, build_stream_usage, emit_meta, emit_error, canon_reply, stream_mystery,
  stream_lore_gap, stream_off_topic,
}

-- `_stream_canon` behind the retrieval.
unfoldable pub stream_retrieved : Services → Context → IntentResult → List Chunk → List Effect
unfolding insert_failure_log build_stream_usage stream_mystery stream_lore_gap max_score_of
stream_retrieved s ctx ir chunks =
    let acl = filter_chunks_by_tier chunks ctx.parsed.user_tier in
    let messages = build_messages ctx.parsed.query acl.visible ctx.suspected ctx.memory_messages in
    if is_empty acl.visible && leb 1 acl.blocked_count
    then stream_mystery s ctx ir acl.blocked_count
    else if ltb_ℤ (max_score_of acl.visible) lore_gap_threshold
    then stream_lore_gap s ctx ir acl.visible
    else emit_meta ctx Mode.canon
      ∷ generate messages
      ∷ canon_reply s ctx ir messages acl.visible (max_score_of acl.visible) acl.blocked_count
          (s.astream messages)

abbrev pub stream_found : Services → Context → IntentResult → Option (List Chunk) → List Effect
stream_found s ctx ir none =
    insert_failure_log s ctx ir Mode.canon 502 none none
    ∷ emit_error StreamErrorCode.retrieve_failed
    ∷ []
stream_found s ctx ir (some chunks) = stream_retrieved s ctx ir chunks

unfoldable pub stream_canon : Services → Context → IntentResult → List Effect
unfolding stream_retrieved
stream_canon s ctx ir =
    retrieve ctx.retrieval_query
    ∷ stream_found s ctx ir (s.search ctx.retrieval_query top_k ctx.parsed.user_tier)

abbrev pub stream_by_intent : Services → Context → IntentResult → Intent → List Effect
stream_by_intent s ctx ir Intent.off_topic = stream_off_topic s ctx ir
stream_by_intent s ctx ir Intent.in_domain = stream_canon s ctx ir

-- `_stream_generate`
unfoldable pub stream_generate : Services → Context → IntentResult → List Effect
unfolding stream_canon stream_off_topic
stream_generate s ctx ir = stream_by_intent s ctx ir ir.intent

-- A request is refused with a JSON error before the stream begins, or the stream runs.
pub data Streamed : Type 0 where
  refused : GenerateError → Streamed
  streamed : List Effect → Streamed

abbrev pub stream_accepted : Services → GenerateRequest → List Effect
stream_accepted s parsed =
    let ctx = make_context s parsed in
    let suspected = classifier_suspected s parsed in
    classify ctx.retrieval_query suspected
    ∷ stream_generate s ctx (classify_intent s ctx.retrieval_query suspected)

abbrev pub stream_parsed : Services → Parsed → Streamed
stream_parsed s (rejected e) = refused e
stream_parsed s (accepted parsed) = streamed (stream_accepted s parsed)

unfoldable pub post_generate_stream : Services → Payload → Headers → Streamed
unfolding make_context classifier_suspected stream_generate
post_generate_stream s payload headers = stream_parsed s (parse_request payload headers)
