-- ===== src/Router.antt =====
-- workers/src/archiviste_workers/generate/router.py: the blocking endpoint POST /v1/generate.
pub mod Contexts
pub mod Decide
pub mod Finish
pub mod Modes
pub mod Outcomes
pub mod Zones
mod Tests
use archiviste_nocilia.Prelude.{
  ℕ, ◌+◌, String, Text, Bool, true, false, ◌&&◌, ◌||◌, Option, none, some, List, [], ◌∷◌, ◌++◌,
  if◌then◌else◌, is_empty, codes, leb, eqb,
}
use archiviste_nocilia.Prelude.Int.{ℤ, pos, ltb_ℤ}
use archiviste_nocilia.Chunk.{Chunk, Citation}
use archiviste_nocilia.Acl.{FilterResult, filter_chunks_by_tier}
use archiviste_nocilia.Memory.{Message, MemoryWindow, load_memory_window}
use archiviste_nocilia.Parser.{extract_citations}
use archiviste_nocilia.Parser.Followups.{extract_followups}
use archiviste_nocilia.Pricing.{compute_cost_eur}
use archiviste_nocilia.Llm.{AiMessage, Reply, extract_usage, content_or_empty}
use archiviste_nocilia.Injection.{detect_injection}
use archiviste_nocilia.Prompt.{
  build_messages, build_off_topic_messages, build_mystery_messages, build_lore_gap_messages,
}
use archiviste_nocilia.Services.{Services}
use archiviste_nocilia.Intent.{Intent, IntentResult, classify_intent}
use archiviste_nocilia.Request.{
  GenerateRequest, GenerateError, Parsed, accepted, rejected, Payload, Headers, parse_request,
}
use archiviste_nocilia.Pipeline.{
  Mode, Usage, QueryLogRow, Effect, classify, retrieve, generate, log_query, Context, PreparedMode,
  GenerationResult, add_optional, is_off_topic, is_lore_gap, logged_intent, finalize_generation,
}
use archiviste_nocilia.Router.Contexts.{make_context, classifier_suspected}
use archiviste_nocilia.Router.Decide.{Outcome, returns, raises, decide_mode}
use archiviste_nocilia.Router.Finish.{GenerateResponse, invoke_and_finalize}

abbrev pub after_decision :
    Services → Context → List Effect × Outcome PreparedMode → List Effect × Outcome GenerateResponse
after_decision s ctx (effects, raises e) = (effects, raises e)
after_decision s ctx (effects, returns prepared) =
    let (more, outcome) = invoke_and_finalize s ctx prepared in (effects ++ more, outcome)

abbrev pub handle_accepted : Services → GenerateRequest → List Effect × Outcome GenerateResponse
handle_accepted s parsed =
    let ctx = make_context s parsed in
    let suspected = classifier_suspected s parsed in
    let ir = classify_intent s ctx.retrieval_query suspected in
    let (effects, outcome) = after_decision s ctx (decide_mode s ctx ir) in
    (classify ctx.retrieval_query suspected ∷ effects, outcome)

abbrev pub handle_parsed : Services → Parsed → List Effect × Outcome GenerateResponse
handle_parsed s (rejected e) = ([], raises e)
handle_parsed s (accepted parsed) = handle_accepted s parsed

-- `post_generate`; a raised error becomes the JSON body `{"error": code}` with its status.
unfoldable pub post_generate : Services → Payload → Headers → List Effect × Outcome GenerateResponse
unfolding make_context classifier_suspected decide_mode invoke_and_finalize
post_generate s payload headers = handle_parsed s (parse_request payload headers)
