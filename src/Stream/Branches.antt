-- ===== src/Stream/Branches.antt =====
-- workers/src/archiviste_workers/generate/stream_router.py: the generator of SSE events, one
-- function for each of its branches. The deltas of a stream are collected before the first of them
-- is emitted, so a failure in the middle emits none.
use mathlib.Core.List.{flatten}
use archiviste_nocilia.Prelude.{ℕ, ◌+◌, Text, Option, none, some, List, [], ◌∷◌, ◌++◌, map}
use archiviste_nocilia.Prelude.Int.{ℤ, pos}
use archiviste_nocilia.Chunk.{Chunk}
use archiviste_nocilia.Memory.{Message}
use archiviste_nocilia.Parser.{extract_citations}
use archiviste_nocilia.Parser.Followups.{extract_followups}
use archiviste_nocilia.Pricing.{compute_cost_eur}
use archiviste_nocilia.Llm.{AiMessage, TokenUsage, StreamReply, extract_usage, both}
use archiviste_nocilia.Prompt.{
  build_off_topic_messages, build_mystery_messages, build_lore_gap_messages,
}
use archiviste_nocilia.Services.{Services}
use archiviste_nocilia.Intent.{IntentResult}
use archiviste_nocilia.Pipeline.{
  Mode, Usage, StreamErrorCode, SseEvent, Effect, generate, log_query, emit, Context, PreparedMode,
  GenerationResult, add_optional, logged_intent, finalize_generation,
}
use archiviste_nocilia.Router.Decide.{max_score_of}

-- `extract_usage(final_message, provider) if final_message else Usage(None, None)`
abbrev pub final_usage : Services → Option AiMessage → TokenUsage
final_usage s none = both none none
final_usage s (some m) = extract_usage m s.provider

unfoldable pub build_stream_usage : Services → Option AiMessage → Usage
build_stream_usage s final_message =
    let raw = final_usage s final_message in
    record {
      prompt_tokens = raw.prompt_tokens;
      completion_tokens = raw.completion_tokens;
      cost_eur = compute_cost_eur s.model raw.prompt_tokens raw.completion_tokens;
    }

unfoldable pub combine_usage : Services → IntentResult → TokenUsage → Usage
unfolding add_optional
combine_usage s ir raw = record {
  prompt_tokens = add_optional ir.prompt_tokens raw.prompt_tokens;
  completion_tokens = add_optional ir.completion_tokens raw.completion_tokens;
  cost_eur =
      add_optional ir.cost_eur (compute_cost_eur s.model raw.prompt_tokens raw.completion_tokens);
}

-- `_insert_failure_log`: the row never has a cost.
unfoldable pub insert_failure_log :
    Services → Context → IntentResult → Mode → ℕ → Option ℕ → Option ℕ → Effect
insert_failure_log s ctx ir mode status_code prompt_tokens completion_tokens = log_query (record {
  request_id = ctx.parsed.request_id;
  user_id = ctx.parsed.user_id;
  conversation_id = ctx.conversation_id;
  query_text = ctx.parsed.query;
  mode = mode;
  intent = logged_intent mode ir.intent;
  status_code = status_code;
  latency_ms = s.latency_ms;
  prompt_tokens = prompt_tokens;
  completion_tokens = completion_tokens;
  cost_eur = none;
})

abbrev pub emit_meta : Context → Mode → Effect
emit_meta ctx mode = emit (SseEvent.meta mode ctx.conversation_id ctx.parsed.request_id)

abbrev pub emit_tokens : List Text → List Effect
emit_tokens parts = map (λ part. emit (SseEvent.token part)) parts

abbrev pub emit_error : StreamErrorCode → Effect
emit_error code = emit (SseEvent.error code)

-- The `except` branches of one `_collect_llm_stream` call.
abbrev pub on_timeout : Services → Context → IntentResult → Mode → Option ℕ → Option ℕ → List Effect
on_timeout s ctx ir mode prompt_tokens completion_tokens =
    insert_failure_log s ctx ir mode 504 prompt_tokens completion_tokens
    ∷ emit_error StreamErrorCode.llm_timeout
    ∷ []

abbrev pub on_upstream :
    Services → Context → IntentResult → Mode → Option ℕ → Option ℕ → List Effect
on_upstream s ctx ir mode prompt_tokens completion_tokens =
    insert_failure_log s ctx ir mode 502 prompt_tokens completion_tokens
    ∷ emit_error StreamErrorCode.llm_upstream
    ∷ []

-- Tokens, then `finalize_generation`, then `done`.
abbrev pub deliver : Services → Context → PreparedMode → GenerationResult → List Text → List Effect
deliver s ctx prepared result parts =
    emit_tokens parts
    ++ ((finalize_generation s ctx prepared result).0
        ++ emit (
            SseEvent.done result.citations result.usage prepared.retrieve_ms result.llm_ms
              result.followups)
          ∷ [])

-- `_stream_canon` behind the score test.
abbrev pub canon_reply :
    Services
    → Context
    → IntentResult
    → List Message
    → List Chunk
    → ℤ
    → ℕ
    → StreamReply
    → List Effect
canon_reply s ctx ir messages visible max_score blocked (StreamReply.timed_out parts) =
    on_timeout s ctx ir Mode.canon none none
canon_reply s ctx ir messages visible max_score blocked (StreamReply.broken parts status) =
    on_upstream s ctx ir Mode.canon none none
canon_reply s ctx ir messages visible max_score blocked (StreamReply.finished parts final_message) =
    let raw_answer = flatten parts in
    let (answer, followups) = extract_followups raw_answer in
    deliver s ctx
      (record {
        mode = Mode.canon;
        messages = messages;
        visible_chunks = visible;
        retrieve_ms = s.retrieve_ms;
        max_score = max_score;
        blocked_count = blocked;
        intent_result = ir;
      })
      (record {
        persisted_content = raw_answer;
        usage = build_stream_usage s final_message;
        citations = extract_citations answer visible;
        llm_ms = s.llm_ms;
        followups = followups;
      })
      parts

abbrev pub mystery_reply :
    Services → Context → IntentResult → List Message → ℕ → StreamReply → List Effect
mystery_reply s ctx ir messages blocked (StreamReply.timed_out parts) =
    on_timeout s ctx ir Mode.mystery none none
mystery_reply s ctx ir messages blocked (StreamReply.broken parts status) =
    on_upstream s ctx ir Mode.mystery none none
mystery_reply s ctx ir messages blocked (StreamReply.finished parts final_message) =
    deliver s ctx
      (record {
        mode = Mode.mystery;
        messages = messages;
        visible_chunks = [];
        retrieve_ms = s.retrieve_ms;
        max_score = pos 0;
        blocked_count = blocked;
        intent_result = ir;
      })
      (record {
        persisted_content = flatten parts;
        usage = build_stream_usage s final_message;
        citations = [];
        llm_ms = s.llm_ms;
        followups = [];
      })
      parts

unfoldable pub stream_mystery : Services → Context → IntentResult → ℕ → List Effect
unfolding insert_failure_log build_stream_usage
stream_mystery s ctx ir blocked_count =
    let messages = build_mystery_messages ctx.parsed.query ctx.suspected ctx.memory_messages in
    emit_meta ctx Mode.mystery
    ∷ generate messages
    ∷ mystery_reply s ctx ir messages blocked_count (s.astream messages)

abbrev pub lore_gap_reply :
    Services → Context → IntentResult → List Message → List Chunk → StreamReply → List Effect
lore_gap_reply s ctx ir messages chunks (StreamReply.timed_out parts) =
    on_timeout s ctx ir Mode.lore_gap ir.prompt_tokens ir.completion_tokens
lore_gap_reply s ctx ir messages chunks (StreamReply.broken parts status) =
    on_upstream s ctx ir Mode.lore_gap ir.prompt_tokens ir.completion_tokens
lore_gap_reply s ctx ir messages chunks (StreamReply.finished parts final_message) =
    deliver s ctx
      (record {
        mode = Mode.lore_gap;
        messages = messages;
        visible_chunks = chunks;
        retrieve_ms = s.retrieve_ms;
        max_score = max_score_of chunks;
        blocked_count = 0;
        intent_result = ir;
      })
      (record {
        persisted_content = flatten parts;
        usage = combine_usage s ir (final_usage s final_message);
        citations = [];
        llm_ms = ir.latency_ms + s.llm_ms;
        followups = [];
      })
      parts

unfoldable pub stream_lore_gap : Services → Context → IntentResult → List Chunk → List Effect
unfolding insert_failure_log combine_usage
stream_lore_gap s ctx ir chunks =
    let messages = build_lore_gap_messages ctx.parsed.query ctx.suspected ctx.memory_messages in
    emit_meta ctx Mode.lore_gap
    ∷ generate messages
    ∷ lore_gap_reply s ctx ir messages chunks (s.astream messages)

abbrev pub off_topic_reply :
    Services → Context → IntentResult → List Message → StreamReply → List Effect
off_topic_reply s ctx ir messages (StreamReply.timed_out parts) =
    on_timeout s ctx ir Mode.off_topic ir.prompt_tokens ir.completion_tokens
off_topic_reply s ctx ir messages (StreamReply.broken parts status) =
    on_upstream s ctx ir Mode.off_topic ir.prompt_tokens ir.completion_tokens
off_topic_reply s ctx ir messages (StreamReply.finished parts final_message) =
    deliver s ctx
      (record {
        mode = Mode.off_topic;
        messages = messages;
        visible_chunks = [];
        retrieve_ms = 0;
        max_score = pos 0;
        blocked_count = 0;
        intent_result = ir;
      })
      (record {
        persisted_content = flatten parts;
        usage = combine_usage s ir (final_usage s final_message);
        citations = [];
        llm_ms = ir.latency_ms + s.llm_ms;
        followups = [];
      })
      parts

unfoldable pub stream_off_topic : Services → Context → IntentResult → List Effect
unfolding insert_failure_log combine_usage
stream_off_topic s ctx ir =
    let messages = build_off_topic_messages ctx.parsed.query ctx.suspected ctx.memory_messages in
    emit_meta ctx Mode.off_topic
    ∷ generate messages
    ∷ off_topic_reply s ctx ir messages (s.astream messages)
