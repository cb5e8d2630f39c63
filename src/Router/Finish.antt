-- ===== src/Router/Finish.antt =====
-- `_invoke_and_finalize` of generate/router.py: the call of the model and what follows.
use archiviste_nocilia.Prelude.{ℕ, ◌+◌, Text, Bool, ◌||◌, none, List, [], ◌∷◌, if◌then◌else◌}
use archiviste_nocilia.Chunk.{Citation}
use archiviste_nocilia.Parser.{extract_citations}
use archiviste_nocilia.Parser.Followups.{extract_followups}
use archiviste_nocilia.Pricing.{compute_cost_eur}
use archiviste_nocilia.Llm.{AiMessage, Reply, extract_usage, content_or_empty}
use archiviste_nocilia.Services.{Services}
use archiviste_nocilia.Pipeline.{
  Mode, Usage, QueryLogRow, Effect, generate, log_query, Context, PreparedMode, GenerationResult,
  add_optional, is_off_topic, is_lore_gap, logged_intent, finalize_generation,
}
use archiviste_nocilia.Router.Contexts.{llm_timeout_s}
use archiviste_nocilia.Router.Decide.{Outcome, returns, raise}

-- `prepared.mode in ("lore_gap", "off_topic")`
abbrev pub counts_classifier : Mode → Bool
counts_classifier mode = is_lore_gap mode || is_off_topic mode

unfoldable pub failure_row : Services → Context → PreparedMode → ℕ → QueryLogRow
failure_row s ctx prepared status_code =
    let ir = prepared.intent_result in
    let classifier = counts_classifier prepared.mode in
    record {
      request_id = ctx.parsed.request_id;
      user_id = ctx.parsed.user_id;
      conversation_id = ctx.conversation_id;
      query_text = ctx.parsed.query;
      mode = prepared.mode;
      intent = logged_intent prepared.mode ir.intent;
      status_code = status_code;
      latency_ms = s.latency_ms;
      prompt_tokens = if classifier then ir.prompt_tokens else none;
      completion_tokens = if classifier then ir.completion_tokens else none;
      cost_eur = if classifier then ir.cost_eur else none;
    }

unfoldable pub build_usage : Services → PreparedMode → AiMessage → Usage
unfolding add_optional
build_usage s prepared m =
    let raw = extract_usage m s.provider in
    let cost = compute_cost_eur s.model raw.prompt_tokens raw.completion_tokens in
    let ir = prepared.intent_result in
    if counts_classifier prepared.mode
    then record {
      prompt_tokens = add_optional ir.prompt_tokens raw.prompt_tokens;
      completion_tokens = add_optional ir.completion_tokens raw.completion_tokens;
      cost_eur = add_optional ir.cost_eur cost;
    }
    else record {
      prompt_tokens = raw.prompt_tokens;
      completion_tokens = raw.completion_tokens;
      cost_eur = cost;
    }

pub record GenerateResponse : Type 0 where
  pub answer : Text
  pub citations : List Citation
  pub mode : Mode
  pub conversation_id : Text
  pub request_id : Text
  pub usage : Usage
  pub retrieve_ms : ℕ
  pub llm_ms : ℕ

-- `_invoke_and_finalize` behind an answer of the model.
unfoldable pub generation_result : Services → PreparedMode → AiMessage → GenerationResult
unfolding build_usage
generation_result s prepared m =
    let raw_answer = content_or_empty m in
    let (answer, followups) = extract_followups raw_answer in
    record {
      persisted_content = raw_answer;
      usage = build_usage s prepared m;
      citations = extract_citations answer prepared.visible_chunks;
      llm_ms =
          if counts_classifier prepared.mode
          then prepared.intent_result.latency_ms + s.llm_ms
          else s.llm_ms;
      followups = followups;
    }

unfoldable pub respond : Context → PreparedMode → GenerationResult → Text → GenerateResponse
respond ctx prepared result answer = record {
  answer = answer;
  citations = result.citations;
  mode = prepared.mode;
  conversation_id = ctx.conversation_id;
  request_id = ctx.parsed.request_id;
  usage = result.usage;
  retrieve_ms = prepared.retrieve_ms;
  llm_ms = result.llm_ms;
}

abbrev pub finish :
    Services → Context → PreparedMode → Reply → List Effect × Outcome GenerateResponse
finish s ctx prepared Reply.timeout =
    (log_query (failure_row s ctx prepared 504) ∷ [], raise 504 "llm_timeout")
finish s ctx prepared (Reply.upstream status) =
    (log_query (failure_row s ctx prepared 502) ∷ [], raise 502 "llm_upstream")
finish s ctx prepared (Reply.message m) =
    let result = generation_result s prepared m in
    (
      (finalize_generation s ctx prepared result).0,
      returns (respond ctx prepared result (extract_followups (content_or_empty m)).0),
    )

unfoldable pub invoke_and_finalize :
    Services → Context → PreparedMode → List Effect × Outcome GenerateResponse
unfolding failure_row generation_result finalize_generation respond
invoke_and_finalize s ctx prepared =
    let (effects, outcome) = finish s ctx prepared (s.invoke prepared.messages llm_timeout_s) in
    (generate prepared.messages ∷ effects, outcome)
