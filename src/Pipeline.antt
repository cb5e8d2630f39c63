-- ===== src/Pipeline.antt =====
-- workers/src/archiviste_workers/generate/_pipeline.py: what both routers do once the model has
-- answered. A run is recorded as the list of its effects, in order. Structured logs are left out.
pub mod Finalized
use archiviste_nocilia.Prelude.{
  ℕ, ◌+◌, String, Text, Bool, true, false, ◌&&◌, Option, none, some, List, [], ◌∷◌, ◌++◌,
  if◌then◌else◌,
}
use archiviste_nocilia.Prelude.Int.{ℤ}
use archiviste_nocilia.Chunk.{Chunk, Citation}
use archiviste_nocilia.Memory.{Role, Message}
use archiviste_nocilia.Services.{Services, TicketAction}
use archiviste_nocilia.Intent.{Intent, IntentResult}
use archiviste_nocilia.Request.{GenerateRequest}

pub data Mode : Type 0 where
  canon off_topic lore_gap mystery : Mode

pub record Usage : Type 0 where
  pub prompt_tokens : Option ℕ
  pub completion_tokens : Option ℕ
  pub cost_eur : Option ℕ

-- `QueryLogRow`
pub record QueryLogRow : Type 0 where
  pub request_id : Text
  pub user_id : Text
  pub conversation_id : Text
  pub query_text : Text
  pub mode : Mode
  pub intent : Intent
  pub status_code : ℕ
  pub latency_ms : ℕ
  pub prompt_tokens : Option ℕ
  pub completion_tokens : Option ℕ
  pub cost_eur : Option ℕ

pub data StreamErrorCode : Type 0 where
  llm_timeout llm_upstream retrieve_failed : StreamErrorCode

-- The events of the SSE grammar.
pub data SseEvent : Type 0 where
  meta : Mode → Text → Text → SseEvent
  token : Text → SseEvent
  done : List Citation → Usage → ℕ → ℕ → List Text → SseEvent
  error : StreamErrorCode → SseEvent

-- What a run does to the world, the calls of the models included.
pub data Effect : Type 0 where
  classify : Text → Bool → Effect
  retrieve : Text → Effect
  generate : List Message → Effect
  append_turn : Role → Text → Effect
  raise_ticket : Text → Effect
  log_query : QueryLogRow → Effect
  emit : SseEvent → Effect

-- The fields that `_RequestContext` and `_StreamContext` share, less the clients.
pub record Context : Type 0 where
  pub parsed : GenerateRequest
  pub conversation_id : Text
  pub suspected : Bool
  pub memory_messages : List Message
  pub retrieval_query : Text

pub record PreparedMode : Type 0 where
  pub mode : Mode
  pub messages : List Message
  pub visible_chunks : List Chunk
  pub retrieve_ms : ℕ
  pub max_score : ℤ
  pub blocked_count : ℕ
  pub intent_result : IntentResult

pub record GenerationResult : Type 0 where
  pub persisted_content : Text
  pub usage : Usage
  pub citations : List Citation
  pub llm_ms : ℕ
  pub followups : List Text

-- `add_optional` and `add_decimal_optional`
unfoldable pub add_optional : Option ℕ → Option ℕ → Option ℕ
add_optional (some a) (some b) = some (a + b)
add_optional _ _ = none

abbrev pub is_off_topic : Mode → Bool
is_off_topic Mode.off_topic = true
is_off_topic _ = false

abbrev pub is_lore_gap : Mode → Bool
is_lore_gap Mode.lore_gap = true
is_lore_gap _ = false

abbrev pub logged_intent : Mode → Intent → Intent
logged_intent mode intent = if is_off_topic mode then Intent.off_topic else intent

-- `_maybe_create_ticket`: the action, and the ticket that was tried.
unfoldable pub maybe_create_ticket :
    Services → Context → Mode → Bool → Bool → List Effect × TicketAction
maybe_create_ticket s ctx mode user_ok asst_ok =
    if is_lore_gap mode
    then (if user_ok && asst_ok
        then (if s.has_ticket_store
            then (raise_ticket ctx.parsed.query ∷ [], s.ticket_action ctx.parsed.query)
            else ([], TicketAction.skipped_error))
        else ([], TicketAction.skipped_error))
    else ([], TicketAction.skipped)

unfoldable pub success_row : Services → Context → PreparedMode → GenerationResult → QueryLogRow
success_row s ctx prepared result = record {
  request_id = ctx.parsed.request_id;
  user_id = ctx.parsed.user_id;
  conversation_id = ctx.conversation_id;
  query_text = ctx.parsed.query;
  mode = prepared.mode;
  intent = logged_intent prepared.mode prepared.intent_result.intent;
  status_code = 200;
  latency_ms = s.latency_ms;
  prompt_tokens = result.usage.prompt_tokens;
  completion_tokens = result.usage.completion_tokens;
  cost_eur = result.usage.cost_eur;
}

-- `finalize_generation`: both turns, then the ticket, then the row of the query log.
unfoldable pub finalize_generation :
    Services → Context → PreparedMode → GenerationResult → List Effect × TicketAction
unfolding maybe_create_ticket success_row
finalize_generation s ctx prepared result =
    let user_ok = s.append_ok Role.user ctx.parsed.query in
    let asst_ok = s.append_ok Role.assistant result.persisted_content in
    let (ticket, action) = maybe_create_ticket s ctx prepared.mode user_ok asst_ok in
    (
      append_turn Role.user ctx.parsed.query
          ∷ append_turn Role.assistant result.persisted_content
          ∷ (ticket ++ log_query (success_row s ctx prepared result) ∷ []),
      action,
    )
