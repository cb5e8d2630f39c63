-- ===== src/Services.antt =====
-- What the request handlers reach through `app.state` and the clock, for the run of one request.
-- These clients call other processes: each is a function from the request to what comes back.
use archiviste_nocilia.Prelude.{ℕ, String, Text, Bool, Option, List}
use archiviste_nocilia.Chunk.{Chunk}
use archiviste_nocilia.Memory.{Role, Message, TurnStore}
use archiviste_nocilia.Llm.{Reply, StreamReply}

-- The outcomes of a ticket attempt, `skipped` where none is made.
pub data TicketAction : Type 0 where
  created incremented skipped_error skipped : TicketAction

pub record Services : Type 0 where
  -- `str.lower`, which follows the Unicode tables
  pub lower : Text → Text
  -- `llm_client`: a call with a timeout in seconds, and a stream
  pub model : String
  pub provider : String
  pub invoke : List Message → ℕ → Reply
  pub astream : List Message → StreamReply
  -- `retrieve_client.search(query, top_k, user_tier)`; `none` is a `RetrieveError`
  pub search : Text → ℕ → String → Option (List Chunk)
  -- `.ok` of `conversation_client.append_message`
  pub append_ok : Role → Text → Bool
  -- `conversation_repo`, and `settings.memory_token_budget` or 0
  pub conversation_repo : Option TurnStore
  pub token_budget : ℕ
  -- neither `db_pool` nor `embedder` is `None`
  pub has_ticket_store : Bool
  -- `.action` of `create_or_increment`, for the question
  pub ticket_action : Text → TicketAction
  -- `str(uuid.uuid4())`
  pub new_uuid : Text
  -- whole milliseconds between two readings of `time.perf_counter`
  pub classify_ms : ℕ
  pub retrieve_ms : ℕ
  pub llm_ms : ℕ
  pub latency_ms : ℕ
