-- ===== src/Fixtures.antt =====
-- Concrete data that the tests of several modules share: a corpus, a conversation and services.
use archiviste_nocilia.Prelude.{ℕ, String, Text, true, false, some, [], ◌∷◌, codes}
use archiviste_nocilia.Prelude.Int.{pos}
use archiviste_nocilia.Chunk.{Chunk}
use archiviste_nocilia.Memory.{Role, Message, StoredTurn, TurnStore}
use archiviste_nocilia.Llm.{AiMessage, Reply, StreamReply}
use archiviste_nocilia.Services.{Services, TicketAction}
use archiviste_nocilia.Intent.{Intent, IntentResult}
use archiviste_nocilia.Request.{Field, Payload, Headers, GenerateRequest}
use archiviste_nocilia.Pipeline.{Context}

abbrev pub chunk : String → ℕ → ℕ → String → Chunk
chunk path ord score tier = record {
  source_path = codes path;
  ord = ord;
  text = codes "Nocilia a deux lunes.";
  score = pos score;
  access_tier = tier;
}

abbrev pub public_chunk : Chunk
public_chunk = chunk "cosmos/lunes.md" 0 810000 "public"

abbrev pub second_chunk : Chunk
second_chunk = chunk "cosmos/lunes.md" 3 520000 "public"

abbrev pub hidden_chunk : Chunk
hidden_chunk = chunk "secrets/fin.md" 1 900000 "author_only"

abbrev pub user_id : Text
user_id = codes "11111111-1111-1111-1111-111111111111"

abbrev pub conversation_id : Text
conversation_id = codes "22222222-2222-2222-2222-222222222222"

abbrev pub request_id : Text
request_id = codes "33333333-3333-3333-3333-333333333333"

abbrev pub stored : Role → ℕ → String → StoredTurn
stored role ordinal content = record {
  conversation_id = conversation_id;
  row = record { role = role; ordinal = ordinal; content = codes content; token_count = 4 };
}

abbrev pub turn_store : TurnStore
turn_store = record {
  conversations = record { id = conversation_id; user_id = user_id } ∷ [];
  turns = stored Role.user 1 "Qui regne ?" ∷ stored Role.assistant 2 "Personne." ∷ [];
}

abbrev pub answer : Text
answer = codes "Deux [cosmos/lunes.md]."

abbrev pub reply_message : AiMessage
reply_message = record {
  content = some answer;
  usage_metadata = ("input_tokens", 120) ∷ ("output_tokens", 30) ∷ [];
  response_usage = [];
  response_token_usage = [];
}

abbrev pub services : Services
services = record {
  lower = λ t. t;
  model = "mistral-small-latest";
  provider = "mistral";
  invoke = λ messages timeout. Reply.message reply_message;
  astream = λ messages. StreamReply.finished (answer ∷ []) (some reply_message);
  search = λ query k tier. some (public_chunk ∷ hidden_chunk ∷ []);
  append_ok = λ role content. true;
  conversation_repo = some turn_store;
  token_budget = 100;
  has_ticket_store = true;
  ticket_action = λ question. TicketAction.created;
  new_uuid = conversation_id;
  classify_ms = 5;
  retrieve_ms = 20;
  llm_ms = 400;
  latency_ms = 430;
}

abbrev pub payload : Payload
payload = record {
  query = Field.str (codes "Combien de lunes ?");
  conversation_id = Field.str conversation_id;
  request_id = Field.str request_id;
}

abbrev pub headers : Headers
headers = record { x_user_id = some user_id; x_user_tier = some "anonymous" }

abbrev pub generate_request : GenerateRequest
generate_request = record {
  query = codes "Combien de lunes ?";
  conversation_id = some conversation_id;
  user_id = user_id;
  user_tier = "anonymous";
  request_id = request_id;
}

abbrev pub context : Context
context = record {
  parsed = generate_request;
  conversation_id = conversation_id;
  suspected = false;
  memory_messages = Message.human (codes "Qui regne ?") ∷ [];
  retrieval_query = codes "Combien de lunes ?";
}

abbrev pub intent_result : IntentResult
intent_result = record {
  intent = Intent.in_domain;
  prompt_tokens = some 50;
  completion_tokens = some 2;
  cost_eur = some 11;
  latency_ms = 5;
}
