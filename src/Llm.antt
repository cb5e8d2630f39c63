-- ===== src/Llm.antt =====
-- workers/src/archiviste_workers/services/llm.py, its shapes: what one call of a model gives back,
-- and the token counts that are read from it. The provider's client is not modelled: a call is a
-- parameter of the code that makes it.
use archiviste_nocilia.Prelude.{
  ℕ, String, Text, ◌&&◌, ◌||◌, not, Option, none, some, List, [], ◌∷◌, ◌==◌, if◌then◌else◌,
  is_empty,
}

-- A dict of token counts, such as `usage_metadata`.
abbrev pub TokenCounts : Type 0
TokenCounts = List (String × ℕ)

unfoldable pub count_under : String → TokenCounts → Option ℕ
count_under k [] = none
count_under k ((j, n) ∷ counts) = if j == k then some n else count_under k counts

-- The parts of an `AIMessage` that the workers read. A missing dict is the empty one, as after
-- `or {}`.
pub record AiMessage : Type 0 where
  pub content : Option Text
  pub usage_metadata : TokenCounts
  -- `response_metadata["usage"]` and `response_metadata["token_usage"]`
  pub response_usage : TokenCounts
  pub response_token_usage : TokenCounts

-- A call ends in a message, in a timeout, or in an upstream error with its status.
pub data Reply : Type 0 where
  message : AiMessage → Reply
  timeout : Reply
  upstream : ℕ → Reply

-- A stream ends after its text deltas, with the final message if one came, or fails after some
-- deltas.
pub data StreamReply : Type 0 where
  finished : List Text → Option AiMessage → StreamReply
  timed_out : List Text → StreamReply
  broken : List Text → ℕ → StreamReply

pub record TokenUsage : Type 0 where
  pub prompt_tokens : Option ℕ
  pub completion_tokens : Option ℕ

-- Both counts or none.
abbrev pub both : Option ℕ → Option ℕ → TokenUsage
both (some p) (some c) = record { prompt_tokens = some p; completion_tokens = some c }
both _ _ = record { prompt_tokens = none; completion_tokens = none }

unfoldable pub extract_usage : AiMessage → String → TokenUsage
unfolding count_under
extract_usage m provider =
    if (provider == "mistral" || provider == "google") && not (is_empty m.usage_metadata)
    then both (count_under "input_tokens" m.usage_metadata)
        (count_under "output_tokens" m.usage_metadata)
    else if provider == "anthropic"
    then both (count_under "input_tokens" m.response_usage)
        (count_under "output_tokens" m.response_usage)
    else if provider == "openai"
    then both (count_under "prompt_tokens" m.response_token_usage)
        (count_under "completion_tokens" m.response_token_usage)
    else if provider == "deepseek"
    then both (count_under "prompt_tokens" m.response_usage)
        (count_under "completion_tokens" m.response_usage)
    else both none none

-- `str(ai_message.content) if ai_message.content is not None else ""`
abbrev pub content_or_empty : AiMessage → Text
content_or_empty m = elim m.content [ none ↦ [] | some t ↦ t ]
