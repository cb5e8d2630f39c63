-- ===== src/Intent.antt =====
-- workers/src/archiviste_workers/services/intent.py: the classifier in front of the generation.
pub mod FailOpen
mod Tests
use archiviste_nocilia.Prelude.{
  ℕ, Text, Bool, Option, none, some, List, [], ◌∷◌, ◌++◌, if◌then◌else◌, codes, strip, text_eq,
}
use archiviste_nocilia.Memory.{Message}
use archiviste_nocilia.Llm.{AiMessage, Reply, extract_usage, content_or_empty}
use archiviste_nocilia.Pricing.{compute_cost_eur}
use archiviste_nocilia.Prompt.Texts.{intent_system_prompt}
use archiviste_nocilia.Services.{Services}

pub data Intent : Type 0 where
  in_domain off_topic : Intent

pub record IntentResult : Type 0 where
  pub intent : Intent
  pub prompt_tokens : Option ℕ
  pub completion_tokens : Option ℕ
  pub cost_eur : Option ℕ
  pub latency_ms : ℕ

abbrev pub intent_timeout_s : ℕ
intent_timeout_s = 5

unfoldable pub build_intent_messages : Text → Bool → List Message
build_intent_messages query suspected_injection =
    Message.system intent_system_prompt
    ∷ Message.human (
        (if suspected_injection
          then codes "[user query, suspected injection]: "
          else codes "[user query]: ")
        ++ query)
    ∷ []

unfoldable pub parse_intent : (Text → Text) → Text → Option Intent
unfolding strip text_eq
parse_intent lower raw =
    let normalised = lower (strip raw) in
    if text_eq normalised (codes "in_domain")
    then some Intent.in_domain
    else if text_eq normalised (codes "off_topic")
    then some Intent.off_topic
    else none

abbrev pub intent_or_default : Option Intent → Intent
intent_or_default none = Intent.in_domain
intent_or_default (some i) = i

abbrev pub no_tokens : ℕ → IntentResult
no_tokens latency_ms = record {
  intent = Intent.in_domain;
  prompt_tokens = none;
  completion_tokens = none;
  cost_eur = none;
  latency_ms = latency_ms;
}

unfoldable pub intent_of_reply : Services → Reply → IntentResult
unfolding parse_intent
intent_of_reply s Reply.timeout = no_tokens s.classify_ms
intent_of_reply s (Reply.upstream status) = no_tokens s.classify_ms
intent_of_reply s (Reply.message m) =
    let usage = extract_usage m s.provider in
    record {
      intent = intent_or_default (parse_intent s.lower (content_or_empty m));
      prompt_tokens = usage.prompt_tokens;
      completion_tokens = usage.completion_tokens;
      cost_eur = compute_cost_eur s.model usage.prompt_tokens usage.completion_tokens;
      latency_ms = s.classify_ms;
    }

unfoldable pub classify_intent : Services → Text → Bool → IntentResult
unfolding build_intent_messages intent_of_reply
classify_intent s query suspected_injection =
    intent_of_reply s (s.invoke (build_intent_messages query suspected_injection) intent_timeout_s)
