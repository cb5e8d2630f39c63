-- ===== src/Intent/FailOpen.antt =====
-- The classifier fails open: only a clear answer takes a question off the archives.
use archiviste_nocilia.Prelude.{
  Text, Bool, ◌≡◌, ◌↔◌, refl, arith, codes, strip, text_eq, eq_of_text_eq,
}
use archiviste_nocilia.Llm.{AiMessage, Reply, content_or_empty}
use archiviste_nocilia.Services.{Services}
use archiviste_nocilia.Intent.{
  Intent, intent_timeout_s, intent_or_default, build_intent_messages, parse_intent, intent_of_reply,
  classify_intent,
}

-- What the reply says, without the case of letters and the space around it.
abbrev pub Says : Services → Reply → Text → Type 0
Says s r t = (m : AiMessage) × (r ≡ Reply.message m) × (s.lower (strip (content_or_empty m)) ≡ t)

parse_intent-off_topic :
    (lower : Text → Text) (raw : Text)
    → (intent_or_default (parse_intent lower raw) ≡ Intent.off_topic)
      ↔ (lower (strip raw) ≡ codes "off_topic")
unfolding parse_intent text_eq
parse_intent-off_topic lower raw =
    (λ h. ground (arith, eq_of_text_eq (lower (strip raw)) (codes "off_topic")), λ e. rw e refl)

intent_of_reply-off_topic :
    (s : Services) (r : Reply)
    → ((intent_of_reply s r).intent ≡ Intent.off_topic) ↔ Says s r (codes "off_topic")
unfolding intent_of_reply
intent_of_reply-off_topic s Reply.timeout = (λ h. ground arith, λ h. ground arith)
intent_of_reply-off_topic s (Reply.upstream status) = (λ h. ground arith, λ h. ground arith)
intent_of_reply-off_topic s (Reply.message m) = (
  λ h. (m, refl, (parse_intent-off_topic s.lower (content_or_empty m)).0 h),
  λ h. (parse_intent-off_topic s.lower (content_or_empty m)).1 (ground arith),
)

-- A query is off topic exactly if the classifier answered, and its answer, stripped and in lower
-- case, is the word `off_topic`. A timeout, an upstream error, an empty answer and any other word
-- leave the query in the domain.
pub classify_intent-off_topic :
    (s : Services) (query : Text) (suspected : Bool)
    → ((classify_intent s query suspected).intent ≡ Intent.off_topic)
      ↔ Says s
          (s.invoke (build_intent_messages query suspected) intent_timeout_s)
          (codes "off_topic")
unfolding classify_intent
classify_intent-off_topic s query suspected =
    intent_of_reply-off_topic s (s.invoke (build_intent_messages query suspected) intent_timeout_s)
