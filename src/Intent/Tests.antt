-- ===== src/Intent/Tests.antt =====
-- The classifier on a concrete reply.
use archiviste_nocilia.Prelude.{◌≡◌, refl, codes, strip, text_eq}
use archiviste_nocilia.Intent.{Intent, intent_or_default, parse_intent}

reads_off_topic :
    intent_or_default (parse_intent (λ s. s) (codes " off_topic\n")) ≡ Intent.off_topic
unfolding parse_intent strip text_eq
reads_off_topic = refl
