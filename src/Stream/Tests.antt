-- ===== src/Stream/Tests.antt =====
-- The streaming endpoint on a concrete request.
use mathlib.Core.List.{flatten}
use archiviste_nocilia.Prelude.{◌≡◌, ◌⊎◌, refl, [], ◌∷◌}
use archiviste_nocilia.Intent.{Intent}
use archiviste_nocilia.Pipeline.Finalized.{silent}
use archiviste_nocilia.Router.{after_decision}
use archiviste_nocilia.Router.Contexts.{make_context}
use archiviste_nocilia.Router.Decide.{decide_by_intent}
use archiviste_nocilia.Stream.{stream_by_intent, stream_accepted}
use archiviste_nocilia.Stream.Grammar.{Delivers, Fails}
use archiviste_nocilia.Stream.Endings.{stream_accepted-ends}
use archiviste_nocilia.Stream.Agreement.{stream_by_intent-agrees}
use archiviste_nocilia.Fixtures.{
  services, context, intent_result, generate_request, public_chunk, hidden_chunk, answer,
  reply_message,
}

stream_accepted-ends_example :
    Delivers (make_context services generate_request) (stream_accepted services generate_request)
    ⊎ Fails (make_context services generate_request) (stream_accepted services generate_request)
stream_accepted-ends_example = stream_accepted-ends services generate_request

stream_by_intent-agrees_example :
    silent (stream_by_intent services context intent_result Intent.in_domain)
    ≡ (after_decision services context
        (decide_by_intent services context intent_result Intent.in_domain)).0
unfolding flatten
stream_by_intent-agrees_example =
    stream_by_intent-agrees services context intent_result
      (λ messages. (reply_message, answer ∷ [], refl, refl, refl))
      (public_chunk ∷ hidden_chunk ∷ []) Intent.in_domain refl
