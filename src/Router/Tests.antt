-- ===== src/Router/Tests.antt =====
-- The blocking endpoint on a concrete request.
use archiviste_nocilia.Prelude.{◌≡◌, refl, [], ◌∷◌}
use archiviste_nocilia.Acl.Clearance.{permits, rank, clearance}
use archiviste_nocilia.Router.{post_generate}
use archiviste_nocilia.Router.Contexts.{make_context}
use archiviste_nocilia.Router.Decide.{decide_retrieved, decide_mode}
use archiviste_nocilia.Router.Finish.{invoke_and_finalize}
use archiviste_nocilia.Router.Modes.{mode_of, decide_retrieved-mode, blocked_chunks_no_influence}
use archiviste_nocilia.Router.Outcomes.{IsRecorded, post_generate-IsRecorded}
use archiviste_nocilia.Router.Zones.{IsZoned, decide_mode-IsZoned}
use archiviste_nocilia.Fixtures.{
  services, payload, headers, context, intent_result, generate_request, public_chunk, hidden_chunk,
}

decide_retrieved-mode_example :
    (decide_retrieved services context intent_result (hidden_chunk ∷ [])).mode
    ≡ mode_of "anonymous" (hidden_chunk ∷ [])
decide_retrieved-mode_example =
    decide_retrieved-mode services context intent_result (hidden_chunk ∷ [])

blocked_chunks_no_influence_example :
    invoke_and_finalize services context
      (decide_retrieved services context intent_result (public_chunk ∷ hidden_chunk ∷ []))
    ≡ invoke_and_finalize services context
        (decide_retrieved services context intent_result (public_chunk ∷ []))
unfolding permits rank clearance
blocked_chunks_no_influence_example =
    blocked_chunks_no_influence services context intent_result (public_chunk ∷ hidden_chunk ∷ [])
      (public_chunk ∷ []) refl refl

post_generate-IsRecorded_example :
    IsRecorded (post_generate services payload headers).0 (post_generate services payload headers).1
post_generate-IsRecorded_example = post_generate-IsRecorded services payload headers

decide_mode-IsZoned_example :
    IsZoned (decide_mode services (make_context services generate_request) intent_result).1
decide_mode-IsZoned_example = decide_mode-IsZoned services generate_request intent_result
