-- ===== src/Stream/Grammar.antt =====
-- The events of a stream, and what a run stores and logs, by the way in which it ends.
use mathlib.Core.List.{flatten}
use archiviste_nocilia.Prelude.{ℕ, Text, ◌≡◌, ◌⊎◌, refl, ◌∙◌, ap, List, [], ◌∷◌, ◌++◌, map, arith}
use archiviste_nocilia.Memory.{Role, Message}
use archiviste_nocilia.Services.{Services}
use archiviste_nocilia.Pipeline.{
  Mode, QueryLogRow, StreamErrorCode, SseEvent, Effect, generate, emit, Context, PreparedMode,
  GenerationResult, finalize_generation, success_row,
}
use archiviste_nocilia.Pipeline.Finalized.{
  collect, collect-append, one_turn, one_row, one_ticket, one_event, turns, rows, tickets, events,
  statuses, finalize_generation_lem,
}
use archiviste_nocilia.Stream.Branches.{emit_meta, emit_tokens, deliver}

-- The status of the query log for an error of the stream.
abbrev pub status_of : StreamErrorCode → ℕ
status_of StreamErrorCode.llm_timeout = 504
status_of StreamErrorCode.llm_upstream = 502
status_of StreamErrorCode.retrieve_failed = 502

-- A run that ends well: the meta event, the parts of the answer and the done event; the turns of the
-- user and of the assistant, who said the parts joined, are stored; one row is logged, with status
-- 200 and with the mode of the meta event and the usage of the done event; a ticket is tried in the
-- lore-gap mode only.
abbrev pub Delivers : Context → List Effect → Type 0
Delivers ctx fx =
    (mode : Mode) × (parts : List Text) × (retrieve_ms : ℕ) × (result : GenerationResult) × (events
        fx
      ≡ SseEvent.meta mode ctx.conversation_id ctx.parsed.request_id
        ∷ (map SseEvent.token parts
            ++ SseEvent.done result.citations result.usage retrieve_ms result.llm_ms
                result.followups
              ∷ []))
    × (turns fx ≡ (Role.user, ctx.parsed.query) ∷ (Role.assistant, flatten parts) ∷ [])
    × ((row : QueryLogRow) × (rows fx ≡ row ∷ [])
        × (row.status_code ≡ 200)
        × (row.mode ≡ mode)
        × (row.prompt_tokens ≡ result.usage.prompt_tokens)
        × (row.completion_tokens ≡ result.usage.completion_tokens)
        × (row.cost_eur ≡ result.usage.cost_eur))
    × ((tickets fx ≡ []) ⊎ (mode ≡ Mode.lore_gap))

-- A run that fails: an error event, behind the meta event unless the retrieval failed; no turn is
-- stored, no ticket tried, and one row is logged, with the status of the error.
abbrev pub Fails : Context → List Effect → Type 0
Fails ctx fx =
    (code : StreamErrorCode) × (((mode : Mode) × (events fx
          ≡ SseEvent.meta mode ctx.conversation_id ctx.parsed.request_id
            ∷ SseEvent.error code
            ∷ []))
      ⊎ ((code ≡ StreamErrorCode.retrieve_failed) × (events fx ≡ SseEvent.error code ∷ [])))
    × (turns fx ≡ [])
    × (tickets fx ≡ [])
    × (statuses (rows fx) ≡ status_of code ∷ [])

-- Tokens are seen as events and as nothing else.
events-tokens : (parts : List Text) → events (emit_tokens parts) ≡ map SseEvent.token parts
events-tokens [] = refl
events-tokens (p ∷ parts) = ap (λ t. SseEvent.token p ∷ t) (events-tokens parts)

turns-tokens : (parts : List Text) → turns (emit_tokens parts) ≡ []
turns-tokens [] = refl
turns-tokens (p ∷ parts) = turns-tokens parts

rows-tokens : (parts : List Text) → rows (emit_tokens parts) ≡ []
rows-tokens [] = refl
rows-tokens (p ∷ parts) = rows-tokens parts

tickets-tokens : (parts : List Text) → tickets (emit_tokens parts) ≡ []
tickets-tokens [] = refl
tickets-tokens (p ∷ parts) = tickets-tokens parts

module _ (s : Services) (ctx : Context) (prepared : PreparedMode) (result : GenerationResult)
    (parts : List Text) where
  abbrev last_event : Effect
  last_event = emit (
      SseEvent.done result.citations result.usage prepared.retrieve_ms result.llm_ms
        result.followups)

  abbrev stored : List Effect
  stored = (finalize_generation s ctx prepared result).0

  -- A view of a delivery, from its three parts.
  collect-deliver :
      {A : Type 0} (f : Effect → List A)
      → collect f (deliver s ctx prepared result parts)
        ≡ collect f (emit_tokens parts) ++ (collect f stored ++ collect f (last_event ∷ []))
  collect-deliver f =
      collect-append f (emit_tokens parts) (stored ++ last_event ∷ [])
      ∙ ap (λ t. collect f (emit_tokens parts) ++ t) (collect-append f stored (last_event ∷ []))

  pub deliver-Delivers :
      (messages : List Message)
      → result.persisted_content ≡ flatten parts
      → Delivers ctx
          (emit_meta ctx prepared.mode ∷ generate messages ∷ deliver s ctx prepared result parts)
  unfolding success_row
  deliver-Delivers messages h =
      let facts = finalize_generation_lem s ctx prepared result in
      (
        prepared.mode,
        parts,
        prepared.retrieve_ms,
        result,
        grind (arith, collect-deliver one_event, events-tokens parts, facts.3),
        grind (arith, collect-deliver one_turn, turns-tokens parts, facts.0),
        (
          success_row s ctx prepared result,
          grind (arith, collect-deliver one_row, rows-tokens parts, facts.1),
          refl,
          refl,
          refl,
          refl,
          refl,
        ),
        grind (arith, collect-deliver one_ticket, tickets-tokens parts, facts.2),
      )
