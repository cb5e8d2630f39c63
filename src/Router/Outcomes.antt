-- ===== src/Router/Outcomes.antt =====
-- What a run of the blocking endpoint stores and logs, by how it ends.
use archiviste_nocilia.Prelude.{
  Text, Bool, ◌≡◌, ◌⊎◌, refl, ap, inl, inr, Option, none, some, List, [], ◌∷◌, map, arith,
}
use archiviste_nocilia.Chunk.{Chunk}
use archiviste_nocilia.Memory.{Role, Message}
use archiviste_nocilia.Llm.{Reply}
use archiviste_nocilia.Services.{Services}
use archiviste_nocilia.Intent.{Intent, IntentResult, classify_intent}
use archiviste_nocilia.Request.{Parsed, accepted, rejected, Payload, Headers, parse_request}
use archiviste_nocilia.Pipeline.{
  Mode, QueryLogRow, Effect, classify, retrieve, generate, Context, PreparedMode, GenerationResult,
  finalize_generation, success_row,
}
use archiviste_nocilia.Pipeline.Finalized.{turns, rows, tickets, statuses, finalize_generation_lem}
use archiviste_nocilia.Router.Decide.{
  Outcome, returns, raises, decide_mode, decide_found, decide_by_intent, decide_retrieved,
  prepare_off_topic,
}
use archiviste_nocilia.Router.Finish.{
  GenerateResponse, finish, failure_row, generation_result, respond, invoke_and_finalize,
}
use archiviste_nocilia.Router.Contexts.{top_k, llm_timeout_s, make_context, classifier_suspected}
use archiviste_nocilia.Router.{after_decision, handle_parsed, post_generate}

-- A run that returns has stored a turn of the user and one of the assistant, has logged one row with
-- status 200, the mode, the token counts and the cost of the response, and has tried a ticket only in the
-- lore-gap mode. A run that raises has stored nothing and tried no ticket, and has logged no row or
-- one with the status of the error.
abbrev pub IsRecorded : List Effect → Outcome GenerateResponse → Type 0
IsRecorded fx (raises e) =
    (turns fx ≡ [])
    × (tickets fx ≡ [])
    × ((statuses (rows fx) ≡ []) ⊎ (statuses (rows fx) ≡ e.status ∷ []))
IsRecorded fx (returns r) =
    (map (λ t. t.0) (turns fx) ≡ Role.user ∷ Role.assistant ∷ [])
    × ((row : QueryLogRow) × (rows fx ≡ row ∷ [])
        × (row.status_code ≡ 200)
        × (row.mode ≡ r.mode)
        × (row.prompt_tokens ≡ r.usage.prompt_tokens)
        × (row.completion_tokens ≡ r.usage.completion_tokens)
        × (row.cost_eur ≡ r.usage.cost_eur))
    × ((tickets fx ≡ []) ⊎ (r.mode ≡ Mode.lore_gap))

-- The calls of the models and of the search record nothing.
generate-IsRecorded :
    (messages : List Message) (fx : List Effect) (o : Outcome GenerateResponse)
    → IsRecorded fx o
    → IsRecorded (generate messages ∷ fx) o
generate-IsRecorded messages fx (raises e) h = h
generate-IsRecorded messages fx (returns r) h = h

retrieve-IsRecorded :
    (query : Text) (fx : List Effect) (o : Outcome GenerateResponse)
    → IsRecorded fx o
    → IsRecorded (retrieve query ∷ fx) o
retrieve-IsRecorded query fx (raises e) h = h
retrieve-IsRecorded query fx (returns r) h = h

classify-IsRecorded :
    (query : Text) (suspected : Bool) (fx : List Effect) (o : Outcome GenerateResponse)
    → IsRecorded fx o
    → IsRecorded (classify query suspected ∷ fx) o
classify-IsRecorded query suspected fx (raises e) h = h
classify-IsRecorded query suspected fx (returns r) h = h

module _ (s : Services) (ctx : Context) where
  no_ticket :
      (prepared : PreparedMode) (result : GenerationResult)
      → (tickets (finalize_generation s ctx prepared result).0 ≡ [])
        ⊎ (prepared.mode ≡ Mode.lore_gap)
  no_ticket prepared result = ground (arith, (finalize_generation_lem s ctx prepared result).2)

  finish-IsRecorded :
      (prepared : PreparedMode) (r : Reply)
      → let (fx, outcome) = finish s ctx prepared r in IsRecorded fx outcome
  unfolding failure_row respond success_row
  finish-IsRecorded prepared Reply.timeout = (refl, refl, inr refl)
  finish-IsRecorded prepared (Reply.upstream status) = (refl, refl, inr refl)
  finish-IsRecorded prepared (Reply.message m) =
      let result = generation_result s prepared m in
      let facts = finalize_generation_lem s ctx prepared result in
      (
        ap (λ ts. map (λ t. t.0) ts) facts.0,
        (success_row s ctx prepared result, facts.1, refl, refl, refl, refl, refl),
        no_ticket prepared result,
      )

  invoke_and_finalize-IsRecorded :
      (prepared : PreparedMode)
      → let (fx, outcome) = invoke_and_finalize s ctx prepared in IsRecorded fx outcome
  unfolding invoke_and_finalize
  invoke_and_finalize-IsRecorded prepared =
      generate-IsRecorded prepared.messages
        (finish s ctx prepared (s.invoke prepared.messages llm_timeout_s)).0
        (finish s ctx prepared (s.invoke prepared.messages llm_timeout_s)).1
        (finish-IsRecorded prepared (s.invoke prepared.messages llm_timeout_s))

  by_retrieval-IsRecorded :
      (ir : IntentResult) (found : Option (List Chunk))
      → let (fx, outcome) =
          after_decision s ctx (retrieve ctx.retrieval_query ∷ [], decide_found s ctx ir found) in
        IsRecorded fx outcome
  by_retrieval-IsRecorded ir none = (refl, refl, inl refl)
  by_retrieval-IsRecorded ir (some chunks) =
      retrieve-IsRecorded ctx.retrieval_query
        (invoke_and_finalize s ctx (decide_retrieved s ctx ir chunks)).0
        (invoke_and_finalize s ctx (decide_retrieved s ctx ir chunks)).1
        (invoke_and_finalize-IsRecorded (decide_retrieved s ctx ir chunks))

  by_intent-IsRecorded :
      (ir : IntentResult) (i : Intent)
      → let (fx, outcome) = after_decision s ctx (decide_by_intent s ctx ir i) in
        IsRecorded fx outcome
  by_intent-IsRecorded ir Intent.off_topic =
      invoke_and_finalize-IsRecorded (prepare_off_topic ctx ir)
  by_intent-IsRecorded ir Intent.in_domain =
      by_retrieval-IsRecorded ir (s.search ctx.retrieval_query top_k ctx.parsed.user_tier)

handle_parsed-IsRecorded :
    (s : Services) (p : Parsed) → let (fx, outcome) = handle_parsed s p in IsRecorded fx outcome
unfolding decide_mode
handle_parsed-IsRecorded s (rejected e) = (refl, refl, inl refl)
handle_parsed-IsRecorded s (accepted parsed) =
    let ctx = make_context s parsed in
    let ir = classify_intent s ctx.retrieval_query (classifier_suspected s parsed) in
    let run = after_decision s ctx (decide_by_intent s ctx ir ir.intent) in
    classify-IsRecorded ctx.retrieval_query (classifier_suspected s parsed) run.0 run.1
      (by_intent-IsRecorded s ctx ir ir.intent)

-- Every run of the blocking endpoint is recorded as `IsRecorded` says, whatever the request and
-- whatever the services answer.
pub post_generate-IsRecorded :
    (s : Services) (payload : Payload) (headers : Headers)
    → let (fx, outcome) = post_generate s payload headers in IsRecorded fx outcome
unfolding post_generate
post_generate-IsRecorded s payload headers =
    handle_parsed-IsRecorded s (parse_request payload headers)
