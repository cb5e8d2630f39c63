-- ===== src/Stream/Agreement.antt =====
-- A stream does to the world what the blocking endpoint does.
use mathlib.Core.List.{flatten}
use archiviste_nocilia.Prelude.{
  ℕ, Text, ◌≡◌, refl, ◌∙◌, ap, inl, inr, some, List, [], ◌∷◌, ◌++◌, arith, Bool-cases, is_empty,
  leb, ◌&&◌, append_nil,
}
use archiviste_nocilia.Prelude.Int.{ℤ, pos, ltb_ℤ}
use archiviste_nocilia.Chunk.{Chunk}
use archiviste_nocilia.Acl.{filter_chunks_by_tier}
use archiviste_nocilia.Memory.{Message}
use archiviste_nocilia.Llm.{AiMessage, Reply, StreamReply, content_or_empty}
use archiviste_nocilia.Prompt.{
  build_messages, build_off_topic_messages, build_mystery_messages, build_lore_gap_messages,
}
use archiviste_nocilia.Services.{Services}
use archiviste_nocilia.Intent.{Intent, IntentResult}
use archiviste_nocilia.Pipeline.{
  Mode, SseEvent, retrieve, generate, emit, Context, PreparedMode, GenerationResult,
  finalize_generation, success_row, maybe_create_ticket,
}
use archiviste_nocilia.Pipeline.Finalized.{collect-append, silent_one, silent}
use archiviste_nocilia.Router.{after_decision}
use archiviste_nocilia.Router.Contexts.{lore_gap_threshold, top_k, llm_timeout_s}
use archiviste_nocilia.Router.Decide.{
  max_score_of, decide_retrieved, decide_by_intent, prepare_off_topic,
}
use archiviste_nocilia.Router.Finish.{finish, generation_result, build_usage, invoke_and_finalize}
use archiviste_nocilia.Stream.Branches.{
  build_stream_usage, combine_usage, emit_tokens, deliver, canon_reply, mystery_reply,
  stream_mystery, lore_gap_reply, stream_lore_gap, off_topic_reply, stream_off_topic,
}
use archiviste_nocilia.Stream.{stream_retrieved, stream_canon, stream_by_intent}

-- A stream and a call of the model that give the same answer: the parts joined are the content, and
-- the stream's last message has the counts of the call.
abbrev pub SameAnswer : Reply → StreamReply → Type 0
SameAnswer r sr =
    (m : AiMessage) × (parts : List Text) × (r ≡ Reply.message m)
    × (sr ≡ StreamReply.finished parts (some m))
    × (flatten parts ≡ content_or_empty m)

silent-tokens : (parts : List Text) → silent (emit_tokens parts) ≡ []
silent-tokens [] = refl
silent-tokens (p ∷ parts) = silent-tokens parts

silent-finalize :
    (s : Services) (ctx : Context) (prepared : PreparedMode) (result : GenerationResult)
    → silent (finalize_generation s ctx prepared result).0
      ≡ (finalize_generation s ctx prepared result).0
unfolding finalize_generation
silent-finalize s ctx prepared result = ground arith

-- A delivery without its events is the finalization.
silent-deliver :
    (s : Services) (ctx : Context) (prepared : PreparedMode) (result : GenerationResult)
    (parts : List Text)
    → silent (deliver s ctx prepared result parts) ≡ (finalize_generation s ctx prepared result).0
silent-deliver s ctx prepared result parts =
    let stored = (finalize_generation s ctx prepared result).0 in
    let done = emit (
      SseEvent.done result.citations result.usage prepared.retrieve_ms result.llm_ms
        result.followups) in
    grind (
      arith,
      collect-append silent_one (emit_tokens parts) (stored ++ done ∷ []),
      collect-append silent_one stored (done ∷ []),
      silent-tokens parts,
      silent-finalize s ctx prepared result,
      append_nil stored,
    )

finalize-same :
    (s : Services) (ctx : Context) (p p' : PreparedMode) (r r' : GenerationResult)
    → p.mode ≡ p'.mode
    → p.intent_result ≡ p'.intent_result
    → r.persisted_content ≡ r'.persisted_content
    → r.usage ≡ r'.usage
    → (finalize_generation s ctx p r).0 ≡ (finalize_generation s ctx p' r').0
unfolding finalize_generation success_row maybe_create_ticket
finalize-same s ctx p p' r r' hm hi hc hu = ground arith

module _ (s : Services) (ctx : Context) (ir : IntentResult) where
  canon-agrees :
      (messages : List Message) (visible : List Chunk) (score : ℤ) (blocked : ℕ) (r : Reply)
      (sr : StreamReply)
      → SameAnswer r sr
      → silent (canon_reply s ctx ir messages visible score blocked sr)
        ≡ (finish s ctx
            (record {
              mode = Mode.canon;
              messages = messages;
              visible_chunks = visible;
              retrieve_ms = s.retrieve_ms;
              max_score = score;
              blocked_count = blocked;
              intent_result = ir;
            })
            r).0
  unfolding build_stream_usage generation_result build_usage
  canon-agrees messages visible score blocked r sr (m, parts, e, e', c) =
      rw (e, e') (silent-deliver s ctx _ _ parts ∙ finalize-same s ctx _ _ _ _ refl refl c refl)

  mystery-agrees :
      (messages : List Message) (blocked : ℕ) (r : Reply) (sr : StreamReply)
      → SameAnswer r sr
      → silent (mystery_reply s ctx ir messages blocked sr)
        ≡ (finish s ctx
            (record {
              mode = Mode.mystery;
              messages = messages;
              visible_chunks = [];
              retrieve_ms = s.retrieve_ms;
              max_score = pos 0;
              blocked_count = blocked;
              intent_result = ir;
            })
            r).0
  unfolding build_stream_usage generation_result build_usage
  mystery-agrees messages blocked r sr (m, parts, e, e', c) =
      rw (e, e') (silent-deliver s ctx _ _ parts ∙ finalize-same s ctx _ _ _ _ refl refl c refl)

  lore_gap-agrees :
      (messages : List Message) (visible : List Chunk) (blocked : ℕ) (r : Reply) (sr : StreamReply)
      → SameAnswer r sr
      → silent (lore_gap_reply s ctx ir messages visible sr)
        ≡ (finish s ctx
            (record {
              mode = Mode.lore_gap;
              messages = messages;
              visible_chunks = visible;
              retrieve_ms = s.retrieve_ms;
              max_score = max_score_of visible;
              blocked_count = blocked;
              intent_result = ir;
            })
            r).0
  unfolding combine_usage generation_result build_usage
  lore_gap-agrees messages visible blocked r sr (m, parts, e, e', c) =
      rw (e, e') (silent-deliver s ctx _ _ parts ∙ finalize-same s ctx _ _ _ _ refl refl c refl)

  off_topic-agrees :
      (messages : List Message) (r : Reply) (sr : StreamReply)
      → SameAnswer r sr
      → silent (off_topic_reply s ctx ir messages sr)
        ≡ (finish s ctx
            (record {
              mode = Mode.off_topic;
              messages = messages;
              visible_chunks = [];
              retrieve_ms = 0;
              max_score = pos 0;
              blocked_count = 0;
              intent_result = ir;
            })
            r).0
  unfolding combine_usage generation_result build_usage
  off_topic-agrees messages r sr (m, parts, e, e', c) =
      rw (e, e') (silent-deliver s ctx _ _ parts ∙ finalize-same s ctx _ _ _ _ refl refl c refl)

module _ (s : Services) (ctx : Context) (ir : IntentResult)
    (same : (messages : List Message)
      → SameAnswer (s.invoke messages llm_timeout_s) (s.astream messages)) where
  retrieved-agrees :
      (chunks : List Chunk)
      → silent (stream_retrieved s ctx ir chunks)
        ≡ (invoke_and_finalize s ctx (decide_retrieved s ctx ir chunks)).0
  unfolding stream_retrieved stream_mystery stream_lore_gap decide_retrieved invoke_and_finalize
  retrieved-agrees chunks =
      let acl = filter_chunks_by_tier chunks ctx.parsed.user_tier in
      elim (Bool-cases (is_empty acl.visible && leb 1 acl.blocked_count)) [
        | inl e ↦ rw e (
            let messages =
              build_mystery_messages ctx.parsed.query ctx.suspected ctx.memory_messages in
            ap (λ fx. generate messages ∷ fx)
              (mystery-agrees s ctx ir messages acl.blocked_count (s.invoke messages llm_timeout_s)
                (s.astream messages) (same messages)))
        | inr e ↦ rw e (elim (Bool-cases (ltb_ℤ (max_score_of acl.visible) lore_gap_threshold)) [
          | inl l ↦ rw l (
              let messages =
                build_lore_gap_messages ctx.parsed.query ctx.suspected ctx.memory_messages in
              ap (λ fx. generate messages ∷ fx)
                (lore_gap-agrees s ctx ir messages acl.visible acl.blocked_count
                  (s.invoke messages llm_timeout_s) (s.astream messages) (same messages)))
          | inr l ↦ rw l (
              let messages =
                build_messages ctx.parsed.query acl.visible ctx.suspected ctx.memory_messages in
              ap (λ fx. generate messages ∷ fx)
                (canon-agrees s ctx ir messages acl.visible (max_score_of acl.visible)
                  acl.blocked_count (s.invoke messages llm_timeout_s) (s.astream messages)
                  (same messages)))
        ])
      ]

  -- Where the search finds chunks and the streaming model gives the answer that the blocking call
  -- gives, the stream without its events is what the blocking endpoint does: the same prompts, turns, tickets
  -- and rows, in the same order.
  pub stream_by_intent-agrees :
      (chunks : List Chunk) (i : Intent)
      → s.search ctx.retrieval_query top_k ctx.parsed.user_tier ≡ some chunks
      → silent (stream_by_intent s ctx ir i)
        ≡ (after_decision s ctx (decide_by_intent s ctx ir i)).0
  unfolding stream_canon stream_off_topic invoke_and_finalize prepare_off_topic
  stream_by_intent-agrees chunks Intent.off_topic h =
      let messages = build_off_topic_messages ctx.parsed.query ctx.suspected ctx.memory_messages in
      ap (λ fx. generate messages ∷ fx)
        (off_topic-agrees s ctx ir messages (s.invoke messages llm_timeout_s) (s.astream messages)
          (same messages))
  stream_by_intent-agrees chunks Intent.in_domain h =
      rw h (ap (λ fx. retrieve ctx.retrieval_query ∷ fx) (retrieved-agrees chunks))
