-- ===== src/Stream/Endings.antt =====
-- Every run of the stream ends in one of two ways.
use archiviste_nocilia.Prelude.{
  ℕ, ◌⊎◌, refl, inl, inr, Option, none, some, List, ◌∷◌, Bool-cases, is_empty, leb, ◌&&◌,
}
use archiviste_nocilia.Prelude.Int.{ltb_ℤ}
use archiviste_nocilia.Chunk.{Chunk}
use archiviste_nocilia.Memory.{Message}
use archiviste_nocilia.Llm.{StreamReply}
use archiviste_nocilia.Prompt.{
  build_messages, build_off_topic_messages, build_mystery_messages, build_lore_gap_messages,
}
use archiviste_nocilia.Acl.{filter_chunks_by_tier}
use archiviste_nocilia.Services.{Services}
use archiviste_nocilia.Intent.{Intent, IntentResult, classify_intent}
use archiviste_nocilia.Request.{GenerateRequest}
use archiviste_nocilia.Pipeline.{Mode, StreamErrorCode, retrieve, generate, Context}
use archiviste_nocilia.Router.Contexts.{
  lore_gap_threshold, top_k, make_context, classifier_suspected,
}
use archiviste_nocilia.Router.Decide.{max_score_of}
use archiviste_nocilia.Stream.Branches.{
  insert_failure_log, emit_meta, canon_reply, mystery_reply, stream_mystery, lore_gap_reply,
  stream_lore_gap, off_topic_reply, stream_off_topic,
}
use archiviste_nocilia.Stream.{
  stream_retrieved, stream_found, stream_canon, stream_by_intent, stream_generate, stream_accepted,
}
use archiviste_nocilia.Prelude.Int.{ℤ}
use archiviste_nocilia.Stream.Grammar.{Delivers, Fails, deliver-Delivers}

-- Every way the branches end.
module _ (s : Services) (ctx : Context) (ir : IntentResult) where
  canon_reply-ends :
      (messages : List Message) (visible : List Chunk) (max_score : ℤ) (blocked : ℕ)
      (r : StreamReply)
      → let fx =
          emit_meta ctx Mode.canon
          ∷ generate messages
          ∷ canon_reply s ctx ir messages visible max_score blocked r in
        Delivers ctx fx ⊎ Fails ctx fx
  unfolding insert_failure_log
  canon_reply-ends messages visible max_score blocked (StreamReply.timed_out parts) =
      inr (StreamErrorCode.llm_timeout, inl (Mode.canon, refl), refl, refl, refl)
  canon_reply-ends messages visible max_score blocked (StreamReply.broken parts status) =
      inr (StreamErrorCode.llm_upstream, inl (Mode.canon, refl), refl, refl, refl)
  canon_reply-ends messages visible max_score blocked (StreamReply.finished parts final_message) =
      inl (deliver-Delivers s ctx _ _ parts messages refl)

  mystery_reply-ends :
      (messages : List Message) (blocked : ℕ) (r : StreamReply)
      → let fx =
          emit_meta ctx Mode.mystery
          ∷ generate messages
          ∷ mystery_reply s ctx ir messages blocked r in
        Delivers ctx fx ⊎ Fails ctx fx
  unfolding insert_failure_log
  mystery_reply-ends messages blocked (StreamReply.timed_out parts) =
      inr (StreamErrorCode.llm_timeout, inl (Mode.mystery, refl), refl, refl, refl)
  mystery_reply-ends messages blocked (StreamReply.broken parts status) =
      inr (StreamErrorCode.llm_upstream, inl (Mode.mystery, refl), refl, refl, refl)
  mystery_reply-ends messages blocked (StreamReply.finished parts final_message) =
      inl (deliver-Delivers s ctx _ _ parts messages refl)

  lore_gap_reply-ends :
      (messages : List Message) (chunks : List Chunk) (r : StreamReply)
      → let fx =
          emit_meta ctx Mode.lore_gap
          ∷ generate messages
          ∷ lore_gap_reply s ctx ir messages chunks r in
        Delivers ctx fx ⊎ Fails ctx fx
  unfolding insert_failure_log
  lore_gap_reply-ends messages chunks (StreamReply.timed_out parts) =
      inr (StreamErrorCode.llm_timeout, inl (Mode.lore_gap, refl), refl, refl, refl)
  lore_gap_reply-ends messages chunks (StreamReply.broken parts status) =
      inr (StreamErrorCode.llm_upstream, inl (Mode.lore_gap, refl), refl, refl, refl)
  lore_gap_reply-ends messages chunks (StreamReply.finished parts final_message) =
      inl (deliver-Delivers s ctx _ _ parts messages refl)

  off_topic_reply-ends :
      (messages : List Message) (r : StreamReply)
      → let fx =
          emit_meta ctx Mode.off_topic ∷ generate messages ∷ off_topic_reply s ctx ir messages r in
        Delivers ctx fx ⊎ Fails ctx fx
  unfolding insert_failure_log
  off_topic_reply-ends messages (StreamReply.timed_out parts) =
      inr (StreamErrorCode.llm_timeout, inl (Mode.off_topic, refl), refl, refl, refl)
  off_topic_reply-ends messages (StreamReply.broken parts status) =
      inr (StreamErrorCode.llm_upstream, inl (Mode.off_topic, refl), refl, refl, refl)
  off_topic_reply-ends messages (StreamReply.finished parts final_message) =
      inl (deliver-Delivers s ctx _ _ parts messages refl)

  stream_retrieved-ends :
      (chunks : List Chunk)
      → Delivers ctx (stream_retrieved s ctx ir chunks)
        ⊎ Fails ctx (stream_retrieved s ctx ir chunks)
  unfolding stream_retrieved stream_mystery stream_lore_gap
  stream_retrieved-ends chunks =
      let acl = filter_chunks_by_tier chunks ctx.parsed.user_tier in
      elim (Bool-cases (is_empty acl.visible && leb 1 acl.blocked_count)) [
        | inl e ↦ rw e (
            let messages =
              build_mystery_messages ctx.parsed.query ctx.suspected ctx.memory_messages in
            mystery_reply-ends messages acl.blocked_count (s.astream messages))
        | inr e ↦ rw e (elim (Bool-cases (ltb_ℤ (max_score_of acl.visible) lore_gap_threshold)) [
          | inl l ↦ rw l (
              let messages =
                build_lore_gap_messages ctx.parsed.query ctx.suspected ctx.memory_messages in
              lore_gap_reply-ends messages acl.visible (s.astream messages))
          | inr l ↦ rw l (
              let messages =
                build_messages ctx.parsed.query acl.visible ctx.suspected ctx.memory_messages in
              canon_reply-ends messages acl.visible (max_score_of acl.visible) acl.blocked_count
                (s.astream messages))
        ])
      ]

  -- A call of the search adds nothing that the views see.
  stream_found-ends :
      (found : Option (List Chunk))
      → let fx = retrieve ctx.retrieval_query ∷ stream_found s ctx ir found in
        Delivers ctx fx ⊎ Fails ctx fx
  unfolding insert_failure_log
  stream_found-ends none = inr (StreamErrorCode.retrieve_failed, inr (refl, refl), refl, refl, refl)
  stream_found-ends (some chunks) = stream_retrieved-ends chunks

  stream_by_intent-ends :
      (i : Intent)
      → Delivers ctx (stream_by_intent s ctx ir i) ⊎ Fails ctx (stream_by_intent s ctx ir i)
  unfolding stream_canon stream_off_topic
  stream_by_intent-ends Intent.off_topic =
      let messages = build_off_topic_messages ctx.parsed.query ctx.suspected ctx.memory_messages in
      off_topic_reply-ends messages (s.astream messages)
  stream_by_intent-ends Intent.in_domain =
      stream_found-ends (s.search ctx.retrieval_query top_k ctx.parsed.user_tier)

-- Every stream that starts ends in one of two ways. Either the answer is delivered as `Delivers`
-- says, or the run fails as `Fails` says.
pub stream_accepted-ends :
    (s : Services) (parsed : GenerateRequest)
    → let ctx = make_context s parsed in
      Delivers ctx (stream_accepted s parsed) ⊎ Fails ctx (stream_accepted s parsed)
unfolding stream_generate
stream_accepted-ends s parsed =
    let ctx = make_context s parsed in
    let ir = classify_intent s ctx.retrieval_query (classifier_suspected s parsed) in
    stream_by_intent-ends s ctx ir ir.intent
