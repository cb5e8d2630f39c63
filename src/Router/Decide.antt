-- ===== src/Router/Decide.antt =====
-- `_decide_mode` of generate/router.py: retrieval, access filter, score test.
use archiviste_nocilia.Prelude.{
  ℕ, String, ◌&&◌, Option, none, some, List, [], ◌∷◌, if◌then◌else◌, is_empty, leb,
}
use archiviste_nocilia.Prelude.Int.{ℤ, pos, ltb_ℤ}
use archiviste_nocilia.Chunk.{Chunk}
use archiviste_nocilia.Acl.{filter_chunks_by_tier}
use archiviste_nocilia.Prompt.{
  build_messages, build_off_topic_messages, build_mystery_messages, build_lore_gap_messages,
}
use archiviste_nocilia.Services.{Services}
use archiviste_nocilia.Intent.{Intent, IntentResult}
use archiviste_nocilia.Request.{GenerateError}
use archiviste_nocilia.Pipeline.{Mode, Effect, retrieve, Context, PreparedMode}
use archiviste_nocilia.Router.Contexts.{top_k, lore_gap_threshold}

-- `max((c.score for c in chunks), default=0.0)`
unfoldable pub max_from : ℤ → List Chunk → ℤ
max_from m [] = m
max_from m (c ∷ chunks) = max_from (if ltb_ℤ m c.score then c.score else m) chunks

unfoldable pub max_score_of : List Chunk → ℤ
unfolding max_from
max_score_of [] = pos 0
max_score_of (c ∷ chunks) = max_from c.score chunks

-- `_decide_mode` behind the retrieval.
unfoldable pub decide_retrieved : Services → Context → IntentResult → List Chunk → PreparedMode
unfolding max_score_of
decide_retrieved s ctx ir chunks =
    let acl = filter_chunks_by_tier chunks ctx.parsed.user_tier in
    let max_score = max_score_of acl.visible in
    if is_empty acl.visible && leb 1 acl.blocked_count
    then record {
      mode = Mode.mystery;
      messages = build_mystery_messages ctx.parsed.query ctx.suspected ctx.memory_messages;
      visible_chunks = [];
      retrieve_ms = s.retrieve_ms;
      max_score = pos 0;
      blocked_count = acl.blocked_count;
      intent_result = ir;
    }
    else if ltb_ℤ max_score lore_gap_threshold
    then record {
      mode = Mode.lore_gap;
      messages = build_lore_gap_messages ctx.parsed.query ctx.suspected ctx.memory_messages;
      visible_chunks = acl.visible;
      retrieve_ms = s.retrieve_ms;
      max_score = max_score;
      blocked_count = acl.blocked_count;
      intent_result = ir;
    }
    else record {
      mode = Mode.canon;
      messages = build_messages ctx.parsed.query acl.visible ctx.suspected ctx.memory_messages;
      visible_chunks = acl.visible;
      retrieve_ms = s.retrieve_ms;
      max_score = max_score;
      blocked_count = acl.blocked_count;
      intent_result = ir;
    }

-- A step of the handler: its effects, and a value or a `_GenerateError`.
pub data Outcome (A : Type 0) : Type 0 where
  returns : A → Outcome A
  raises : GenerateError → Outcome A

abbrev pub raise : {A : Type 0} → ℕ → String → Outcome A
raise status code = raises (record { status = status; code = code })

unfoldable pub prepare_off_topic : Context → IntentResult → PreparedMode
prepare_off_topic ctx ir = record {
  mode = Mode.off_topic;
  messages = build_off_topic_messages ctx.parsed.query ctx.suspected ctx.memory_messages;
  visible_chunks = [];
  retrieve_ms = 0;
  max_score = pos 0;
  blocked_count = 0;
  intent_result = ir;
}

abbrev pub decide_found :
    Services → Context → IntentResult → Option (List Chunk) → Outcome PreparedMode
decide_found s ctx ir none = raise 502 "retrieve_failed"
decide_found s ctx ir (some chunks) = returns (decide_retrieved s ctx ir chunks)

abbrev pub decide_by_intent :
    Services → Context → IntentResult → Intent → List Effect × Outcome PreparedMode
decide_by_intent s ctx ir Intent.off_topic = ([], returns (prepare_off_topic ctx ir))
decide_by_intent s ctx ir Intent.in_domain = (
  retrieve ctx.retrieval_query ∷ [],
  decide_found s ctx ir (s.search ctx.retrieval_query top_k ctx.parsed.user_tier),
)

unfoldable pub decide_mode : Services → Context → IntentResult → List Effect × Outcome PreparedMode
unfolding decide_retrieved prepare_off_topic
decide_mode s ctx ir = decide_by_intent s ctx ir ir.intent
