-- ===== src/Router/Zones.antt =====
-- Which texts a prompt can have in the system role: the constants of generate/prompt.py and of
-- services/intent.py, whatever the caller sends, the conversation holds or the search returns.
use archiviste_nocilia.Prelude.{
  ℕ, Text, ◌≡◌, refl, ap, List, [], ◌∷◌, ◌++◌, All, Option, none, some, eqb, is_empty, Bool-cases,
  inl, inr, leb, ◌&&◌,
}
use archiviste_nocilia.Prelude.Int.{ltb_ℤ}
use archiviste_nocilia.Chunk.{Chunk}
use archiviste_nocilia.Acl.{filter_chunks_by_tier}
use archiviste_nocilia.Memory.{
  Message, TurnStore, load_memory_window, memory_max_turns, fetch_tail_owned, select_within_budget,
}
use archiviste_nocilia.Memory.Window.{IsTurn, render_lem}
use archiviste_nocilia.Prompt.{
  assemble, build_messages, build_off_topic_messages, build_mystery_messages,
  build_lore_gap_messages,
}
use archiviste_nocilia.Prompt.Texts.{
  system_prompt, off_topic_system_prompt, lore_gap_system_prompt, mystery_system_prompt,
}
use archiviste_nocilia.Services.{Services}
use archiviste_nocilia.Intent.{Intent, IntentResult}
use archiviste_nocilia.Request.{GenerateRequest}
use archiviste_nocilia.Pipeline.{Mode, Context, PreparedMode}
use archiviste_nocilia.Router.Contexts.{make_context, or_new, lore_gap_threshold, top_k}
use archiviste_nocilia.Router.Decide.{
  Outcome, returns, raises, max_score_of, decide_retrieved, decide_found, decide_by_intent,
  decide_mode, prepare_off_topic,
}

-- The texts in the system role.
abbrev pub system_texts : List Message → List Text
system_texts [] = []
system_texts (Message.system t ∷ ms) = t ∷ system_texts ms
system_texts (Message.human t ∷ ms) = system_texts ms
system_texts (Message.ai t ∷ ms) = system_texts ms

abbrev pub mode_prompt : Mode → Text
mode_prompt Mode.canon = system_prompt
mode_prompt Mode.off_topic = off_topic_system_prompt
mode_prompt Mode.lore_gap = lore_gap_system_prompt
mode_prompt Mode.mystery = mystery_system_prompt

turns-system_texts :
    (ms : List Message) (u : Text) → All IsTurn ms → system_texts (ms ++ Message.human u ∷ []) ≡ []
turns-system_texts [] u h = refl
turns-system_texts (Message.system t ∷ ms) u h = absurd h.0
turns-system_texts (Message.human t ∷ ms) u h = turns-system_texts ms u h.1
turns-system_texts (Message.ai t ∷ ms) u h = turns-system_texts ms u h.1

-- A prompt has its own system text and no other, if the history is made of turns.
assemble-system_texts :
    (t u : Text) (ms : List Message) → All IsTurn ms → system_texts (assemble t u ms) ≡ t ∷ []
unfolding assemble
assemble-system_texts t u ms h = ap (λ ts. t ∷ ts) (turns-system_texts ms u h)

load_memory_window-IsTurn :
    (repo : Option TurnStore) (conversation_id user_id : Text) (budget : ℕ)
    → All IsTurn (load_memory_window repo conversation_id user_id budget).messages
unfolding load_memory_window
load_memory_window-IsTurn none conversation_id user_id budget = tt
load_memory_window-IsTurn (some store) conversation_id user_id budget =
    let tail = fetch_tail_owned store conversation_id user_id memory_max_turns in
    elim (Bool-cases (eqb budget 0)) [
      | inl e ↦ rw e tt
      | inr e ↦ rw e (elim (Bool-cases (is_empty tail)) [
        | inl n ↦ rw n tt
        | inr n ↦ rw n (render_lem (select_within_budget tail budget)).1
      ])
    ]

abbrev pub IsZoned : Outcome PreparedMode → Type 0
IsZoned (raises e) = Unit
IsZoned (returns p) = system_texts p.messages ≡ mode_prompt p.mode ∷ []

module _ (s : Services) (ctx : Context) (h : All IsTurn ctx.memory_messages)
    (ir : IntentResult) where
  decide_retrieved-IsZoned :
      (chunks : List Chunk) → IsZoned (returns (decide_retrieved s ctx ir chunks))
  unfolding decide_retrieved build_messages build_mystery_messages build_lore_gap_messages
  decide_retrieved-IsZoned chunks =
      let acl = filter_chunks_by_tier chunks ctx.parsed.user_tier in
      elim (Bool-cases (is_empty acl.visible && leb 1 acl.blocked_count)) [
        | inl e ↦ rw e (assemble-system_texts _ _ ctx.memory_messages h)
        | inr e ↦ rw e (elim (Bool-cases (ltb_ℤ (max_score_of acl.visible) lore_gap_threshold)) [
          | inl l ↦ rw l (assemble-system_texts _ _ ctx.memory_messages h)
          | inr l ↦ rw l (assemble-system_texts _ _ ctx.memory_messages h)
        ])
      ]

  decide_found-IsZoned : (found : Option (List Chunk)) → IsZoned (decide_found s ctx ir found)
  decide_found-IsZoned none = tt
  decide_found-IsZoned (some chunks) = decide_retrieved-IsZoned chunks

  decide_by_intent-IsZoned : (i : Intent) → IsZoned (decide_by_intent s ctx ir i).1
  unfolding prepare_off_topic build_off_topic_messages
  decide_by_intent-IsZoned Intent.off_topic = assemble-system_texts _ _ ctx.memory_messages h
  decide_by_intent-IsZoned Intent.in_domain =
      decide_found-IsZoned (s.search ctx.retrieval_query top_k ctx.parsed.user_tier)

-- Whatever the request, the store, the classifier and the search give, the prompt that is prepared
-- has one message in the system role, and its text is the constant of the mode.
pub decide_mode-IsZoned :
    (s : Services) (parsed : GenerateRequest) (ir : IntentResult)
    → IsZoned (decide_mode s (make_context s parsed) ir).1
unfolding decide_mode make_context
decide_mode-IsZoned s parsed ir =
    decide_by_intent-IsZoned s (make_context s parsed)
      (load_memory_window-IsTurn s.conversation_repo (or_new parsed.conversation_id s.new_uuid)
        parsed.user_id s.token_budget)
      ir ir.intent
