-- ===== src/Router/Contexts.antt =====
-- generate/router.py: the context of a request, read before any call of a model, and its bounds.
use archiviste_nocilia.Prelude.{
  ℕ, Text, Bool, false, ◌||◌, Option, none, some, ◌∷◌, ◌++◌, if◌then◌else◌, is_empty,
}
use archiviste_nocilia.Prelude.Int.{ℤ, pos}
use archiviste_nocilia.Memory.{MemoryWindow, load_memory_window}
use archiviste_nocilia.Injection.{detect_injection}
use archiviste_nocilia.Services.{Services}
use archiviste_nocilia.Request.{GenerateRequest}
use archiviste_nocilia.Pipeline.{Context}

abbrev pub top_k : ℕ
top_k = 5

-- The timeout that `invoke` has by default, in seconds.
abbrev pub llm_timeout_s : ℕ
llm_timeout_s = 30

-- 0.45
abbrev pub lore_gap_threshold : ℤ
lore_gap_threshold = pos 450000

-- `f"{window.last_user_turn}\n{parsed.query}" if window.last_user_turn else parsed.query`
unfoldable pub augment : Option Text → Text → Text
augment none query = query
augment (some turn) query = if is_empty turn then query else turn ++ 10 ∷ query

abbrev pub suspects_history : Option Text → Bool
suspects_history none = false
suspects_history (some turn) = detect_injection turn

abbrev pub or_new : Option Text → Text → Text
or_new none fresh = fresh
or_new (some c) fresh = c

-- The window of the conversation, for the owner.
abbrev pub window_of : Services → GenerateRequest → MemoryWindow
window_of s parsed =
    load_memory_window s.conversation_repo (or_new parsed.conversation_id s.new_uuid) parsed.user_id
      s.token_budget

unfoldable pub make_context : Services → GenerateRequest → Context
unfolding augment
make_context s parsed =
    let window = window_of s parsed in
    record {
      parsed = parsed;
      conversation_id = or_new parsed.conversation_id s.new_uuid;
      suspected = detect_injection parsed.query;
      memory_messages = window.messages;
      retrieval_query = augment window.last_user_turn parsed.query;
    }

-- What the classifier is told about injections.
unfoldable pub classifier_suspected : Services → GenerateRequest → Bool
classifier_suspected s parsed =
    detect_injection parsed.query || suspects_history (window_of s parsed).last_user_turn
