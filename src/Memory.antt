-- ===== src/Memory.antt =====
-- workers/src/archiviste_workers/generate/memory.py, and the owner-scoped tail read of
-- conversation/repository.py. A store is a list of conversations with their owners and a list of
-- turns; the read is the query `_TAIL_OWNED_SQL`. Token counts and the budget are naturals: a
-- negative budget takes the return of a budget of 0.
pub mod Window
mod Tests
use mathlib.Core.List.{reverse}
use archiviste_nocilia.Prelude.{
  ℕ, ◌+◌, Text, Bool, true, false, ◌&&◌, ◌||◌, Option, none, some, List, [], ◌∷◌, ◌++◌, map,
  text_eq, ltb, leb, eqb, if◌then◌else◌, filter, take, is_empty,
}

pub data Role : Type 0 where
  user assistant : Role

abbrev pub is_assistant : Role → Bool
is_assistant user = false
is_assistant assistant = true

-- The messages of langchain_core that the prompts are made of.
pub data Message : Type 0 where
  system human ai : Text → Message

pub record MessageRow : Type 0 where
  pub role : Role
  pub ordinal : ℕ
  pub content : Text
  pub token_count : ℕ

-- One row of `conversation_messages`.
pub record StoredTurn : Type 0 where
  pub conversation_id : Text
  pub row : MessageRow

-- One row of `conversations`.
pub record ConversationRow : Type 0 where
  pub id : Text
  pub user_id : Text

pub record TurnStore : Type 0 where
  pub conversations : List ConversationRow
  pub turns : List StoredTurn

pub record MemoryWindow : Type 0 where
  pub messages : List Message
  pub last_user_turn : Option Text

abbrev pub empty_window : MemoryWindow
empty_window = record { messages = []; last_user_turn = none }

abbrev pub memory_max_turns : ℕ
memory_max_turns = 50

-- `JOIN conversations c ... WHERE c.user_id = $2`; `id` is the primary key
unfoldable pub is_owner : List ConversationRow → Text → Text → Bool
is_owner [] conversation_id user_id = false
is_owner (c ∷ cs) conversation_id user_id =
    (text_eq c.id conversation_id && text_eq c.user_id user_id)
    || is_owner cs conversation_id user_id

-- `ORDER BY cm.ordinal DESC`
pub insert_desc : MessageRow → List MessageRow → List MessageRow
insert_desc r [] = r ∷ []
insert_desc r (s ∷ rows) = if leb s.ordinal r.ordinal then r ∷ s ∷ rows else s ∷ insert_desc r rows

pub order_desc : List MessageRow → List MessageRow
unfolding insert_desc
order_desc [] = []
order_desc (r ∷ rows) = insert_desc r (order_desc rows)

abbrev pub of_conversation : Text → StoredTurn → Bool
of_conversation conversation_id t = text_eq t.conversation_id conversation_id

unfoldable pub fetch_tail_owned : TurnStore → Text → Text → ℕ → List MessageRow
unfolding is_owner order_desc
fetch_tail_owned store conversation_id user_id limit =
    if is_owner store.conversations conversation_id user_id
    then take limit
        (order_desc (map (λ t. t.row) (filter (of_conversation conversation_id) store.turns)))
    else []

-- The loop, with the running total and the rows selected so far.
pub select_loop : ℕ → ℕ → List MessageRow → List MessageRow → List MessageRow
select_loop budget total selected [] = selected
select_loop budget total selected (row ∷ rows) =
    let rest = select_loop budget (total + row.token_count) (selected ++ row ∷ []) rows in
    if ltb budget (total + row.token_count) then selected else rest

unfoldable pub select_within_budget : List MessageRow → ℕ → List MessageRow
unfolding select_loop
select_within_budget rows_newest_first budget = select_loop budget 0 [] rows_newest_first

-- `while chronological and chronological[0].role == "assistant": chronological.pop(0)`
unfoldable pub pop_assistants : List MessageRow → List MessageRow
pop_assistants [] = []
pop_assistants (row ∷ rows) =
    let popped = pop_assistants rows in if is_assistant row.role then popped else row ∷ rows

unfoldable pub to_message : MessageRow → Message
to_message row = if is_assistant row.role then Message.ai row.content else Message.human row.content

unfoldable pub render : List MessageRow → List Message
unfolding pop_assistants to_message
render selected_newest_first = map to_message (pop_assistants (reverse selected_newest_first))

unfoldable pub last_user_turn_of : List MessageRow → Option Text
last_user_turn_of [] = none
last_user_turn_of (row ∷ rows) =
    if is_assistant row.role then last_user_turn_of rows else some row.content

-- `repo` is `None` where no store is wired.
unfoldable pub load_memory_window : Option TurnStore → Text → Text → ℕ → MemoryWindow
unfolding fetch_tail_owned select_within_budget render last_user_turn_of
load_memory_window none conversation_id user_id token_budget = empty_window
load_memory_window (some store) conversation_id user_id token_budget =
    if eqb token_budget 0
    then empty_window
    else (let rows = fetch_tail_owned store conversation_id user_id memory_max_turns in
        if is_empty rows then empty_window else record {
          messages = render (select_within_budget rows token_budget);
          last_user_turn = last_user_turn_of rows;
        })
