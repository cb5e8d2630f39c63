-- ===== src/Conversation.antt =====
-- workers/src/archiviste_workers/conversation/repository.py and models.py: the tables that index the
-- conversations, and the message that a turn comes in. A statement of SQL is a function on the tables.
pub mod Post
pub mod Ordinals
pub mod Course
pub mod Outcomes
mod Tests
use archiviste_nocilia.Prelude.{
  ℕ, ◌+◌, ◌-◌, ◌*◌, Text, Bool, true, false, not, ◌&&◌, ◌||◌, Option, none, some, List, [], ◌∷◌,
  ◌++◌, text_eq, leb, ltb, is_empty, if◌then◌else◌, codes,
}
use archiviste_nocilia.Prelude.Decimal.{utf8_length}
use archiviste_nocilia.Memory.{Role, StoredTurn}
use archiviste_nocilia.Request.{Field, has_surrogate}

-- A `datetime` in microseconds since 1970, naive ones read as UTC, with its `isoformat()`.
pub record Timestamp : Type 0 where
  pub at : ℕ
  pub iso : Text

-- One row of `conversations`.
pub record Conversation : Type 0 where
  pub id : Text
  pub user_id : Text
  pub created_at : Timestamp
  pub message_count : ℕ

-- `conversations` and `conversation_messages`
pub record Db : Type 0 where
  pub conversations : List Conversation
  pub messages : List StoredTurn

unfoldable pub find_conversation : Text → List Conversation → Option Conversation
find_conversation id [] = none
find_conversation id (c ∷ cs) = if text_eq c.id id then some c else find_conversation id cs

-- `_INSERT_OR_GET_SQL`: whether the row is new, and its `created_at`
abbrev pub insert_or_get :
    Text → Text → Timestamp → Db → Option Conversation → Db × (Bool × Timestamp)
insert_or_get id user_id created_at db (some c) = (db, (false, c.created_at))
insert_or_get id user_id created_at db none = (
  record db {
    conversations =
        db.conversations
        ++ record { id = id; user_id = user_id; created_at = created_at; message_count = 0 } ∷ [];
  },
  (true, created_at),
)

unfoldable pub create_if_absent : Text → Text → Timestamp → Db → Db × (Bool × Timestamp)
unfolding find_conversation
create_if_absent id user_id created_at db =
    insert_or_get id user_id created_at db (find_conversation id db.conversations)

-- `_INCREMENT_SQL`
unfoldable pub count_up : Text → List Conversation → List Conversation
count_up id [] = []
count_up id (c ∷ cs) =
    (if text_eq c.id id then record c { message_count = c.message_count + 1 } else c)
    ∷ count_up id cs

unfoldable pub count_of : Text → List Conversation → ℕ
count_of id [] = 0
count_of id (c ∷ cs) = if text_eq c.id id then c.message_count else count_of id cs

-- The tables and the new count; a row that is not there is an error of the caller.
unfoldable pub increment_message_count : Text → Db → Db × ℕ
unfolding count_up count_of
increment_message_count id db =
    let conversations = count_up id db.conversations in
    (record db { conversations = conversations }, count_of id conversations)

-- `_INSERT_MESSAGE_SQL`
unfoldable pub insert_message : Text → Role → ℕ → Text → ℕ → Db → Db
insert_message id role ordinal content token_count db = record db {
  messages =
      db.messages
      ++ record {
        conversation_id = id;
        row = record {
          role = role;
          ordinal = ordinal;
          content = content;
          token_count = token_count;
        };
      }
        ∷ [];
}

-- `MessageIn`
pub record MessageIn : Type 0 where
  pub role : Role
  pub content : Text
  pub timestamp : Timestamp
  pub user_id : Text

-- The JSON object, with the timestamp as pydantic reads it, if it does.
pub record Body : Type 0 where
  pub role : Field
  pub content : Field
  pub timestamp : Option Timestamp
  pub user_id : Field

abbrev pub max_content_bytes : ℕ
max_content_bytes = 16 * 1024

-- A message, or the status and the code of the error.
pub data ParsedBody : Type 0 where
  message : MessageIn → ParsedBody
  invalid : ℕ → Text → ParsedBody

abbrev parse_user : Role → Text → Timestamp → Field → ParsedBody
parse_user role content timestamp (Field.str u) =
    message (record { role = role; content = content; timestamp = timestamp; user_id = u })
parse_user role content timestamp _ = invalid 422 (codes "invalid_payload")

abbrev parse_timestamp : Role → Text → Body → Option Timestamp → ParsedBody
parse_timestamp role content body none = invalid 422 (codes "invalid_timestamp")
parse_timestamp role content body (some t) = parse_user role content t body.user_id

-- A text that cannot be encoded fails the validator as another value error does.
abbrev parse_content : Role → Body → Field → ParsedBody
parse_content role body (Field.str s) =
    if is_empty s || has_surrogate s
    then invalid 422 (codes "empty_content")
    else if ltb max_content_bytes (utf8_length s)
    then invalid 413 (codes "content_too_large")
    else parse_timestamp role s body body.timestamp
parse_content role body _ = invalid 422 (codes "empty_content")

abbrev parse_role : Body → Field → ParsedBody
parse_role body (Field.str r) =
    if text_eq r (codes "user")
    then parse_content Role.user body body.content
    else if text_eq r (codes "assistant")
    then parse_content Role.assistant body body.content
    else invalid 422 (codes "invalid_role")
parse_role body _ = invalid 422 (codes "invalid_role")

-- `_parse_body` of conversation/router.py: the first error in the order of the fields
unfoldable pub parse_body : Body → ParsedBody
unfolding text_eq has_surrogate utf8_length
parse_body body = parse_role body body.role
