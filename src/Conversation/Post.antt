-- ===== src/Conversation/Post.antt =====
-- workers/src/archiviste_workers/conversation/router.py: POST /v1/conversations/{id}/messages. The object of the
-- conversation and the tables are the state; what may fail, fails as the run says.
use archiviste_nocilia.Prelude.{
  ℕ, ◌+◌, ◌-◌, Text, Bool, Option, none, some, List, ◌++◌, ltb, if◌then◌else◌, codes,
}
use archiviste_nocilia.Memory.{Role}
use archiviste_nocilia.Request.{is_valid_uuid}
use archiviste_nocilia.Storage.{
  Object, Network, World, Written, attempts, max_attempts, Created, upload_header,
}
use archiviste_nocilia.Conversation.{
  Timestamp, Db, create_if_absent, increment_message_count, insert_message, MessageIn, Body,
  message, invalid, ParsedBody, parse_body,
}

-- How `create_if_absent` ends: well, in an UnknownUserError, or in another error of the database.
pub data Inserting : Type 0 where
  inserts unknown_user db_raises : Inserting

-- What one request meets. The calls of the storage take their ticks from the same world: the header
-- of a new conversation before tick 0, the first append from tick 0 on, the header of the self-heal
-- behind it, and the second append from tick 10 on.
pub record Run : Type 0 where
  pub now : ℕ
  pub inserting : Inserting
  pub world : World
  pub header_upload : Network
  pub header_reload : Network
  pub heal_upload : Network
  pub heal_reload : Network
  -- the generation that the store gives a new object
  pub fresh : ℕ
  pub encode : Text → List ℕ
  pub increment_works : Bool
  -- `none` is an error of the tokenizer
  pub count_tokens : Text → Option ℕ
  pub insert_works : Bool

pub record State : Type 0 where
  pub db : Db
  pub object : Option Object

-- `message_count` is -1 where the counter was not updated, and `none` here.
pub data Response : Type 0 where
  stored : Option ℕ → ℕ → Response
  error : ℕ → Text → Response
  crash : Response

abbrev pub future_tolerance : ℕ
future_tolerance = 300000000

abbrev role_text : Role → Text
role_text Role.user = codes "user"
role_text Role.assistant = codes "assistant"

-- `_HEADER_TEMPLATE` and `_BLOCK_TEMPLATE`
unfoldable pub header_text : Text → Timestamp → Text → Text
header_text id created_at user_id =
    codes "# Conversation "
    ++ (id
        ++ (codes "\n\nCreated: "
            ++ (created_at.iso ++ (codes "\nUser: " ++ (user_id ++ codes "\n\n---\n")))))

unfoldable pub block_text : MessageIn → Text
block_text m =
    codes "## ["
    ++ (m.timestamp.iso
        ++ (codes "] " ++ (role_text m.role ++ (codes "\n" ++ (m.content ++ codes "\n\n")))))

-- An append, or the error that leaves `_append_block`.
pub data Appended : Type 0 where
  appended_at : ℕ → Appended
  append_error : ℕ → Text → Appended
  append_crash : Appended

abbrev pub storage_error : Appended
storage_error = append_error 503 (codes "storage_unavailable")

abbrev pub concurrent_error : Appended
concurrent_error = append_error 409 (codes "concurrent_write")

-- The end of the second append: nothing catches an object that is missing again.
abbrev pub second_ends : Option Object × Written → Option Object × Appended
second_ends (o, Written.written generation size) = (o, appended_at generation)
second_ends (o, Written.object_missing) = (o, append_crash)
second_ends (o, Written.storage_unavailable) = (o, storage_error)
second_ends (o, Written.concurrent_write) = (o, concurrent_error)
second_ends (o, Written.uncaught) = (o, append_crash)

module _ (run : Run) (block : List ℕ) (header : List ℕ) where
  -- An object that exists already is as good as one just made.
  abbrev pub after_heal : Option Object × Created → Option Object × Appended
  after_heal (o, Created.created _) = second_ends (attempts run.world block max_attempts 10 o)
  after_heal (o, Created.already_exists) = second_ends (attempts run.world block max_attempts 10 o)
  after_heal (o, Created.create_unavailable) = (o, storage_error)
  after_heal (o, Created.create_uncaught) = (o, append_crash)

  abbrev pub first_ends : Option Object × Written → Option Object × Appended
  first_ends (o, Written.written generation size) = (o, appended_at generation)
  first_ends (o, Written.object_missing) =
      after_heal
        (upload_header run.heal_upload run.heal_reload run.fresh header (run.world.others 8 o))
  first_ends (o, Written.storage_unavailable) = (o, storage_error)
  first_ends (o, Written.concurrent_write) = (o, concurrent_error)
  first_ends (o, Written.uncaught) = (o, append_crash)

  -- `_append_block`
  unfoldable pub append_block : Option Object → Option Object × Appended
  unfolding attempts upload_header
  append_block o = first_ends (attempts run.world block max_attempts 0 o)

-- `_insert_message_best_effort`
abbrev pub insert_best_effort : Run → Text → MessageIn → ℕ → Db → Option ℕ → Db
insert_best_effort run id m ordinal db none = db
insert_best_effort run id m ordinal db (some tokens) =
    if run.insert_works then insert_message id m.role ordinal m.content tokens db else db

-- The tables behind the append, and the count of the response.
unfoldable pub record_turn : Run → Text → MessageIn → Db → Db × Option ℕ
unfolding increment_message_count insert_message
record_turn run id m db =
    let (counted, count) = increment_message_count id db in
    if run.increment_works
    then (
      (if ltb 0 count
          then insert_best_effort run id m (count - 1) counted (run.count_tokens m.content)
          else counted),
      some count,
    )
    else (db, none)

module _ (run : Run) (id : Text) (m : MessageIn) where
  abbrev pub after_append : Db → Option Object × Appended → State × Response
  after_append db (o, appended_at generation) =
      let (db', count) = record_turn run id m db in
      (record { db = db'; object = o }, stored count generation)
  after_append db (o, append_error status code) =
      (record { db = db; object = o }, error status code)
  after_append db (o, append_crash) = (record { db = db; object = o }, crash)

  -- From the append on, with `created_at` of the conversation.
  abbrev pub append_turn : Timestamp → Db → Option Object → State × Response
  append_turn created_at db o = after_append db (
      append_block run (run.encode (block_text m))
        (run.encode (header_text id created_at m.user_id)) o)

  abbrev pub after_header : Timestamp → Db → Option Object × Created → State × Response
  after_header created_at db (o, Created.created _) = append_turn created_at db o
  after_header created_at db (o, Created.already_exists) =
      (record { db = db; object = o }, error 409 (codes "conversation_already_exists"))
  after_header created_at db (o, Created.create_unavailable) =
      (record { db = db; object = o }, error 503 (codes "storage_unavailable"))
  after_header created_at db (o, Created.create_uncaught) = (record { db = db; object = o }, crash)

  -- `_check_timestamp`, and the header of a new conversation.
  abbrev pub checked : Option Object → Db × (Bool × Timestamp) → State × Response
  checked o (db, (is_new, created_at)) =
      if ltb (run.now + future_tolerance) m.timestamp.at
      then (record { db = db; object = o }, error 422 (codes "timestamp_in_future"))
      else if ltb m.timestamp.at created_at.at
      then (record { db = db; object = o }, error 422 (codes "timestamp_before_conversation"))
      else if is_new
      then after_header created_at db (
          upload_header run.header_upload run.header_reload run.fresh
            (run.encode (header_text id created_at m.user_id)) o)
      else append_turn created_at db o

  abbrev pub insert_conversation : State → Inserting → State × Response
  insert_conversation s inserts = checked s.object (create_if_absent id m.user_id m.timestamp s.db)
  insert_conversation s unknown_user = (s, error 422 (codes "unknown_user"))
  insert_conversation s db_raises = (s, crash)

abbrev pub post_parsed : Run → Text → State → ParsedBody → State × Response
post_parsed run id s (invalid status code) = (s, error status code)
post_parsed run id s (message m) = insert_conversation run id m s run.inserting

unfoldable pub post_message : Run → Text → Body → State → State × Response
unfolding is_valid_uuid parse_body create_if_absent append_block record_turn header_text block_text
    upload_header
post_message run id body s =
    if is_valid_uuid id
    then post_parsed run id s (parse_body body)
    else (s, error 400 (codes "invalid_conversation_id"))
