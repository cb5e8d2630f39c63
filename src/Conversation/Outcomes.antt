-- ===== src/Conversation/Outcomes.antt =====
-- What a posted turn leaves in the object and in the tables, by the response.
use archiviste_nocilia.Prelude.{ℕ, ◌+◌, ◌≤◌, Text, ◌≡◌, ◌⊎◌, some}
use archiviste_nocilia.Conversation.{Timestamp, Db, insert_message, MessageIn}
use archiviste_nocilia.Conversation.Post.{
  Run, State, Response, stored, error, crash, header_text, block_text,
}
use archiviste_nocilia.Conversation.Course.{Course}

-- How many blocks are in the object, by the response.
abbrev pub PostCounts : Response → ℕ → Type 0
PostCounts (stored count generation) n = n ≡ 1
PostCounts (error status code) n = (n ≡ 0) ⊎ ((status ≡ 503) × (n ≡ 1))
PostCounts crash n = n ≤ 1

-- The rows of the turns: at most the one of the message, at the place that the new count gives.
abbrev pub KeepsRows : Text → MessageIn → Db → Db → Response → Type 0
KeepsRows id m db db' (stored count generation) =
    (db'.messages ≡ db.messages)
    ⊎ ((ordinal : ℕ) × (tokens : ℕ) × (count ≡ some (ordinal + 1))
        × (db'.messages ≡ (insert_message id m.role ordinal m.content tokens db).messages))
KeepsRows id m db db' (error status code) = db'.messages ≡ db.messages
KeepsRows id m db db' crash = db'.messages ≡ db.messages

-- The object has gone through a course with as many appends of the block as the response tells, and
-- the rows are kept.
abbrev pub IsPosted : Run → Text → MessageIn → State → State × Response → Type 0
IsPosted run id m s (s', r) =
    ((n : ℕ) × (created_at : Timestamp) × PostCounts r n
      × Course run (run.encode (block_text m)) (run.encode (header_text id created_at m.user_id))
          s.object n s'.object)
    × KeepsRows id m s.db s'.db r
