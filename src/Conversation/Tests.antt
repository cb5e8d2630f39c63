-- ===== src/Conversation/Tests.antt =====
-- A turn for a conversation whose object was lost, and two requests that are interleaved.
use archiviste_nocilia.Prelude.{◌-◌, ◌≡◌, refl, true, none, some, [], ◌∷◌, arith, codes, text_eq}
use archiviste_nocilia.Memory.{Role}
use archiviste_nocilia.Request.{Field}
use archiviste_nocilia.Storage.{Network, World}
use archiviste_nocilia.Conversation.{
  Timestamp, Conversation, create_if_absent, insert_message, increment_message_count,
  find_conversation, MessageIn, Body,
}
use archiviste_nocilia.Conversation.Post.{Run, State, stored, Inserting, post_message}
use archiviste_nocilia.Conversation.Ordinals.{Posting, Step, Reaches, IsSound, reaches-IsSound}
use archiviste_nocilia.Fixtures.{user_id, conversation_id}

abbrev noon : Timestamp
noon = record { at = 1000; iso = codes "1970-01-01T00:00:00.001000+00:00" }

abbrev quiet : World
quiet = record {
  others = λ t o. o;
  download = λ t. Network.works;
  upload = λ t. Network.works;
  reload = λ t. Network.works;
}

abbrev run : Run
run = record {
  now = 1000;
  inserting = Inserting.inserts;
  world = quiet;
  header_upload = Network.works;
  header_reload = Network.works;
  heal_upload = Network.works;
  heal_reload = Network.works;
  fresh = 7;
  encode = λ s. s;
  increment_works = true;
  count_tokens = λ s. some 3;
  insert_works = true;
}

abbrev turn : MessageIn
turn = record { role = Role.user; content = codes "Qui ?"; timestamp = noon; user_id = user_id }

abbrev body : Body
body = record {
  role = Field.str (codes "user");
  content = Field.str (codes "Qui ?");
  timestamp = some noon;
  user_id = Field.str user_id;
}

abbrev known : Conversation
known = record { id = conversation_id; user_id = user_id; created_at = noon; message_count = 0 }

-- The row is there, the object is not.
abbrev lost : State
lost = record { db = record { conversations = known ∷ []; messages = [] }; object = none }

heals : (post_message run conversation_id body lost).1 ≡ stored (some 1) 8
unfolding post_message
heals = refl

abbrev empty : Posting
empty = record { db = record { conversations = []; messages = [] }; held = [] }

abbrev made : Posting
made = record { db = record { conversations = known ∷ []; messages = [] }; held = [] }

abbrev both : Posting
both = record {
  db = record { conversations = record known { message_count = 2 } ∷ []; messages = [] };
  held = (conversation_id, 1) ∷ (conversation_id, 0) ∷ [];
}

-- The request that counted second has inserted first.
abbrev ends : Posting
ends = record {
  db = insert_message conversation_id Role.user 1 (codes "Qui ?") 3 both.db;
  held = (conversation_id, 0) ∷ [];
}

creates_one : Step empty made
unfolding create_if_absent
creates_one = Step.creates conversation_id user_id noon empty

abbrev counted : Posting
counted = record {
  db = (increment_message_count conversation_id made.db).0;
  held = (conversation_id, (increment_message_count conversation_id made.db).1 - 1) ∷ [];
}

counts_twice : Step counted both
unfolding increment_message_count find_conversation text_eq
counts_twice = Step.counts conversation_id (record known { message_count = 1 }) counted refl

counts_once : Step made counted
unfolding find_conversation text_eq
counts_once = Step.counts conversation_id known made refl

path : Reaches empty ends
path =
    Reaches.steps
      (Reaches.steps (Reaches.steps (Reaches.steps (Reaches.stays empty) creates_one) counts_once)
        counts_twice)
      (Step.inserts conversation_id 1 3 Role.user (codes "Qui ?") both.db []
        ((conversation_id, 0) ∷ []))

empty-IsSound : IsSound empty
empty-IsSound id n = omega arith

reaches-IsSound_example : IsSound ends
reaches-IsSound_example = reaches-IsSound path empty-IsSound
