-- ===== src/Conversation/Ordinals.antt =====
-- The ordinals of the turns when any number of requests is interleaved: each statement of SQL is one
-- step, and a request holds the ordinal that its increment gave it until it inserts its row.
use mathlib.Core.Path.{subst}
use archiviste_nocilia.Prelude.{
  ℕ, ◌+◌, ◌-◌, ◌≤◌, Text, Bool, true, false, ◌&&◌, ◌≡◌, refl, ◌∙◌, ap, inl, inr, some, List, [],
  ◌∷◌, ◌++◌, arith, eqb, ltb, Bool-cases, Option-cases, text_eq, text_eq_refl, eq_of_text_eq,
}
use archiviste_nocilia.Memory.{Role, StoredTurn}
use archiviste_nocilia.Conversation.{
  Timestamp, Conversation, Db, find_conversation, create_if_absent, count_up, count_of,
  increment_message_count, insert_message,
}

-- The tables, and the ordinals that requests hold.
pub record Posting : Type 0 where
  pub db : Db
  pub held : List (Text × ℕ)

pub data Step : Posting → Posting → Type 0 where
  creates :
      (id user_id : Text) (t : Timestamp) (p : Posting)
      → Step p (record p { db = (create_if_absent id user_id t p.db).0 })
  counts :
      (id : Text) (c : Conversation) (p : Posting)
      → find_conversation id p.db.conversations ≡ some c
      → Step p (record {
        db = (increment_message_count id p.db).0;
        held = (id, (increment_message_count id p.db).1 - 1) ∷ p.held;
      })
  inserts :
      (id : Text) (ordinal tokens : ℕ) (role : Role) (content : Text) (db : Db)
      (before after : List (Text × ℕ))
      → Step
          (record { db = db; held = before ++ (id, ordinal) ∷ after })
          (record { db = insert_message id role ordinal content tokens db; held = before ++ after })
  gives_up :
      (db : Db) (before after : List (Text × ℕ)) (h : Text × ℕ)
      → Step
          (record { db = db; held = before ++ h ∷ after })
          (record { db = db; held = before ++ after })

-- How often a conversation has an ordinal, in its rows and in the hands of requests.
abbrev pub one_if : Bool → ℕ
one_if true = 1
one_if false = 0

abbrev pub rows_with : Text → ℕ → List StoredTurn → ℕ
rows_with id n [] = 0
rows_with id n (t ∷ ts) =
    one_if (text_eq t.conversation_id id && eqb t.row.ordinal n) + rows_with id n ts

abbrev pub held_with : Text → ℕ → List (Text × ℕ) → ℕ
held_with id n [] = 0
held_with id n (h ∷ hs) = one_if (text_eq h.0 id && eqb h.1 n) + held_with id n hs

-- Every ordinal below the count of its conversation is used at most once, and no other is used.
abbrev pub IsSound : Posting → Type 0
IsSound p =
    (id : Text) (n : ℕ)
    → rows_with id n p.db.messages + held_with id n p.held
      ≤ one_if (ltb n (count_of id p.db.conversations))

rows_with-append :
    (id : Text) (n : ℕ) (ts us : List StoredTurn)
    → rows_with id n (ts ++ us) ≡ rows_with id n ts + rows_with id n us
rows_with-append id n [] us = omega arith
rows_with-append id n (t ∷ ts) us = omega (arith, rows_with-append id n ts us)

held_with-append :
    (id : Text) (n : ℕ) (hs gs : List (Text × ℕ))
    → held_with id n (hs ++ gs) ≡ held_with id n hs + held_with id n gs
held_with-append id n [] gs = omega arith
held_with-append id n (h ∷ hs) gs = omega (arith, held_with-append id n hs gs)

-- A new row counts nothing.
count_of-new :
    (id : Text) (c : Conversation) (cs : List Conversation)
    → c.message_count ≡ 0
    → count_of id (cs ++ c ∷ []) ≡ count_of id cs
unfolding count_of
count_of-new id c [] e = ground arith
count_of-new id c (d ∷ cs) e = ground (arith, count_of-new id c cs e)

create_if_absent-count_of :
    (id user_id : Text) (t : Timestamp) (db : Db) (other : Text)
    → count_of other (create_if_absent id user_id t db).0.conversations
      ≡ count_of other db.conversations
unfolding create_if_absent
create_if_absent-count_of id user_id t db other =
    elim (Option-cases (find_conversation id db.conversations)) [
      | inl e ↦ rw e (
          count_of-new other
            (record { id = id; user_id = user_id; created_at = t; message_count = 0 })
            db.conversations refl)
      | inr (c, e) ↦ rw e refl
    ]

create_if_absent-rows :
    (id user_id : Text) (t : Timestamp) (db : Db)
    → (create_if_absent id user_id t db).0.messages ≡ db.messages
unfolding create_if_absent
create_if_absent-rows id user_id t db =
    elim (Option-cases (find_conversation id db.conversations)) [
      | inl e ↦ rw e refl
      | inr (c, e) ↦ rw e refl
    ]

-- Counting up raises the count of the conversation, which is there, and of no other.
count_up-same :
    (id : Text) (c : Conversation) (cs : List Conversation)
    → find_conversation id cs ≡ some c
    → count_of id (count_up id cs) ≡ count_of id cs + 1
unfolding find_conversation count_up count_of
count_up-same id c [] h = ground arith
count_up-same id c (d ∷ cs) h = ground (arith, count_up-same id c cs)

count_up-other :
    (id other : Text) (cs : List Conversation)
    → text_eq id other ≡ false
    → count_of other (count_up id cs) ≡ count_of other cs
unfolding count_up count_of
count_up-other id other [] h = refl
count_up-other id other (d ∷ cs) h = elim (Bool-cases (text_eq d.id id)) [
  | inl e ↦
      (let k : text_eq d.id other ≡ false =
          ap (λ x. text_eq x other) (eq_of_text_eq d.id id e) ∙ h in
        ground (arith, count_up-other id other cs h))
  | inr e ↦ ground (arith, count_up-other id other cs h)
]

module _ (id : Text) (c : Conversation) (p : Posting)
    (found : find_conversation id p.db.conversations ≡ some c) (sound : IsSound p) where
  counts-same :
      (n : ℕ)
      → rows_with id n p.db.messages
          + (one_if (text_eq id id && eqb (count_of id (count_up id p.db.conversations) - 1) n)
              + held_with id n p.held)
        ≤ one_if (ltb n (count_of id (count_up id p.db.conversations)))
  counts-same n =
      ground (arith, sound id n, count_up-same id c p.db.conversations found, text_eq_refl id)

  counts-other :
      (other : Text) (n : ℕ)
      → text_eq id other ≡ false
      → rows_with other n p.db.messages
          + (one_if (text_eq id other && eqb (count_of id (count_up id p.db.conversations) - 1) n)
              + held_with other n p.held)
        ≤ one_if (ltb n (count_of other (count_up id p.db.conversations)))
  counts-other other n h =
      ground (arith, sound other n, count_up-other id other p.db.conversations h)

-- No step breaks the invariant.
pub Step-IsSound : {p q : Posting} → Step p q → IsSound p → IsSound q
unfolding increment_message_count insert_message
Step-IsSound (creates id user_id t p) sound other n = ground (
  arith,
  sound other n,
  create_if_absent-count_of id user_id t p.db other,
  create_if_absent-rows id user_id t p.db,
)
Step-IsSound (counts id c p found) sound other n = elim (Bool-cases (text_eq id other)) [
  | inl e ↦
      subst
        (λ x.
          rows_with x n p.db.messages
            + (one_if (text_eq id x && eqb (count_of id (count_up id p.db.conversations) - 1) n)
                + held_with x n p.held)
          ≤ one_if (ltb n (count_of x (count_up id p.db.conversations))))
        (eq_of_text_eq id other e) (counts-same id c p found sound n)
  | inr e ↦ counts-other id c p found sound other n e
]
Step-IsSound (inserts id ordinal tokens role content db before after) sound other n =
    let row : StoredTurn = record {
      conversation_id = id;
      row = record { role = role; ordinal = ordinal; content = content; token_count = tokens };
    } in
    omega (
      arith,
      sound other n,
      held_with-append other n before ((id, ordinal) ∷ after),
      held_with-append other n before after,
      rows_with-append other n db.messages (row ∷ []),
    )
Step-IsSound (gives_up db before after h) sound other n = omega (
  arith,
  sound other n,
  held_with-append other n before (h ∷ after),
  held_with-append other n before after,
)

pub data Reaches : Posting → Posting → Type 0 where
  stays : (p : Posting) → Reaches p p
  steps : {p q r : Posting} → Reaches p q → Step q r → Reaches p r

-- However the requests are interleaved, from tables where every ordinal is used at most once and only below
-- the count of its conversation, this stays so: no two turns of a conversation get the same place, held places included.
pub reaches-IsSound : {p q : Posting} → Reaches p q → IsSound p → IsSound q
reaches-IsSound (stays p) sound = sound
reaches-IsSound (steps path step) sound = Step-IsSound step (reaches-IsSound path sound)
