-- ===== src/Request/Accepted.antt =====
-- What an accepted request guarantees, and where its parts come from.
use archiviste_nocilia.Prelude.{
  Text, String, true, ◌≡◌, ◌⊎◌, refl, inl, inr, Bool-cases, arith, Option, none, some,
}
use archiviste_nocilia.Request.{
  Field, Payload, Headers, GenerateRequest, accepted, is_valid_uuid, is_valid_query, internal_tier,
  valid_request_id, validate_query, validate_conversation, validate_ids, validate_known_tier,
  validate_tier, validate_user, parse_request,
}

-- The id of the conversation: one that the payload names, or none where it is missing or null.
abbrev pub ComesFrom : Field → Option Text → Type 0
ComesFrom f none = (f ≡ Field.missing) ⊎ (f ≡ Field.null)
ComesFrom f (some c) = (f ≡ Field.str c) × (is_valid_uuid c ≡ true)

-- The user and the tier are those of the headers and nothing of the payload; the query, the
-- request id and the conversation id are those of the payload; all ids are UUIDs.
abbrev pub IsFrom : Payload → Headers → GenerateRequest → Type 0
IsFrom p h r =
    (h.x_user_id ≡ some r.user_id)
    × (is_valid_uuid r.user_id ≡ true)
    × ((raw : String) × (h.x_user_tier ≡ some raw) × (internal_tier raw ≡ some r.user_tier))
    × (p.request_id ≡ Field.str r.request_id)
    × (is_valid_uuid r.request_id ≡ true)
    × ComesFrom p.conversation_id r.conversation_id
    × (p.query ≡ Field.str r.query)
    × (is_valid_query r.query ≡ true)

validate_query_lem :
    (q : Field) (c : Option Text) (u : Text) (t : String) (rid : Text) (r : GenerateRequest)
    → validate_query q c u t rid ≡ accepted r
    → (q ≡ Field.str r.query)
      × (is_valid_query r.query ≡ true)
      × (r.conversation_id ≡ c)
      × (r.user_id ≡ u)
      × (r.user_tier ≡ t)
      × (r.request_id ≡ rid)
validate_query_lem (Field.str q) c u t rid r h = ground arith
validate_query_lem Field.missing c u t rid r h = ground arith
validate_query_lem Field.null c u t rid r h = ground arith
validate_query_lem Field.other c u t rid r h = ground arith

validate_conversation_lem :
    (f q : Field) (u : Text) (t : String) (rid : Text) (r : GenerateRequest)
    → validate_conversation f q u t rid ≡ accepted r
    → (q ≡ Field.str r.query)
      × (is_valid_query r.query ≡ true)
      × ComesFrom f r.conversation_id
      × (r.user_id ≡ u)
      × (r.user_tier ≡ t)
      × (r.request_id ≡ rid)
validate_conversation_lem Field.missing q u t rid r h =
    let (a, b, c, d, e', f) = validate_query_lem q none u t rid r h in
    (a, b, rw c (inl refl), d, e', f)
validate_conversation_lem Field.null q u t rid r h =
    let (a, b, c, d, e', f) = validate_query_lem q none u t rid r h in
    (a, b, rw c (inr refl), d, e', f)
validate_conversation_lem Field.other q u t rid r h = ground arith
validate_conversation_lem (Field.str c) q u t rid r h = elim (Bool-cases (is_valid_uuid c)) [
  | inl e ↦
      (let (a, b, k, d, e', f) = validate_query_lem q (some c) u t rid r (rw e at h) in
        (a, b, rw k (refl, e), d, e', f))
  | inr e ↦ ground arith
]

valid_request_id_lem :
    (f : Field) (rid : Text)
    → valid_request_id f ≡ some rid
    → (f ≡ Field.str rid) × (is_valid_uuid rid ≡ true)
unfolding valid_request_id
valid_request_id_lem (Field.str t) rid h = ground arith
valid_request_id_lem Field.missing rid h = ground arith
valid_request_id_lem Field.null rid h = ground arith
valid_request_id_lem Field.other rid h = ground arith

validate_ids_lem :
    (p : Payload) (u : Text) (t : String) (o : Option Text) (r : GenerateRequest)
    → validate_ids p u t o ≡ accepted r
    → (o ≡ some r.request_id)
      × (p.query ≡ Field.str r.query)
      × (is_valid_query r.query ≡ true)
      × ComesFrom p.conversation_id r.conversation_id
      × (r.user_id ≡ u)
      × (r.user_tier ≡ t)
validate_ids_lem p u t none r h = ground arith
validate_ids_lem p u t (some rid) r h =
    let (a, b, c, d, e, f) = validate_conversation_lem p.conversation_id p.query u t rid r h in
    (rw f refl, a, b, c, d, e)

validate_known_tier_lem :
    (p : Payload) (u : Text) (o : Option String) (r : GenerateRequest)
    → validate_known_tier p u o ≡ accepted r
    → (o ≡ some r.user_tier)
      × (valid_request_id p.request_id ≡ some r.request_id)
      × (p.query ≡ Field.str r.query)
      × (is_valid_query r.query ≡ true)
      × ComesFrom p.conversation_id r.conversation_id
      × (r.user_id ≡ u)
validate_known_tier_lem p u none r h = ground arith
validate_known_tier_lem p u (some tier) r h =
    let (a, b, c, d, e, f) = validate_ids_lem p u tier (valid_request_id p.request_id) r h in
    (rw f refl, a, b, c, d, e)

validate_tier_lem :
    (p : Payload) (u : Text) (raw_tier : Option String) (r : GenerateRequest)
    → validate_tier p u raw_tier ≡ accepted r
    → ((raw : String) × (raw_tier ≡ some raw) × (internal_tier raw ≡ some r.user_tier))
      × (valid_request_id p.request_id ≡ some r.request_id)
      × (p.query ≡ Field.str r.query)
      × (is_valid_query r.query ≡ true)
      × ComesFrom p.conversation_id r.conversation_id
      × (r.user_id ≡ u)
validate_tier_lem p u none r h = ground arith
validate_tier_lem p u (some raw) r h =
    let (t, a, b, c, d, e) = validate_known_tier_lem p u (internal_tier raw) r h in
    ((raw, refl, t), a, b, c, d, e)

validate_user_lem :
    (p : Payload) (h : Headers) (user : Option Text) (r : GenerateRequest)
    → h.x_user_id ≡ user
    → validate_user p h.x_user_tier user ≡ accepted r
    → IsFrom p h r
validate_user_lem p h none r eq k = ground arith
validate_user_lem p h (some u) r eq k = elim (Bool-cases (is_valid_uuid u)) [
  | inl e ↦
      (let (t, rid, b, c, d, f) = validate_tier_lem p u h.x_user_tier r (rw e at k) in
        let (i, j) = valid_request_id_lem p.request_id r.request_id rid in
        (rw f eq, rw f e, t, i, j, d, b, c))
  | inr e ↦ ground arith
]

-- An accepted request is made as `IsFrom` says: its identity and its tier come from the headers
-- alone, its other fields from the payload, every id is valid and the query is one.
pub parse_request-IsFrom :
    (p : Payload) (h : Headers) (r : GenerateRequest)
    → parse_request p h ≡ accepted r
    → IsFrom p h r
unfolding parse_request
parse_request-IsFrom p h r k = validate_user_lem p h h.x_user_id r refl k
