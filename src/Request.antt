-- ===== src/Request.antt =====
-- The request of workers/src/archiviste_workers/generate/router.py, from the headers and the JSON
-- body to a `GenerateRequest` of generate/models.py.
pub mod Accepted
mod Tests
use archiviste_nocilia.Prelude.{
  ℕ, ◌-◌, zero, suc, String, Text, Bool, true, false, ◌&&◌, ◌||◌, not, Option, none, some, List, [],
  ◌∷◌, ◌==◌, leb, ltb, eqb, if◌then◌else◌, is_empty,
}
use archiviste_nocilia.Prelude.Decimal.{utf8_length}

-- `[0-9a-f]`
abbrev is_hex : ℕ → Bool
is_hex c = (leb 48 c && leb c 57) || (leb 97 c && leb c 102)

-- The groups of `_UUID_RE` by their lengths, a dash between two of them. `$` also matches before a
-- line break at the end.
unfoldable pub uuid_tail : Text → Bool
uuid_tail [] = true
uuid_tail (c ∷ s) = eqb c 10 && is_empty s

unfoldable pub uuid_groups : ℕ → List ℕ → Text → Bool
unfolding uuid_tail
uuid_groups zero [] s = uuid_tail s
uuid_groups zero (n ∷ lengths) [] = false
uuid_groups zero (n ∷ lengths) (c ∷ s) = eqb c b'-' && uuid_groups n lengths s
uuid_groups (suc k) lengths [] = false
uuid_groups (suc k) lengths (c ∷ s) = is_hex c && uuid_groups k lengths s

unfoldable pub is_valid_uuid : Text → Bool
unfolding uuid_groups
is_valid_uuid = uuid_groups 8 (4 ∷ 4 ∷ 4 ∷ 12 ∷ [])

-- A field of the JSON object: not there, `null`, a string, or another value.
pub data Field : Type 0 where
  missing null other : Field
  str : Text → Field

pub record Payload : Type 0 where
  pub query : Field
  pub conversation_id : Field
  pub request_id : Field

pub record Headers : Type 0 where
  pub x_user_id : Option Text
  pub x_user_tier : Option String

pub record GenerateRequest : Type 0 where
  pub query : Text
  pub conversation_id : Option Text
  pub user_id : Text
  pub user_tier : String
  pub request_id : Text

-- `_GenerateError`
pub record GenerateError : Type 0 where
  pub status : ℕ
  pub code : String

pub data Parsed : Type 0 where
  accepted : GenerateRequest → Parsed
  rejected : GenerateError → Parsed

abbrev pub reject : ℕ → String → Parsed
reject status code = rejected (record { status = status; code = code })

-- `_CONTRACT_TIER_TO_INTERNAL.get(tier)`
unfoldable pub internal_tier : String → Option String
internal_tier t =
    if t == "anonymous"
    then some "anonymous"
    else if t == "member"
    then some "members"
    else if t == "author"
    then some "author_only"
    else none

abbrev pub query_max_bytes : ℕ
query_max_bytes = 4096

-- A code point that has no UTF-8 form.
abbrev pub is_surrogate : ℕ → Bool
is_surrogate c = leb 0xd800 c && leb c 0xdfff

unfoldable pub has_surrogate : Text → Bool
has_surrogate [] = false
has_surrogate (c ∷ s) = is_surrogate c || has_surrogate s

-- `min_length=1` and `_query_size`; a text that cannot be encoded is a validation error too.
unfoldable pub is_valid_query : Text → Bool
unfolding has_surrogate
is_valid_query q = not (is_empty q) && not (has_surrogate q) && leb (utf8_length q) query_max_bytes

-- The two checks of the request id.
unfoldable pub valid_request_id : Field → Option Text
unfolding is_valid_uuid
valid_request_id (Field.str r) = if is_valid_uuid r then some r else none
valid_request_id _ = none

-- `GenerateRequest.model_validate`: every error is reported as one of the query.
abbrev pub validate_query : Field → Option Text → Text → String → Text → Parsed
validate_query (Field.str q) conversation_id user_id tier request_id =
    if is_valid_query q
    then accepted (record {
      query = q;
      conversation_id = conversation_id;
      user_id = user_id;
      user_tier = tier;
      request_id = request_id;
    })
    else reject 400 "invalid_query"
validate_query _ conversation_id user_id tier request_id = reject 400 "invalid_query"

abbrev pub validate_conversation : Field → Field → Text → String → Text → Parsed
validate_conversation Field.missing q user_id tier request_id =
    validate_query q none user_id tier request_id
validate_conversation Field.null q user_id tier request_id =
    validate_query q none user_id tier request_id
validate_conversation Field.other q user_id tier request_id = reject 400 "invalid_query"
validate_conversation (Field.str c) q user_id tier request_id =
    if is_valid_uuid c
    then validate_query q (some c) user_id tier request_id
    else reject 400 "invalid_conversation_id"

abbrev pub validate_ids : Payload → Text → String → Option Text → Parsed
validate_ids p user_id tier none = reject 400 "invalid_request_id"
validate_ids p user_id tier (some request_id) =
    validate_conversation p.conversation_id p.query user_id tier request_id

abbrev pub validate_known_tier : Payload → Text → Option String → Parsed
validate_known_tier p user_id none = reject 422 "invalid_user_tier"
validate_known_tier p user_id (some tier) =
    validate_ids p user_id tier (valid_request_id p.request_id)

abbrev pub validate_tier : Payload → Text → Option String → Parsed
validate_tier p user_id none = reject 422 "invalid_user_tier"
validate_tier p user_id (some raw) = validate_known_tier p user_id (internal_tier raw)

abbrev pub validate_user : Payload → Option String → Option Text → Parsed
validate_user p raw_tier none = reject 400 "invalid_user_id"
validate_user p raw_tier (some user_id) =
    if is_valid_uuid user_id then validate_tier p user_id raw_tier else reject 400 "invalid_user_id"

unfoldable pub parse_request : Payload → Headers → Parsed
unfolding is_valid_uuid internal_tier valid_request_id is_valid_query
parse_request p h = validate_user p h.x_user_tier h.x_user_id
