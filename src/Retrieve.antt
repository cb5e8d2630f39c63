-- ===== src/Retrieve.antt =====
-- workers/src/archiviste_workers/retrieve/ and services/retrieve_client.py: the search endpoint and the client that asks it. The
-- embedder, the rows of the join of `chunks` and `documents` and the order of their distances are parameters; `none` is an error.
pub mod Nearest
pub mod Asked
mod Tests
use archiviste_nocilia.Prelude.{
  ℕ, String, Text, Bool, true, false, ◌&&◌, ◌||◌, Option, none, some, List, [], ◌∷◌, map, take, leb,
  ltb, text_eq, codes, strip, is_empty, if◌then◌else◌,
}
use archiviste_nocilia.Prelude.Int.{ℤ, pos, negsuc}
use archiviste_nocilia.Prelude.Decimal.{utf8_length}
use archiviste_nocilia.Chunk.{Chunk}
use archiviste_nocilia.Acl.{is_known_tier}
use archiviste_nocilia.Request.{has_surrogate}

-- A value of the JSON object, or none of that key.
pub data Value : Type 0 where
  missing null other : Value
  flag : Bool → Value
  number : ℤ → Value
  text : Text → Value

pub record Body : Type 0 where
  pub query : Value
  pub top_k : Value
  pub user_tier : Value

pub data Payload : Type 0 where
  unreadable not_object : Payload
  object : Body → Payload

-- What `_validate_body` returns or raises; a text that has no UTF-8 raises what nothing catches.
pub data Checked (A : Type 0) : Type 0 where
  valid : A → Checked A
  invalid : String → Checked A
  unencodable : Checked A

abbrev pub then_check : {A B : Type 0} → Checked A → (A → Checked B) → Checked B
then_check (valid a) next = next a
then_check (invalid code) next = invalid code
then_check unencodable next = unencodable

abbrev pub max_query_bytes : ℕ
max_query_bytes = 4096

abbrev pub top_k_default : ℕ
top_k_default = 5

abbrev pub top_k_min : ℕ
top_k_min = 1

abbrev pub top_k_max : ℕ
top_k_max = 20

unfoldable pub validate_query : Value → Checked Text
unfolding strip has_surrogate utf8_length
validate_query (text q) =
    if is_empty (strip q)
    then invalid "invalid_query"
    else if has_surrogate q
    then unencodable
    else if ltb max_query_bytes (utf8_length q)
    then invalid "invalid_query"
    else valid q
validate_query _ = invalid "invalid_query"

unfoldable pub validate_top_k : Value → Checked ℕ
validate_top_k missing = valid top_k_default
validate_top_k null = valid top_k_default
validate_top_k (number (pos k)) =
    if ltb k top_k_min || ltb top_k_max k then invalid "invalid_top_k" else valid k
validate_top_k _ = invalid "invalid_top_k"

unfoldable pub validate_user_tier : Value → Checked String
unfolding text_eq
validate_user_tier (text t) =
    if text_eq t (codes "anonymous")
    then valid "anonymous"
    else if text_eq t (codes "members")
    then valid "members"
    else if text_eq t (codes "author_only")
    then valid "author_only"
    else invalid "invalid_user_tier"
validate_user_tier _ = invalid "invalid_user_tier"

pub record Question : Type 0 where
  pub query : Text
  pub top_k : ℕ
  pub user_tier : String

abbrev pub is_missing : Value → Bool
is_missing missing = true
is_missing _ = false

unfoldable pub validate_body : Payload → Checked Question
unfolding validate_query validate_top_k validate_user_tier
validate_body unreadable = invalid "invalid_request"
validate_body not_object = invalid "invalid_request"
validate_body (object b) =
    if is_missing b.query || is_missing b.user_tier
    then invalid "invalid_request"
    else then_check (validate_query b.query) (λ query. then_check (validate_top_k b.top_k) (λ top_k.
      then_check (validate_user_tier b.user_tier)
        (λ tier. valid (record { query = query; top_k = top_k; user_tier = tier }))))

-- A row of the search.
pub record Row : Type 0 where
  pub chunk_id : Text
  pub document_id : Text
  pub chunk : Chunk

-- What the endpoint reaches: the embedder of the app, if it has one, the rows, and the order of the query by distance and id.
pub record Backend (V : Type 0) : Type 0 where
  pub embedder : Option (Text → Option V)
  pub rows : Option (List Row)
  pub comes_first : V → Row → Row → Bool

module _ (le : Row → Row → Bool) where
  abbrev pub insert_row : Row → List Row → List Row
  insert_row r [] = r ∷ []
  insert_row r (s ∷ rows) =
      let rest = insert_row r rows in if le r s then r ∷ s ∷ rows else s ∷ rest

  -- `ORDER BY`
  unfoldable pub order_by : List Row → List Row
  order_by [] = []
  order_by (r ∷ rows) = insert_row r (order_by rows)

-- `_SEARCH_SQL`, which leaves the tiers alone.
unfoldable pub search : {V : Type 0} → Backend V → V → ℕ → Option (List Row)
unfolding order_by
search b vector top_k = elim b.rows [
  | none ↦ none
  | some rows ↦ some (take top_k (order_by (b.comes_first vector) rows))
]

pub data Response : Type 0 where
  found : List Row → Response
  error : ℕ → String → Response
  crashed : Response

-- A `RetrievedChunk` has one of the three tiers.
unfoldable pub all_known : List Row → Bool
unfolding is_known_tier
all_known [] = true
all_known (r ∷ rows) = is_known_tier r.chunk.access_tier && all_known rows

abbrev pub respond : Option (List Row) → Response
unfolding all_known
respond none = error 503 "database_unavailable"
respond (some rows) = if all_known rows then found rows else crashed

module _ {V : Type 0} (b : Backend V) where
  abbrev pub search_with : ℕ → Option V → Response
  unfolding search all_known
  search_with top_k none = crashed
  search_with top_k (some vector) = respond (search b vector top_k)

  -- `_execute_search`, behind the check of the embedder
  unfoldable pub execute_search : Question → Option (Text → Option V) → Response
  unfolding search all_known
  execute_search q none = error 503 "embedder_unavailable"
  execute_search q (some encode) = search_with q.top_k (encode q.query)

  abbrev pub answer : Checked Question → Response
  unfolding execute_search
  answer (valid q) = execute_search q b.embedder
  answer (invalid code) = error 400 code
  answer unencodable = crashed

  unfoldable pub post_retrieve : Payload → Response
  unfolding validate_body execute_search
  post_retrieve payload = answer (validate_body payload)

-- `RetrieveClient.search`: the JSON that it sends, and what it makes of the response, if one comes.
abbrev pub request_body : Text → ℕ → String → Payload
request_body query top_k user_tier =
    object (record {
      query = text query;
      top_k = number (pos top_k);
      user_tier = text (codes user_tier);
    })

unfoldable pub client_search : Option Response → Option (List Chunk)
client_search none = none
client_search (some (found rows)) = some (map (λ r. r.chunk) rows)
client_search (some (error status code)) = none
client_search (some crashed) = none
