-- ===== src/Contradiction/Endpoint.antt =====
-- workers/src/archiviste_workers/contradiction/router.py and the request of contradiction/models.py: from the headers and the JSON object
-- to a checked claim. The integers of a citation are as pydantic reads them, and `force` too.
use archiviste_nocilia.Prelude.{
  ℕ, String, Text, Bool, false, not, ◌&&◌, Option, none, some, List, [], ◌∷◌, leb, length, is_empty,
  if◌then◌else◌,
}
use archiviste_nocilia.Prelude.Int.{ℤ, pos, negsuc}
use archiviste_nocilia.Chunk.{Citation}
use archiviste_nocilia.Request.{Field, Headers, is_valid_uuid, internal_tier, has_surrogate}
use archiviste_nocilia.Tickets.{Ticket}
use archiviste_nocilia.Contradiction.{Panel, VerificationResult}
use archiviste_nocilia.Contradiction.Verify.{verify_contradiction}

-- A citation of the payload; its ordinals are `none` if one of them is no integer.
pub record CitationField : Type 0 where
  pub source_path : Field
  pub chunk_ords : Option (List ℤ)

pub data CitationsField : Type 0 where
  no_citations not_a_list : CitationsField
  listed : List (Option CitationField) → CitationsField

pub data ForceField : Type 0 where
  no_force not_a_flag : ForceField
  flag : Bool → ForceField

pub record Payload : Type 0 where
  pub claim : Field
  pub conversation_id : Field
  pub citations : CitationsField
  pub request_id : Field
  pub force : ForceField

pub record VerifyRequest : Type 0 where
  pub claim : Text
  pub conversation_id : Text
  pub citations : List Citation
  pub request_id : Text
  pub force : Bool
  pub user_tier : String
  pub user_id : Text

-- A value, or the code of a `_VerifyError`, whose status is 400.
pub data Checked (A : Type 0) : Type 0 where
  valid : A → Checked A
  invalid : String → Checked A

abbrev pub then_check : {A B : Type 0} → Checked A → (A → Checked B) → Checked B
then_check (valid a) next = next a
then_check (invalid code) next = invalid code

abbrev pub claim_max_chars : ℕ
claim_max_chars = 4096

abbrev pub max_citations : ℕ
max_citations = 50

abbrev pub max_chunk_ords : ℕ
max_chunk_ords = 200

unfoldable pub valid_user_id : Option Text → Checked Text
unfolding is_valid_uuid
valid_user_id none = invalid "invalid_request"
valid_user_id (some u) = if is_valid_uuid u then valid u else invalid "invalid_request"

abbrev pub known_tier : Option String → Checked String
known_tier none = invalid "invalid_request"
known_tier (some tier) = valid tier

unfoldable pub valid_user_tier : Option String → Checked String
unfolding internal_tier
valid_user_tier none = invalid "invalid_request"
valid_user_tier (some raw) = known_tier (internal_tier raw)

unfoldable pub valid_id : String → Field → Checked Text
unfolding is_valid_uuid
valid_id code (Field.str i) = if is_valid_uuid i then valid i else invalid code
valid_id code _ = invalid code

unfoldable pub valid_claim : Field → Checked Text
unfolding has_surrogate
valid_claim (Field.str c) =
    if not (is_empty c) && (leb (length c) claim_max_chars && not (has_surrogate c))
    then valid c
    else invalid "invalid_claim"
valid_claim _ = invalid "invalid_claim"

-- `Field(ge=0)`
abbrev pub non_negative : List ℤ → Option (List ℕ)
non_negative [] = some []
non_negative (pos n ∷ ords) = elim (non_negative ords) [ none ↦ none | some ns ↦ some (n ∷ ns) ]
non_negative (negsuc n ∷ ords) = none

abbrev pub citation_of : Text → Option (List ℕ) → Option Citation
citation_of path none = none
citation_of path (some ords) =
    if leb (length ords) max_chunk_ords
    then some (record { source_path = path; chunk_ords = ords })
    else none

abbrev pub ords_of : Option (List ℤ) → Option (List ℕ)
ords_of none = none
ords_of (some ords) = non_negative ords

abbrev pub with_path : Option (List ℕ) → Field → Option Citation
unfolding has_surrogate
with_path ords (Field.str p) = if has_surrogate p then none else citation_of p ords
with_path ords _ = none

abbrev pub valid_citation : Option CitationField → Option Citation
unfolding has_surrogate
valid_citation none = none
valid_citation (some c) = with_path (ords_of c.chunk_ords) c.source_path

abbrev pub onto : Option Citation → Option (List Citation) → Option (List Citation)
onto none rest = none
onto (some c) none = none
onto (some c) (some rest) = some (c ∷ rest)

abbrev pub read_citations : List (Option CitationField) → Option (List Citation)
unfolding has_surrogate
read_citations [] = some []
read_citations (c ∷ cs) = onto (valid_citation c) (read_citations cs)

abbrev pub checked_citations : Option (List Citation) → Checked (List Citation)
checked_citations none = invalid "invalid_citations"
checked_citations (some cs) =
    if leb (length cs) max_citations then valid cs else invalid "invalid_citations"

unfoldable pub valid_citations : CitationsField → Checked (List Citation)
unfolding has_surrogate
valid_citations no_citations = valid []
valid_citations not_a_list = invalid "invalid_citations"
valid_citations (listed cs) = checked_citations (read_citations cs)

unfoldable pub valid_force : ForceField → Checked Bool
valid_force no_force = valid false
valid_force not_a_flag = invalid "invalid_request"
valid_force (flag b) = valid b

-- `_parse_request`; the errors of the model are told in the order of its fields.
unfoldable pub parse_request : Payload → Headers → Checked VerifyRequest
unfolding valid_user_id valid_user_tier valid_id valid_claim valid_citations valid_force
parse_request p h = then_check (valid_user_id h.x_user_id) (λ user.
    then_check (valid_user_tier h.x_user_tier) (λ tier.
      then_check (valid_id "invalid_request" p.request_id) (λ request_id.
        then_check (valid_id "invalid_conversation_id" p.conversation_id) (λ conversation_id.
          then_check (valid_claim p.claim) (λ claim.
            then_check (valid_citations p.citations) (λ citations.
              then_check (valid_force p.force) (λ force. valid (record {
                claim = claim;
                conversation_id = conversation_id;
                citations = citations;
                request_id = request_id;
                force = force;
                user_tier = tier;
                user_id = user;
              }))))))))

pub data Response : Type 0 where
  answered : VerificationResult → Response
  error : ℕ → String → Response
  crashed : Response

module _ {V : Type 0} (panel : Panel V) (tickets : List (Ticket V)) where
  abbrev pub respond : Option (List (Ticket V) × VerificationResult) → List (Ticket V) × Response
  respond none = (tickets, crashed)
  respond (some (after, result)) = (after, answered result)

  abbrev pub verify_checked : Checked VerifyRequest → List (Ticket V) × Response
  unfolding verify_contradiction
  verify_checked (invalid code) = (tickets, error 400 code)
  verify_checked (valid r) =
      respond (
        verify_contradiction panel tickets r.claim r.conversation_id r.citations r.user_tier
          r.force)

  unfoldable pub post_verify_contradiction : Payload → Headers → List (Ticket V) × Response
  unfolding parse_request verify_contradiction
  post_verify_contradiction p h = verify_checked (parse_request p h)
