-- ===== src/Contradiction/Checked.antt =====
-- What the contradiction endpoint lets through to the panel.
use mathlib.Core.Path.{subst}
use archiviste_nocilia.Prelude.{
  ℕ, ◌≤◌, String, Text, true, false, not, ◌&&◌, ◌≡◌, refl, Option, none, some, List, [], ◌∷◌, leb,
  length, is_empty, All, Bool-cases, Option-cases, inl, inr, arith, ap,
}
use archiviste_nocilia.Chunk.{Citation}
use archiviste_nocilia.Request.{Field, Headers, is_valid_uuid, internal_tier, has_surrogate}
use archiviste_nocilia.Tickets.{Ticket}
use archiviste_nocilia.Contradiction.{Panel}
use archiviste_nocilia.Contradiction.Verify.{verify_contradiction}
use archiviste_nocilia.Contradiction.Endpoint.{
  CitationField, CitationsField, no_citations, not_a_list, listed, Payload, VerifyRequest, Checked,
  valid, invalid, then_check, valid_user_id, known_tier, valid_user_tier, valid_id, valid_claim,
  citation_of, with_path, ords_of, valid_citation, onto, read_citations, checked_citations,
  valid_citations, valid_force, parse_request, Response, answered, error, crashed, respond,
  verify_checked, post_verify_contradiction,
}

then_check-valid :
    {A B : Type 0} (c : Checked A) (next : A → Checked B) (b : B)
    → then_check c next ≡ valid b
    → (a : A) × ((c ≡ valid a) × (next a ≡ valid b))
then_check-valid (valid a) next b h = (a, (refl, h))
then_check-valid (invalid code) next b h = cc

valid_injective : {A : Type 0} {a b : A} → valid a ≡ valid b → a ≡ b
valid_injective {A} {a} {b} h = ap value h
  where
    value : Checked A → A
    value (valid c) = c
    value (invalid code) = a

valid_user_id_lem :
    (o : Option Text) (u : Text)
    → valid_user_id o ≡ valid u
    → (o ≡ some u) × (is_valid_uuid u ≡ true)
unfolding valid_user_id
valid_user_id_lem none u h = cc
valid_user_id_lem (some v) u h = elim (Bool-cases (is_valid_uuid v)) [
  | inl e ↦
      (let k : v ≡ u = valid_injective (rw e at h) in
        (ap some k, subst (λ x. is_valid_uuid x ≡ true) k e))
  | inr e ↦ (let k : invalid "invalid_request" ≡ valid u = rw e at h in cc)
]

valid_user_tier_lem :
    (o : Option String) (t : String)
    → valid_user_tier o ≡ valid t
    → (raw : String) × ((o ≡ some raw) × (internal_tier raw ≡ some t))
unfolding valid_user_tier
valid_user_tier_lem none t h = cc
valid_user_tier_lem (some raw) t h = (raw, (refl, known (internal_tier raw) h))
  where
    known : (o : Option String) → known_tier o ≡ valid t → o ≡ some t
    known none h = cc
    known (some u) h = ap some (valid_injective h)

valid_id_lem :
    (code : String) (f : Field) (i : Text)
    → valid_id code f ≡ valid i
    → (f ≡ Field.str i) × (is_valid_uuid i ≡ true)
unfolding valid_id
valid_id_lem code Field.missing i h = cc
valid_id_lem code Field.null i h = cc
valid_id_lem code Field.other i h = cc
valid_id_lem code (Field.str v) i h = elim (Bool-cases (is_valid_uuid v)) [
  | inl e ↦
      (let k : v ≡ i = valid_injective (rw e at h) in
        (ap Field.str k, subst (λ x. is_valid_uuid x ≡ true) k e))
  | inr e ↦ (let k : invalid code ≡ valid i = rw e at h in cc)
]

abbrev pub IsClaim : Text → Type 0
IsClaim c = (is_empty c ≡ false) × ((length c ≤ 4096) × (has_surrogate c ≡ false))

valid_claim_lem : (f : Field) (c : Text) → valid_claim f ≡ valid c → (f ≡ Field.str c) × IsClaim c
unfolding valid_claim
valid_claim_lem Field.missing c h = cc
valid_claim_lem Field.null c h = cc
valid_claim_lem Field.other c h = cc
valid_claim_lem (Field.str v) c h =
    elim (Bool-cases (not (is_empty v) && (leb (length v) 4096 && not (has_surrogate v)))) [
      | inl e ↦
          (let k : v ≡ c = valid_injective (rw e at h) in
            (ap Field.str k, subst IsClaim k (is_claim v e)))
      | inr e ↦ (let k : invalid "invalid_claim" ≡ valid c = rw e at h in cc)
    ]
  where
    is_claim :
        (v : Text)
        → not (is_empty v) && (leb (length v) 4096 && not (has_surrogate v)) ≡ true
        → IsClaim v
    is_claim v e = (ground arith, (ground arith, ground arith))

abbrev pub IsSmall : Citation → Type 0
IsSmall c = length c.chunk_ords ≤ 200

abbrev SmallOr : Option Citation → Type 0
SmallOr none = Unit
SmallOr (some c) = IsSmall c

abbrev AllSmallOr : Option (List Citation) → Type 0
AllSmallOr none = Unit
AllSmallOr (some cs) = All IsSmall cs

citation_of-IsSmall : (path : Text) (ords : Option (List ℕ)) → SmallOr (citation_of path ords)
citation_of-IsSmall path none = tt
citation_of-IsSmall path (some ords) = elim (Bool-cases (leb (length ords) 200)) [
  | inl e ↦ rw e (ground arith)
  | inr e ↦ rw e tt
]

onto-IsSmall :
    (c : Option Citation) (rest : Option (List Citation))
    → SmallOr c
    → AllSmallOr rest
    → AllSmallOr (onto c rest)
onto-IsSmall none rest h k = tt
onto-IsSmall (some c) none h k = tt
onto-IsSmall (some c) (some rest) h k = (h, k)

with_path-IsSmall : (ords : Option (List ℕ)) (f : Field) → SmallOr (with_path ords f)
unfolding has_surrogate
with_path-IsSmall ords Field.missing = tt
with_path-IsSmall ords Field.null = tt
with_path-IsSmall ords Field.other = tt
with_path-IsSmall ords (Field.str p) = elim (Bool-cases (has_surrogate p)) [
  | inl e ↦ rw e tt
  | inr e ↦ rw e (citation_of-IsSmall p ords)
]

valid_citation-IsSmall : (c : Option CitationField) → SmallOr (valid_citation c)
unfolding has_surrogate
valid_citation-IsSmall none = tt
valid_citation-IsSmall (some c) = with_path-IsSmall (ords_of c.chunk_ords) c.source_path

read_citations-IsSmall : (cs : List (Option CitationField)) → AllSmallOr (read_citations cs)
unfolding has_surrogate
read_citations-IsSmall [] = tt
read_citations-IsSmall (c ∷ cs) =
    onto-IsSmall (valid_citation c) (read_citations cs) (valid_citation-IsSmall c)
      (read_citations-IsSmall cs)

abbrev pub AreCitations : List Citation → Type 0
AreCitations cs = (length cs ≤ 50) × All IsSmall cs

checked_citations-AreCitations :
    (o : Option (List Citation)) (cs : List Citation)
    → AllSmallOr o
    → checked_citations o ≡ valid cs
    → AreCitations cs
checked_citations-AreCitations none cs h k = cc
checked_citations-AreCitations (some ds) cs h k = elim (Bool-cases (leb (length ds) 50)) [
  | inl e ↦ subst AreCitations (valid_injective (rw e at k)) (ground arith, h)
  | inr e ↦ (let z : invalid "invalid_citations" ≡ valid cs = rw e at k in cc)
]

valid_citations-AreCitations :
    (f : CitationsField) (cs : List Citation) → valid_citations f ≡ valid cs → AreCitations cs
unfolding valid_citations
valid_citations-AreCitations no_citations cs h =
    subst AreCitations (valid_injective h) (omega arith, tt)
valid_citations-AreCitations not_a_list cs h = cc
valid_citations-AreCitations (listed l) cs h =
    checked_citations-AreCitations (read_citations l) cs (read_citations-IsSmall l) h

-- Where the parts of a request that is let through come from.
abbrev pub IsFrom : Payload → Headers → VerifyRequest → Type 0
IsFrom p h r =
    ((h.x_user_id ≡ some r.user_id) × (is_valid_uuid r.user_id ≡ true))
    × (((raw : String) × ((h.x_user_tier ≡ some raw) × (internal_tier raw ≡ some r.user_tier)))
        × (((p.request_id ≡ Field.str r.request_id) × (is_valid_uuid r.request_id ≡ true))
            × (((p.conversation_id ≡ Field.str r.conversation_id)
                  × (is_valid_uuid r.conversation_id ≡ true))
                × (((p.claim ≡ Field.str r.claim) × IsClaim r.claim)
                    × ((valid_citations p.citations ≡ valid r.citations)
                        × (AreCitations r.citations × (valid_force p.force ≡ valid r.force)))))))

parse_request-IsFrom_claim :
    (p : Payload) (h : Headers) (r : VerifyRequest) → parse_request p h ≡ valid r → IsFrom p h r
unfolding parse_request
parse_request-IsFrom_claim p h r k =
    let (user, (a, k1)) = then_check-valid (valid_user_id h.x_user_id) _ r k in
    let (tier, (b, k2)) = then_check-valid (valid_user_tier h.x_user_tier) _ r k1 in
    let (request_id, (c, k3)) = then_check-valid (valid_id "invalid_request" p.request_id) _ r k2 in
    let (conversation_id, (d, k4)) =
      then_check-valid (valid_id "invalid_conversation_id" p.conversation_id) _ r k3 in
    let (claim, (e, k5)) = then_check-valid (valid_claim p.claim) _ r k4 in
    let (citations, (f, k6)) = then_check-valid (valid_citations p.citations) _ r k5 in
    let (force, (g, k7)) = then_check-valid (valid_force p.force) _ r k6 in
    subst (IsFrom p h) (valid_injective k7) (
      valid_user_id_lem h.x_user_id user a,
      (
        valid_user_tier_lem h.x_user_tier tier b,
        (
          valid_id_lem "invalid_request" p.request_id request_id c,
          (
            valid_id_lem "invalid_conversation_id" p.conversation_id conversation_id d,
            (
              valid_claim_lem p.claim claim e,
              (f, (valid_citations-AreCitations p.citations citations f, g)),
            ),
          ),
        ),
      ),
    )

module _ {V : Type 0} (panel : Panel V) (tickets : List (Ticket V)) (p : Payload)
    (h : Headers) where
  -- What a response shows of the request and of the table of tickets.
  abbrev pub IsAnswer : List (Ticket V) × Response → Type 0
  IsAnswer (after, answered result) =
      (r : VerifyRequest) × (IsFrom p h r
        × (verify_contradiction panel tickets r.claim r.conversation_id r.citations r.user_tier
              r.force
            ≡ some (after, result)))
  IsAnswer (after, error status code) =
      (after ≡ tickets) × ((status ≡ 400) × (parse_request p h ≡ invalid code))
  IsAnswer (after, crashed) = after ≡ tickets

  respond-IsAnswer :
      (r : VerifyRequest)
      → IsFrom p h r
      → IsAnswer (
          respond panel tickets (
            verify_contradiction panel tickets r.claim r.conversation_id r.citations r.user_tier
              r.force))
  respond-IsAnswer r from =
      elim (Option-cases (
        verify_contradiction panel tickets r.claim r.conversation_id r.citations r.user_tier
          r.force)) [ inl e ↦ rw e refl | inr (x, e) ↦ rw e (r, (from, e)) ]

  verify_checked-IsAnswer :
      (c : Checked VerifyRequest)
      → parse_request p h ≡ c
      → IsAnswer (verify_checked panel tickets c)
  unfolding verify_contradiction
  verify_checked-IsAnswer (invalid code) e = (refl, (refl, e))
  verify_checked-IsAnswer (valid r) e = respond-IsAnswer r (parse_request-IsFrom_claim p h r e)

-- A verdict is only ever given on a request whose user and tier come from the headers and whose ids are UUIDs, with a claim of 1 to 4096 characters
-- and at most 50 citations of at most 200 ordinals, and it is the one of the panel on it with the tickets as the panel leaves them. A request that is rejected is
-- answered with the status 400, and one that is rejected or crashes leaves the table of tickets.
pub post_verify_contradiction-IsAnswer :
    {V : Type 0} (panel : Panel V) (tickets : List (Ticket V)) (p : Payload) (h : Headers)
    → IsAnswer panel tickets p h (post_verify_contradiction panel tickets p h)
unfolding post_verify_contradiction
post_verify_contradiction-IsAnswer panel tickets p h =
    verify_checked-IsAnswer panel tickets p h (parse_request p h) refl
