-- ===== src/Retrieve/Asked.antt =====
-- What the endpoint accepts, and how its limits meet those of the generation request.
use mathlib.Core.Path.{subst}
use archiviste_nocilia.Prelude.{
  ℕ, ◌+◌, ◌≤◌, String, Text, Bool, true, false, ◌&&◌, ◌||◌, ◌≡◌, refl, sym, ◌∙◌, ap, Option, none,
  some, [], ◌∷◌, ◌++◌, ltb, strip, lstrip_by, rstrip_by, strip_by, is_space, is_empty, codes,
  text_eq, ◌==◌, if◌then◌else◌, Bool-cases, inl, inr, arith,
}
use archiviste_nocilia.Prelude.Decimal.{utf8_length}
use archiviste_nocilia.Prelude.Int.{pos, negsuc}
use archiviste_nocilia.Request.{has_surrogate, is_valid_query, internal_tier}
use archiviste_nocilia.Router.Contexts.{augment}
use archiviste_nocilia.Retrieve.{
  Value, Payload, Checked, valid, invalid, unencodable, then_check, validate_query, validate_top_k,
  validate_user_tier, validate_body, Question, is_missing, max_query_bytes, request_body, Backend,
  error, post_retrieve, execute_search, answer,
}

then_check-valid :
    {A B : Type 0} (c : Checked A) (next : A → Checked B) (b : B)
    → then_check c next ≡ valid b
    → (a : A) × ((c ≡ valid a) × (next a ≡ valid b))
then_check-valid (valid a) next b h = (a, (refl, h))
then_check-valid (invalid code) next b h = cc
then_check-valid unencodable next b h = cc

validate_top_k-bounds : (v : Value) (k : ℕ) → validate_top_k v ≡ valid k → (1 ≤ k) × (k ≤ 20)
unfolding validate_top_k
validate_top_k-bounds Value.missing k h = ground arith
validate_top_k-bounds Value.null k h = ground arith
validate_top_k-bounds Value.other k h = cc
validate_top_k-bounds (Value.flag b) k h = cc
validate_top_k-bounds (Value.text t) k h = cc
validate_top_k-bounds (Value.number (pos n)) k h = ground arith
validate_top_k-bounds (Value.number (negsuc n)) k h = cc

validate_query-bounds :
    (v : Value) (q : Text)
    → validate_query v ≡ valid q
    → (is_empty (strip q) ≡ false) × ((has_surrogate q ≡ false) × (utf8_length q ≤ 4096))
unfolding validate_query
validate_query-bounds (Value.text t) q h = ground arith
validate_query-bounds Value.missing q h = cc
validate_query-bounds Value.null q h = cc
validate_query-bounds Value.other q h = cc
validate_query-bounds (Value.flag b) q h = cc
validate_query-bounds (Value.number n) q h = cc

-- What the endpoint lets through.
abbrev pub IsAskable : Question → Type 0
IsAskable q =
    ((is_empty (strip q.query) ≡ false)
      × ((has_surrogate q.query ≡ false) × (utf8_length q.query ≤ 4096)))
    × ((1 ≤ q.top_k) × (q.top_k ≤ 20))

pub validate_body-IsAskable :
    (payload : Payload) (q : Question) → validate_body payload ≡ valid q → IsAskable q
unfolding validate_body
validate_body-IsAskable Payload.unreadable q h = cc
validate_body-IsAskable Payload.not_object q h = cc
validate_body-IsAskable (Payload.object b) q h =
    elim (Bool-cases (is_missing b.query || is_missing b.user_tier)) [
      | inl e ↦ (let k : invalid "invalid_request" ≡ valid q = rw e at h in cc)
      | inr e ↦
          let (query, (a, h1)) = then_check-valid (validate_query b.query) _ q (rw e at h) in
          let (top_k, (c, h2)) = then_check-valid (validate_top_k b.top_k) _ q h1 in
          let (tier, (d, h3)) = then_check-valid (validate_user_tier b.user_tier) _ q h2 in
          subst IsAskable (question h3)
            (validate_query-bounds b.query query a, validate_top_k-bounds b.top_k top_k c)
    ]
  where
    asked : Checked Question → Question
    asked (valid a) = a
    asked (invalid code) = q
    asked unencodable = q

    question : {a : Question} → valid a ≡ valid q → a ≡ q
    question h = ap asked h

-- A text is blank if it has only spaces.
abbrev only_spaces : Text → Bool
only_spaces [] = true
only_spaces (c ∷ s) = is_space c && only_spaces s

rstrip_by-blank : (s : Text) → is_empty (rstrip_by is_space s) ≡ only_spaces s
unfolding rstrip_by
rstrip_by-blank [] = refl
rstrip_by-blank (c ∷ s) = split (rstrip_by is_space s) (rstrip_by-blank s)
  where
    split :
        (t : Text)
        → is_empty t ≡ only_spaces s
        → is_empty (elim t [ [] ↦ if is_space c then [] else c ∷ [] | d ∷ u ↦ c ∷ d ∷ u ])
          ≡ is_space c && only_spaces s
    split [] h = elim (Bool-cases (is_space c)) [ inl e ↦ rw (e, sym h) refl | inr e ↦ rw e refl ]
    split (d ∷ u) h = elim (Bool-cases (is_space c)) [
      | inl e ↦ rw (e, sym h) refl
      | inr e ↦ rw e refl
    ]

lstrip_by-blank : (s : Text) → only_spaces (lstrip_by is_space s) ≡ only_spaces s
unfolding lstrip_by
lstrip_by-blank [] = refl
lstrip_by-blank (c ∷ s) = ground (arith, lstrip_by-blank s)

only_spaces-append : (s t : Text) → only_spaces (s ++ t) ≡ only_spaces s && only_spaces t
only_spaces-append [] t = refl
only_spaces-append (c ∷ s) t = ground (arith, only_spaces-append s t)

strip-blank : (s : Text) → is_empty (strip s) ≡ only_spaces s
unfolding strip strip_by
strip-blank s = rstrip_by-blank (lstrip_by is_space s) ∙ lstrip_by-blank s

utf8_length-append : (s t : Text) → utf8_length (s ++ t) ≡ utf8_length s + utf8_length t
unfolding utf8_length
utf8_length-append [] t = omega arith
utf8_length-append (c ∷ s) t = omega (arith, utf8_length-append s t)

has_surrogate-append : (s t : Text) → has_surrogate (s ++ t) ≡ has_surrogate s || has_surrogate t
unfolding has_surrogate
has_surrogate-append [] t = refl
has_surrogate-append (c ∷ s) t = ground (arith, has_surrogate-append s t)

-- The bytes of what the generation endpoints ask for: the query, behind the last turn of the user if there is one.
abbrev pub asked_bytes : Option Text → Text → ℕ
asked_bytes none query = utf8_length query
asked_bytes (some turn) query =
    if is_empty turn then utf8_length query else utf8_length turn + (1 + utf8_length query)

-- What is asked for: the query, behind the last turn of the user and a line break if there is a turn that is not empty.
abbrev pub asked_text : Option Text → Text → Text
asked_text none query = query
asked_text (some []) query = query
asked_text (some (c ∷ turn)) query = (c ∷ turn) ++ (codes "\n" ++ query)

augment-asked_text :
    (turn : Option Text) (query : Text) → augment turn query ≡ asked_text turn query
unfolding augment
augment-asked_text none query = refl
augment-asked_text (some []) query = refl
augment-asked_text (some (c ∷ turn)) query = refl

abbrev pub IsEncodable : Option Text → Type 0
IsEncodable none = Unit
IsEncodable (some turn) = has_surrogate turn ≡ false

-- What is checked of a text, all at once.
checked_query :
    (s : Text) (n : ℕ)
    → only_spaces s ≡ false
    → has_surrogate s ≡ false
    → utf8_length s ≡ n
    → validate_query (Value.text s)
      ≡ (if ltb max_query_bytes n then invalid "invalid_query" else valid s)
unfolding validate_query
checked_query s n blank plain size = rw (strip-blank s, blank, plain, size) refl

and_false : (b : Bool) → b && false ≡ false
and_false true = refl
and_false false = refl

line_break : (q : Text) → has_surrogate (10 ∷ q) ≡ has_surrogate q
unfolding has_surrogate
line_break q = refl

line_size : (q : Text) → utf8_length (10 ∷ q) ≡ 1 + utf8_length q
unfolding utf8_length
line_size q = refl

query-encodable : (q : Text) → is_valid_query q ≡ true → has_surrogate q ≡ false
unfolding is_valid_query
query-encodable q h = ground arith

tier-valid :
    (raw tier : String)
    → internal_tier raw ≡ some tier
    → validate_user_tier (Value.text (codes tier)) ≡ valid tier
unfolding internal_tier validate_user_tier text_eq
tier-valid raw tier h = elim (Bool-cases (raw == "anonymous")) [
  | inl a ↦ (let k : "anonymous" ≡ tier = ground arith in subst IsAllowed k refl)
  | inr a ↦ elim (Bool-cases (raw == "member")) [
    | inl m ↦ (let k : "members" ≡ tier = ground arith in subst IsAllowed k refl)
    | inr m ↦ elim (Bool-cases (raw == "author")) [
      | inl o ↦ (let k : "author_only" ≡ tier = ground arith in subst IsAllowed k refl)
      | inr o ↦ ground arith
    ]
  ]
]
  where
    IsAllowed : String → Type 0
    IsAllowed t = validate_user_tier (Value.text (codes t)) ≡ valid t

augmented :
    (turn : Option Text) (q : Text)
    → only_spaces q ≡ false
    → has_surrogate q ≡ false
    → IsEncodable turn
    → (only_spaces (augment turn q) ≡ false)
      × ((has_surrogate (augment turn q) ≡ false)
          × (utf8_length (augment turn q) ≡ asked_bytes turn q))
unfolding augment is_space
augmented none q blank plain h = (blank, (plain, refl))
augmented (some []) q blank plain h = (blank, (plain, refl))
augmented (some (c ∷ turn)) q blank plain h = (
  only_spaces-append (c ∷ turn) (10 ∷ q) ∙ rw blank (and_false (only_spaces (c ∷ turn))),
  (
    has_surrogate-append (c ∷ turn) (10 ∷ q) ∙ rw (h, line_break q, plain) refl,
    utf8_length-append (c ∷ turn) (10 ∷ q) ∙ rw (line_size q) refl,
  ),
)

-- Where a conversation has a last turn of the user, what is asked for is this turn, a line break and the query. If the query is one that the
-- generation endpoint accepts and is not blank, retrieval runs the search for it exactly if all this has at most 4096 bytes, and
-- rejects it as an invalid query otherwise, though neither part is too long.
pub post_retrieve-augment :
    {V : Type 0} (b : Backend V) (turn : Option Text) (q : Text) (raw tier : String)
    → is_valid_query q ≡ true
    → is_empty (strip q) ≡ false
    → IsEncodable turn
    → internal_tier raw ≡ some tier
    → post_retrieve b (request_body (augment turn q) 5 tier) ≡ (
        if ltb 4096 (asked_bytes turn q)
        then error 400 "invalid_query"
        else execute_search b
            (record { query = asked_text turn q; top_k = 5; user_tier = tier })
            b.embedder)
unfolding post_retrieve answer validate_body validate_top_k
post_retrieve-augment b turn q raw tier h blank plain known =
    let (spaces, (codable, size)) =
      augmented turn q (sym (strip-blank q) ∙ blank) (query-encodable q h) plain in
    let checked = checked_query (augment turn q) (asked_bytes turn q) spaces codable size in
    let allowed = tier-valid raw tier known in
    let found : post_retrieve b (request_body (augment turn q) 5 tier) ≡ (
        if ltb 4096 (asked_bytes turn q)
        then error 400 "invalid_query"
        else execute_search b (record { query = augment turn q; top_k = 5; user_tier = tier })
            b.embedder) =
      rw (checked, allowed)
        (elim (Bool-cases (ltb 4096 (asked_bytes turn q))) [
          | inl e ↦ rw e refl
          | inr e ↦ rw e refl
        ]) in
    found
    ∙ ap
        (λ s.
          if ltb 4096 (asked_bytes turn q)
          then error 400 "invalid_query"
          else execute_search b (record { query = s; top_k = 5; user_tier = tier }) b.embedder)
        (augment-asked_text turn q)
