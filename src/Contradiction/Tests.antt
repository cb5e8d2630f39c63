-- ===== src/Contradiction/Tests.antt =====
-- A panel of judges on concrete verdicts.
use archiviste_nocilia.Prelude.{
  text_eq, ℕ, Text, ◌≡◌, refl, true, false, none, some, List, [], ◌∷◌, ◌++◌, codes, length, arith,
}
use archiviste_nocilia.Prelude.Int.{pos}
use archiviste_nocilia.Request.{Field, Headers, is_valid_uuid, internal_tier, has_surrogate}
use archiviste_nocilia.Fixtures.{user_id, conversation_id, request_id}
use archiviste_nocilia.Contradiction.Endpoint.{
  Payload, CitationsField, ForceField, Response, post_verify_contradiction,
}
use archiviste_nocilia.Contradiction.Checked.{IsAnswer, post_verify_contradiction-IsAnswer}
use archiviste_nocilia.Llm.{Reply}
use archiviste_nocilia.Contradiction.{Panel}
use archiviste_nocilia.Contradiction.Judges.{Verdict, Source, parse_verdict}
use archiviste_nocilia.Contradiction.Redaction.{safe_reason, redact_reason}
use archiviste_nocilia.Contradiction.Leaks.{redact_reason-passage}
use archiviste_nocilia.Contradiction.Verify.{conclude, no_sources, verify_contradiction}
use archiviste_nocilia.Contradiction.Raised.{IsPolicy, conclude-IsPolicy}

abbrev panel : Panel ℕ
panel = record {
  is_word = λ c. false;
  lower = λ t. t;
  invoke = λ messages timeout. Reply.timeout;
  corpus = some [];
  search = λ claim tiers k. some [];
  ticket_clients = record {
    encode = λ question. some (length question);
    distance = λ u v. 0;
    available = true;
    new_id = codes "t1";
  };
}

abbrev two_absent : List (Verdict × Text)
two_absent = (Verdict.absent, codes "rien") ∷ (Verdict.present, []) ∷ (Verdict.absent, []) ∷ []

-- A keyword spelled with a dotted capital I raises the `KeyError`.
raises_key_error :
    parse_verdict
      (λ c. false)
      (67 ∷ 79 ∷ 78 ∷ 84 ∷ 82 ∷ 65 ∷ 68 ∷ 0x130 ∷ 67 ∷ 84 ∷ 73 ∷ 79 ∷ 78 ∷ [])
    ≡ none
unfolding parse_verdict
raises_key_error = refl

parses_present :
    parse_verdict (λ c. false) (codes " Bilan: Present - vu.") ≡ some (Verdict.present, codes "vu")
unfolding parse_verdict
parses_present = refl

conclude-IsPolicy_example :
    IsPolicy panel []
      (codes "Deux lunes")
      (codes "c")
      true
      two_absent
      (conclude panel [] (codes "Deux lunes") (codes "c") [] true two_absent)
conclude-IsPolicy_example =
    conclude-IsPolicy panel [] (codes "Deux lunes") (codes "c") [] true
      (Verdict.absent, codes "rien") (Verdict.present, []) (Verdict.absent, [])

-- A passage of 47 characters, and a source that has it behind three others.
abbrev passage : Text
passage = codes "la lune rousse se leve au nord tous les sept an"

abbrev leaky : Source
leaky = record { path = codes "a.md"; ord = 0; body = codes "Or " ++ (passage ++ codes "s.") }

-- A passage of 46 characters between two windows is let through.
lets_through :
    redact_reason
      (λ t. t)
      (codes "la lune rousse se leve au nord tous les sept a")
      Verdict.absent
      (record {
        path = codes "a.md";
        ord = 0;
        body = codes "X" ++ (codes "la lune rousse se leve au nord tous les sept a" ++ codes "!");
      }
        ∷ [])
    ≡ codes "la lune rousse se leve au nord tous les sept a"
unfolding redact_reason
lets_through = refl

redact_reason-passage_example :
    redact_reason (λ t. t) (codes "vu: " ++ (passage ++ [])) Verdict.absent (leaky ∷ [])
    ≡ safe_reason Verdict.absent
redact_reason-passage_example =
    redact_reason-passage (λ t. t) (codes "vu: " ++ (passage ++ [])) Verdict.absent [] leaky []
      (codes "Or ") passage (codes "s.") (codes "vu: ") [] (omega arith) refl refl (omega arith)

-- A claim with one citation, by a member.
abbrev request : Payload
request = record {
  claim = Field.str (codes "Nocilia a deux lunes.");
  conversation_id = Field.str conversation_id;
  citations = CitationsField.listed (
      some (record {
        source_path = Field.str (codes "cosmos/lunes.md");
        chunk_ords = some (pos 0 ∷ []);
      })
      ∷ []);
  request_id = Field.str request_id;
  force = ForceField.flag true;
}

abbrev headers : Headers
headers = record { x_user_id = some user_id; x_user_tier = some "member" }

post_verify_contradiction-IsAnswer_example :
    IsAnswer panel [] request headers (post_verify_contradiction panel [] request headers)
post_verify_contradiction-IsAnswer_example =
    post_verify_contradiction-IsAnswer panel [] request headers

-- The cited source is not in the corpus, so the panel is not asked.
answers :
    ((post_verify_contradiction panel [] request headers).1 ≡ Response.answered (no_sources panel))
unfolding post_verify_contradiction is_valid_uuid internal_tier has_surrogate verify_contradiction
    text_eq
answers = refl
