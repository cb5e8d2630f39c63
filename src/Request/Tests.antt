-- ===== src/Request/Tests.antt =====
-- A concrete request.
use archiviste_nocilia.Prelude.{◌≡◌, refl, true, codes, ◌++◌}
use archiviste_nocilia.Prelude.Decimal.{utf8_length}
use archiviste_nocilia.Request.{is_valid_uuid, parse_request}
use archiviste_nocilia.Request.Accepted.{IsFrom, parse_request-IsFrom}
use archiviste_nocilia.Fixtures.{payload, headers, generate_request, user_id}

-- A line break behind an id passes.
passes_line_break : is_valid_uuid (user_id ++ codes "\n") ≡ true
unfolding is_valid_uuid
passes_line_break = refl

parse_request-IsFrom_example : IsFrom payload headers generate_request
unfolding parse_request utf8_length
parse_request-IsFrom_example = parse_request-IsFrom payload headers generate_request refl
