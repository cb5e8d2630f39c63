-- ===== src/Pricing/Tests.antt =====
-- The cost of a concrete call.
use archiviste_nocilia.Prelude.{◌≡◌, refl, some, All}
use archiviste_nocilia.Pricing.{compute_cost_eur}
use archiviste_nocilia.Pricing.Rounding.{tariffs, IsCharged, compute_cost_eur-IsCharged}

rounds_half_even : compute_cost_eur "gemini-1.5-flash" (some 50) (some 25) ≡ some 10
unfolding compute_cost_eur
rounds_half_even = refl

compute_cost_eur-IsCharged_example : All (IsCharged 1200 305) tariffs
compute_cost_eur-IsCharged_example = compute_cost_eur-IsCharged 1200 305
