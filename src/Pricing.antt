-- ===== src/Pricing.antt =====
-- workers/src/archiviste_workers/generate/pricing.py. A price is held in cents per million tokens
-- and a cost in millionths of a euro, the unit of `_QUANT`, so that both are naturals. The decimal
-- arithmetic of the source is exact up to 28 digits, and rounds only in `quantize`.
pub mod Rounding
mod Tests
use archiviste_nocilia.Prelude.{
  ℕ, ◌+◌, ◌*◌, ◌/◌, ◌%◌, String, Option, none, some, ◌==◌, ltb, eqb, if◌then◌else◌,
}

pub record ModelPricing : Type 0 where
  pub prompt_cents_per_mtok : ℕ
  pub completion_cents_per_mtok : ℕ

abbrev price : ℕ → ℕ → Option ModelPricing
price p c = some (record { prompt_cents_per_mtok = p; completion_cents_per_mtok = c })

-- `MODEL_PRICING.get(model)`
unfoldable pub model_pricing : String → Option ModelPricing
model_pricing model =
    if model == "mistral-small-latest"
    then price 20 60
    else if model == "mistral-large-latest"
    then price 200 600
    else if model == "claude-3-5-sonnet-20241022"
    then price 280 1400
    else if model == "gemini-1.5-flash"
    then price 7 28
    else if model == "gpt-4o-mini"
    then price 14 56
    else if model == "deepseek-chat"
    then price 13 27
    else none

-- `quantize(_QUANT, rounding=ROUND_HALF_EVEN)` of `n` hundredths of the unit
unfoldable pub quantize : ℕ → ℕ
quantize n =
    let q = n / 100 in
    if ltb (2 * (n % 100)) 100
    then q
    else if ltb 100 (2 * (n % 100))
    then q + 1
    else if eqb (q % 2) 0
    then q
    else q + 1

-- The exact cost, in hundredths of a millionth.
unfoldable pub exact_cost : ModelPricing → ℕ → ℕ → ℕ
exact_cost p prompt_tokens completion_tokens =
    p.prompt_cents_per_mtok * prompt_tokens + p.completion_cents_per_mtok * completion_tokens

abbrev priced : Option ModelPricing → ℕ → ℕ → Option ℕ
priced none prompt_tokens completion_tokens = none
priced (some p) prompt_tokens completion_tokens =
    some (quantize (exact_cost p prompt_tokens completion_tokens))

unfoldable pub compute_cost_eur : String → Option ℕ → Option ℕ → Option ℕ
unfolding model_pricing quantize exact_cost
compute_cost_eur model none completion_tokens = none
compute_cost_eur model (some p) none = none
compute_cost_eur model (some p) (some c) = priced (model_pricing model) p c
