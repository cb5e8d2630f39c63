-- ===== src/Pricing/Rounding.antt =====
-- The cost of the models: the tariffs, and the rounding to the nearest millionth of a euro.
use archiviste_nocilia.Prelude.{
  ℕ, ◌+◌, ◌*◌, ◌%◌, ◌≤◌, ◌<◌, ◌⊎◌, String, ◌≡◌, refl, some, List, [], ◌∷◌, All, arith,
}
use archiviste_nocilia.Pricing.{model_pricing, quantize, exact_cost, compute_cost_eur}

-- At most half a unit away, and even where it is exactly half a unit away.
pub record IsNearest (n q : ℕ) : Type 0 where
  pub above : n ≤ 100 * q + 50
  pub below : 100 * q ≤ n + 50
  pub even_up : (100 * q < n + 50) ⊎ (q % 2 ≡ 0)
  pub even_down : (n < 100 * q + 50) ⊎ (q % 2 ≡ 0)

quantize-IsNearest : (n : ℕ) → IsNearest n (quantize n)
unfolding quantize
quantize-IsNearest n = record {
  above = ground arith;
  below = ground arith;
  even_up = ground arith;
  even_down = ground arith;
}

-- The tariffs, in cents for a million tokens of the prompt and of the completion.
abbrev pub tariffs : List (String × ℕ × ℕ)
tariffs =
    ("mistral-small-latest", 20, 60)
    ∷ ("mistral-large-latest", 200, 600)
    ∷ ("claude-3-5-sonnet-20241022", 280, 1400)
    ∷ ("gemini-1.5-flash", 7, 28)
    ∷ ("gpt-4o-mini", 14, 56)
    ∷ ("deepseek-chat", 13, 27)
    ∷ []

-- A model costs its tariff for the tokens, to the nearest millionth of a euro.
abbrev pub IsCharged : ℕ → ℕ → String × ℕ × ℕ → Type 0
IsCharged prompt_tokens completion_tokens (model, prompt, completion) =
    (cost : ℕ) × (compute_cost_eur model (some prompt_tokens) (some completion_tokens) ≡ some cost)
    × IsNearest (prompt * prompt_tokens + completion * completion_tokens) cost

charged :
    (model : String) (prompt completion prompt_tokens completion_tokens : ℕ)
    → model_pricing model
      ≡ some (record { prompt_cents_per_mtok = prompt; completion_cents_per_mtok = completion })
    → IsCharged prompt_tokens completion_tokens (model, prompt, completion)
unfolding compute_cost_eur exact_cost
charged model prompt completion prompt_tokens completion_tokens h =
    let exact = prompt * prompt_tokens + completion * completion_tokens in
    (quantize exact, rw h refl, quantize-IsNearest exact)

-- Each of the six models has a cost for any token counts: the tariff of the prompt for its tokens and that of the completion for its, rounded to the
-- nearest millionth of a euro, ties to the even one.
pub compute_cost_eur-IsCharged :
    (prompt_tokens completion_tokens : ℕ) → All (IsCharged prompt_tokens completion_tokens) tariffs
unfolding model_pricing
compute_cost_eur-IsCharged p c = (
  charged "mistral-small-latest" 20 60 p c refl,
  (
    charged "mistral-large-latest" 200 600 p c refl,
    (
      charged "claude-3-5-sonnet-20241022" 280 1400 p c refl,
      (
        charged "gemini-1.5-flash" 7 28 p c refl,
        (charged "gpt-4o-mini" 14 56 p c refl, (charged "deepseek-chat" 13 27 p c refl, tt)),
      ),
    ),
  ),
)
