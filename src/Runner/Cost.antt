-- ===== src/Runner/Cost.antt =====
-- internal/llm/pricing.go: the price table and CostCents. A price is in cents for a million tokens.
use cronfoundry.Prelude.{
  ℕ, ◌+◌, ◌*◌, ◌/◌, String, Option, none, some, List, [], ◌∷◌, str_eq, if◌then◌else◌,
}

pub record Price : Type 0 where
  pub in_price : ℕ
  pub out_price : ℕ

-- llm.Usage
pub record Usage : Type 0 where
  pub input_tokens : ℕ
  pub output_tokens : ℕ

abbrev pub priced : String → ℕ → ℕ → String × Price
priced model i o = (model, record { in_price = i; out_price = o })

unfoldable pub price_table : List (String × List (String × Price))
price_table =
    (
      "openai",
      priced "gpt-4o-mini" 15 60 ∷ priced "gpt-4o" 250 1000 ∷ priced "gpt-5.1" 300 600 ∷ [],
    )
    ∷ (
      "openrouter",
      priced "openai/gpt-4o-mini" 15 60
          ∷ priced "openai/gpt-4o" 250 1000
          ∷ priced "anthropic/claude-haiku-4.5" 100 500
          ∷ priced "anthropic/claude-sonnet-4.5" 300 1500
          ∷ priced "meta-llama/llama-3.3-70b-instruct" 59 79
          ∷ priced "google/gemini-2.0-flash-001" 10 40
          ∷ [],
    )
    ∷ (
      "anthropic",
      priced "claude-haiku-4-5" 100 500
          ∷ priced "claude-sonnet-4-5" 300 1500
          ∷ priced "claude-opus-4-6" 1500 7500
          ∷ [],
    )
    ∷ ("copilot-enterprise", [])
    ∷ []

abbrev pub lookup {ℓ} : {A : Type ℓ} → String → List (String × A) → Option A
lookup k [] = none
lookup k ((j, a) ∷ rest) = let found = lookup k rest in if str_eq j k then some a else found

unfoldable pub price_cents : Option Price → Usage → ℕ
price_cents none u = 0
price_cents (some p) u =
    u.input_tokens * p.in_price / 1000000 + u.output_tokens * p.out_price / 1000000

abbrev pub price_of : Option (List (String × Price)) → String → Option Price
price_of none model = none
price_of (some models) model = lookup model models

-- CostCents, before its conversion to int
unfoldable pub cost_cents : String → String → Usage → ℕ
cost_cents provider model u = price_cents (price_of (lookup provider price_table) model) u
