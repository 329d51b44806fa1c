-- ===== src/Webhook/Tests.antt =====
-- The limiter at concrete inputs.
use ocg.Base.{ℕ, All, List, ◌∷◌, String, ◌≡◌, refl, [], none, arith, string_eq}
use ocg.Base.Map.{lookup}
use ocg.Base.Text.{codes}
use ocg.Webhook.{WebhookRateLimiter, Headers, authenticate, record_failure, rate_limited, token_of}
use ocg.Webhook.Limiter.{Request, answers, record_failure-locks, Answered, authenticate-Answered}

abbrev five_failures : WebhookRateLimiter
five_failures = record { max_failures = 5; window_secs = 300; failures = [] }

abbrev right_token : Headers
right_token = record { authorization = codes "Bearer secret"; ocg_token = [] }

no_entry : lookup "10.0.0.1" five_failures.failures ≡ none
unfolding lookup
no_entry = refl

-- Two requests within the window, both with the right token.
abbrev two_tries : List Request
two_tries = (2000, right_token) ∷ (200000, right_token) ∷ []

record_failure-locks_example :
    All
      (λ a. a ≡ rate_limited)
      (answers (codes "secret") "10.0.0.1" (record_failure five_failures "10.0.0.1" 1000) two_tries)
record_failure-locks_example =
    record_failure-locks (codes "secret") five_failures "10.0.0.1" 1000 two_tries no_entry
      (omega arith, (omega arith, tt))

authenticate-Answered_example :
    Answered
      (codes "secret")
      "10.0.0.1"
      (token_of right_token)
      (authenticate (codes "secret") five_failures "10.0.0.1" 5 right_token)
authenticate-Answered_example =
    authenticate-Answered (codes "secret") five_failures "10.0.0.1" 5 right_token

abbrev two_agents : List String
two_agents = "main" ∷ "*" ∷ []

abbrev hook_prefix : List (List ℕ)
hook_prefix = codes "hook:" ∷ []
