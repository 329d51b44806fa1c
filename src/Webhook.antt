-- ===== src/Webhook.antt =====
-- gateway/webhook.go: the limiter of failed authentications, `Authenticate`, and the rules for
-- the agents and sessions that a request names. Instants are milliseconds, and one reading of the clock serves a call. Header values and tokens are lists of
-- bytes. Each method runs under the lock of the limiter.
pub mod Limiter
pub mod Rules
mod Tests
use ocg.Base.{
  ℕ, suc, ◌+◌, ◌*◌, ◌≡◌, Bool, true, false, ◌||◌, List, [], ◌∷◌, Option, none, some, String,
  if◌then◌else◌, ltb, drop, ◌==◌, string_eq,
}
use ocg.Base.Map.{Map, lookup, insert, delete}
use ocg.Base.Text.{codes, has_prefix, same_text}

pub record FailureRecord : Type 0 where
  pub count : ℕ
  pub first_fail : ℕ
  pub retry_after : ℕ

pub record WebhookRateLimiter : Type 0 where
  pub max_failures : ℕ
  pub window_secs : ℕ
  pub failures : Map String FailureRecord

unfoldable pub new_webhook_rate_limiter : ℕ → ℕ → WebhookRateLimiter
new_webhook_rate_limiter max_failures window_secs = record {
  max_failures = max_failures;
  window_secs = window_secs;
  failures = [];
}

-- The window, in milliseconds.
abbrev pub window : WebhookRateLimiter → ℕ
window r = r.window_secs * 1000

-- `ResetFailures`.
unfoldable pub reset_failures : WebhookRateLimiter → String → WebhookRateLimiter
reset_failures r client_ip = record r { failures = delete client_ip r.failures }

abbrev pub allow_found :
    WebhookRateLimiter → String → ℕ → Option FailureRecord → Bool × WebhookRateLimiter
allow_found r client_ip now none = (true, r)
allow_found r client_ip now (some f) =
    if ltb (f.first_fail + window r) now
    then (true, record r { failures = delete client_ip r.failures })
    else if ltb now f.retry_after
    then (false, r)
    else (true, r)

unfoldable pub allow : WebhookRateLimiter → String → ℕ → Bool × WebhookRateLimiter
unfolding lookup
allow r client_ip now = allow_found r client_ip now (lookup client_ip r.failures)

abbrev pub fail_again : WebhookRateLimiter → ℕ → Option FailureRecord → FailureRecord
fail_again r now none = record { count = 1; first_fail = now; retry_after = now + window r }
fail_again r now (some f) = record f { count = suc f.count; retry_after = now + window r }

unfoldable pub record_failure : WebhookRateLimiter → String → ℕ → WebhookRateLimiter
unfolding lookup insert
record_failure r client_ip now = record r {
  failures = insert client_ip (fail_again r now (lookup client_ip r.failures)) r.failures;
}

-- The answers of `Authenticate`: true, or an HTTP error.
pub data Answer : Type 0 where
  authenticated : Answer
  rate_limited : Answer
  missing_token : Answer
  invalid_token : Answer

-- The headers that are read.
pub record Headers : Type 0 where
  pub authorization : List ℕ
  pub ocg_token : List ℕ

abbrev pub token_of : Headers → List ℕ
token_of h =
    if has_prefix h.authorization (codes "Bearer ") then drop 7 h.authorization else h.ocg_token

abbrev pub check_token :
    List ℕ → String → ℕ → List ℕ → WebhookRateLimiter → Answer × WebhookRateLimiter
check_token expected client_ip now token r =
    if same_text token []
    then (missing_token, record_failure r client_ip now)
    else if same_text token expected
    then (authenticated, reset_failures r client_ip)
    else (invalid_token, record_failure r client_ip now)

abbrev pub when_allowed :
    List ℕ → String → ℕ → List ℕ → Bool × WebhookRateLimiter → Answer × WebhookRateLimiter
when_allowed expected client_ip now token (false, r) = (rate_limited, r)
when_allowed expected client_ip now token (true, r) = check_token expected client_ip now token r

unfoldable pub authenticate :
    List ℕ → WebhookRateLimiter → String → ℕ → Headers → Answer × WebhookRateLimiter
unfolding allow record_failure reset_failures
authenticate expected r client_ip now h =
    when_allowed expected client_ip now (token_of h) (allow r client_ip now)

-- The loop of `isAllowedAgentID`.
abbrev pub any_agent : List String → String → Bool
any_agent [] agent_id = false
any_agent (allowed ∷ rest) agent_id =
    allowed == "*" || allowed == agent_id || any_agent rest agent_id

-- `isAllowedAgentID`; no list of agents means all of them.
unfoldable pub is_allowed_agent_id : List String → String → Bool
is_allowed_agent_id [] agent_id = true
is_allowed_agent_id (allowed ∷ rest) agent_id = any_agent (allowed ∷ rest) agent_id

-- The loop of `isAllowedSessionKey`.
abbrev pub any_prefix : List (List ℕ) → List ℕ → Bool
any_prefix [] session_key = false
any_prefix (prefix ∷ rest) session_key =
    has_prefix session_key prefix || any_prefix rest session_key

-- `isAllowedSessionKey`, with the switch that lets requests name a session at all.
unfoldable pub is_allowed_session_key : Bool → List (List ℕ) → List ℕ → Bool
is_allowed_session_key false prefixes session_key = false
is_allowed_session_key true [] session_key = true
is_allowed_session_key true (prefix ∷ rest) session_key = any_prefix (prefix ∷ rest) session_key
