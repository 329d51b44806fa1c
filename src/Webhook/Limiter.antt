-- ===== src/Webhook/Limiter.antt =====
-- Who is let in, and for how long a client is locked out.
use ocg.Base.{
  ℕ, ◌+◌, ◌≤◌, ◌<◌, ◌≡◌, refl, sym, ap, ◌∙◌, subst, inl, inr, Bool, true, false, All, List, [], ◌∷◌,
  Option, none, some, String, ltb, string_eq, arith, Bool-cases, if_true, if_false,
}
use ocg.Base.Map.{lookup, insert, delete, lookup-insert_self, lookup-delete_self}
use ocg.Base.Text.{same_text}
use ocg.Webhook.{
  FailureRecord, WebhookRateLimiter, window, allow, allow_found, record_failure, reset_failures,
  fail_again, Answer, authenticated, rate_limited, missing_token, invalid_token, Headers, token_of,
  authenticate, check_token, when_allowed,
}

allow_found-locked :
    (r : WebhookRateLimiter) (client_ip : String) (now : ℕ) (f : FailureRecord)
    → now ≤ f.first_fail + window r
    → now < f.retry_after
    → allow_found r client_ip now (some f) ≡ (false, r)
allow_found-locked r client_ip now f h k =
    let in_window : ltb (f.first_fail + window r) now ≡ false = ground arith in
    let waits : ltb now f.retry_after ≡ true = ground arith in
    if_false _ _ in_window ∙ if_true _ _ waits

-- A request with its instant, and the answers to a client's requests, one after the other.
abbrev pub Request : Type 0
Request = ℕ × Headers

abbrev pub answers : List ℕ → String → WebhookRateLimiter → List Request → List Answer
answers expected client_ip r [] = []
answers expected client_ip r ((now, h) ∷ later) =
    let (answer, r') = authenticate expected r client_ip now h in
    answer ∷ answers expected client_ip r' later

authenticate-locked :
    (expected : List ℕ) (r : WebhookRateLimiter) (client_ip : String) (now : ℕ) (h : Headers)
    (f : FailureRecord)
    → lookup client_ip r.failures ≡ some f
    → now ≤ f.first_fail + window r
    → now < f.retry_after
    → authenticate expected r client_ip now h ≡ (rate_limited, r)
unfolding authenticate allow
authenticate-locked expected r client_ip now h f found within waits =
    ap (λ o. when_allowed expected client_ip now (token_of h) (allow_found r client_ip now o)) found
    ∙ ap (when_allowed expected client_ip now (token_of h))
        (allow_found-locked r client_ip now f within waits)

answers-locked :
    (expected : List ℕ) (r : WebhookRateLimiter) (client_ip : String) (f : FailureRecord)
    (requests : List Request)
    → lookup client_ip r.failures ≡ some f
    → f.retry_after ≤ f.first_fail + window r
    → All (λ q. q.0 < f.retry_after) requests
    → All (λ a. a ≡ rate_limited) (answers expected client_ip r requests)
answers-locked expected r client_ip f [] found ends soon = tt
answers-locked expected r client_ip f ((now, h) ∷ later) found ends (waits, rest) =
    subst
      (λ (x : Answer × WebhookRateLimiter).
        (x.0 ≡ rate_limited) × All (λ a. a ≡ rate_limited) (answers expected client_ip x.1 later))
      (sym (authenticate-locked expected r client_ip now h f found (omega arith) waits))
      (refl, answers-locked expected r client_ip f later found ends rest)

-- One failure of a client without an entry locks it out for the whole window: every request that it
-- sends until then, one after the other and the ones with the right token included, is answered as
-- limited, whatever the number of failures allowed.
pub record_failure-locks :
    (expected : List ℕ) (r : WebhookRateLimiter) (client_ip : String) (failed : ℕ)
    (requests : List Request)
    → lookup client_ip r.failures ≡ none
    → All (λ q. q.0 < failed + window r) requests
    → All
        (λ a. a ≡ rate_limited)
        (answers expected client_ip (record_failure r client_ip failed) requests)
unfolding record_failure
record_failure-locks expected r client_ip failed requests fresh soon =
    answers-locked expected r' client_ip (fail_again r failed none) requests found (omega arith)
      soon
  where
    r' : WebhookRateLimiter
    r' = record r {
      failures = insert client_ip (fail_again r failed (lookup client_ip r.failures)) r.failures;
    }

    found : lookup client_ip r'.failures ≡ some (fail_again r failed none)
    found =
        lookup-insert_self client_ip (fail_again r failed (lookup client_ip r.failures)) r.failures
        ∙ ap (λ o. some (fail_again r failed o)) fresh

-- What each answer says of the token and leaves of the client's entry.
abbrev pub Answered : List ℕ → String → List ℕ → Answer × WebhookRateLimiter → Type 0
Answered expected client_ip token (authenticated, r) =
    (same_text token expected ≡ true)
    × (same_text token [] ≡ false)
    × (lookup client_ip r.failures ≡ none)
Answered expected client_ip token (rate_limited, r) =
    (f : FailureRecord) × (lookup client_ip r.failures ≡ some f)
Answered expected client_ip token (missing_token, r) =
    (same_text token [] ≡ true) × ((f : FailureRecord) × (lookup client_ip r.failures ≡ some f))
Answered expected client_ip token (invalid_token, r) =
    (same_text token expected ≡ false)
    × ((f : FailureRecord) × (lookup client_ip r.failures ≡ some f))

-- A client is let in only with the expected token, which is not empty, and then has no entry of
-- failures; with any other answer it has one, and the answer names what was wrong with the token.
pub authenticate-Answered :
    (expected : List ℕ) (r : WebhookRateLimiter) (client_ip : String) (now : ℕ) (h : Headers)
    → Answered expected client_ip (token_of h) (authenticate expected r client_ip now h)
unfolding authenticate allow record_failure reset_failures
authenticate-Answered expected r client_ip now h = go (lookup client_ip r.failures) refl
  where
    failed :
        (s : WebhookRateLimiter)
        → (f : FailureRecord) × (lookup client_ip (record_failure s client_ip now).failures
            ≡ some f)
    failed s = (
      _,
      lookup-insert_self client_ip (fail_again s now (lookup client_ip s.failures)) s.failures,
    )

    Decided : Bool × WebhookRateLimiter → Type 0
    Decided x =
        Answered expected client_ip (token_of h)
          (when_allowed expected client_ip now (token_of h) x)

    checked :
        (s : WebhookRateLimiter)
        → Answered expected client_ip
            (token_of h)
            (check_token expected client_ip now (token_of h) s)
    checked s = elim (Bool-cases (same_text (token_of h) [])) [
      | inl empty ↦
          subst (Answered expected client_ip (token_of h)) (sym (if_true _ _ empty))
            (empty, failed s)
      | inr full ↦
          subst (Answered expected client_ip (token_of h)) (sym (if_false _ _ full))
            (elim (Bool-cases (same_text (token_of h) expected)) [
              | inl right ↦
                  subst (Answered expected client_ip (token_of h)) (sym (if_true _ _ right))
                    (right, full, lookup-delete_self client_ip s.failures)
              | inr wrong ↦
                  subst (Answered expected client_ip (token_of h)) (sym (if_false _ _ wrong))
                    (wrong, failed s)
            ])
    ]

    go :
        (o : Option FailureRecord)
        → lookup client_ip r.failures ≡ o
        → Answered expected client_ip
            (token_of h)
            (when_allowed expected client_ip now (token_of h) (allow_found r client_ip now o))
    go none p = checked r
    go (some f) p = elim (Bool-cases (ltb (f.first_fail + window r) now)) [
      | inl over ↦
          subst Decided (sym (if_true _ _ over))
            (checked (record r { failures = delete client_ip r.failures }))
      | inr within ↦
          subst Decided (sym (if_false _ _ within)) (elim (Bool-cases (ltb now f.retry_after)) [
            | inl waits ↦ subst Decided (sym (if_true _ _ waits)) (f, p)
            | inr free ↦ subst Decided (sym (if_false _ _ free)) (checked r)
          ])
    ]
