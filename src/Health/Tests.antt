-- ===== src/Health/Tests.antt =====
-- The health manager at concrete inputs.
use ocg.Base.{ℕ, ◌≡◌, refl, true, false, List, [], ◌∷◌, ◌++◌, arith, map, ◌==◌, string_eq}
use ocg.Base.Map.{lookup, insert}
use text.Mathlib.TextEquality.{eq_iff}
use ocg.Health.{
  Manager, Config, ProviderType, Answer, chat_ok, chat_failed, no_provider, default_config,
  provider_openai, provider_anthropic, provider_google, providers, Outcome, done, blocked, panicked,
  check_all, start, stop, find_best_fallback, evaluate_failover, check_each, check_provider,
  update_status, mark, first_healthy, init_status,
}
use ocg.Health.Counting.{check_history, entry, check_history_counters}
use ocg.Health.Failover.{Justified, check_all-Justified}
use ocg.Health.Lifecycle.{fails_over, run, stop-start_panics, fails_over-blocked}

abbrev enabled_config : Config
enabled_config = record default_config { enabled = true; failure_threshold = 1 }

abbrev idle : Manager
idle = record {
  config = enabled_config;
  status = [];
  failover_ch = [];
  running = false;
  stop_closed = false;
  loops = 0;
  current_primary = provider_openai;
}

abbrev openai_down : ProviderType → Answer
openai_down p = elim (p == provider_openai) [ true ↦ chat_failed 30 "timeout" | false ↦ chat_ok 1 ]

abbrev manager_of : {A : Type 0} → Manager → Outcome A → Manager
manager_of m (done _ n) = n
manager_of m (blocked n) = n
manager_of m (panicked n) = n

abbrev google_checks : List (ℕ × Answer)
google_checks = (3, chat_failed 1 "x") ∷ (2, no_provider "y") ∷ (1, chat_ok 5) ∷ []

-- The manager as `Start` leaves it before the first check.
abbrev started : Manager
started = record idle { status = init_status [] providers; running = true }

check_history_counters_example :
    let s = entry (check_history started provider_google google_checks) provider_google in
    (s.fail_count ≡ 2) × (s.success_count ≡ 0) × (s.healthy ≡ false)
check_history_counters_example = check_history_counters started provider_google google_checks

-- OpenAI does not answer, and the threshold is one: Anthropic takes over.
switched : Manager
unfolding check_all evaluate_failover check_each check_provider update_status mark
    find_best_fallback first_healthy lookup insert
switched = manager_of idle (check_all idle 7 openai_down)

switched_primary : switched.current_primary ≡ provider_anthropic
unfolding switched
switched_primary = refl

check_all-Justified_example : Justified idle openai_down switched.current_primary
unfolding switched
check_all-Justified_example =
    check_all-Justified idle switched 7 openai_down refl
      (λ e. ground (arith, eq_iff "anthropic" "openai"))

-- A manager that was started and stopped once.
abbrev stopped : Manager
stopped = record idle { stop_closed = true }

stop-start_panics_example :
    let n = manager_of stopped (start stopped 5 openai_down) in
    stop n ≡ panicked (record n { running = false })
unfolding start switched init_status
stop-start_panics_example = stop-start_panics stopped _ 5 openai_down refl refl

abbrev eleven : List ProviderType
eleven =
    providers
    ++ (provider_google ∷ provider_openai ∷ provider_google ∷ provider_openai ∷ provider_google
        ∷ [])

fails_over-blocked_example :
    (m' : Manager) × (run idle (map (λ p. fails_over p 1) eleven) ≡ blocked m')
unfolding lookup
fails_over-blocked_example =
    fails_over-blocked idle 1 eleven (λ p o e. cc) (omega arith) (omega arith)
