-- ===== src/Health.antt =====
-- pkg/llmhealth/health.go: health checks of the LLM providers and the failover between them.
-- A provider's answer to a test prompt comes from outside, so it is an argument of a check.
-- Times and latencies are natural numbers; counters are int in Go and do not reach 2^63. A threshold
-- below zero, which acts like zero, is left out.
pub mod Counting
pub mod Fallback
pub mod Failover
pub mod Decided
pub mod Checked
pub mod Manual
pub mod Lifecycle
mod Tests
use ocg.Base.{
  ℕ, suc, ◌+◌, ◌-◌, ◌<◌, ◌≡◌, Bool, true, false, not, ◌&&◌, ◌||◌, List, [], ◌∷◌, ◌++◌, Option, none,
  some, String, leb, ltb, if◌then◌else◌, length, ◌==◌, string_eq,
}
use ocg.Base.Map.{Map, lookup, insert}

-- llm.ProviderType is a string type with constants.
abbrev pub ProviderType : Type 0
ProviderType = String

abbrev pub provider_openai : ProviderType
provider_openai = "openai"

abbrev pub provider_anthropic : ProviderType
provider_anthropic = "anthropic"

abbrev pub provider_google : ProviderType
provider_google = "google"

abbrev pub provider_minimax : ProviderType
provider_minimax = "minimax"

abbrev pub provider_ollama : ProviderType
provider_ollama = "ollama"

abbrev pub provider_custom : ProviderType
provider_custom = "custom"

pub record Config : Type 0 where
  pub enabled : Bool
  pub interval : ℕ
  pub failure_threshold : ℕ
  pub success_threshold : ℕ
  pub test_prompt : String
  pub timeout : ℕ

-- Durations in seconds.
abbrev pub default_config : Config
default_config = record {
  enabled = false;
  interval = 3600;
  failure_threshold = 3;
  success_threshold = 2;
  test_prompt = "hello";
  timeout = 30;
}

pub record HealthStatus : Type 0 where
  pub provider : ProviderType
  pub healthy : Bool
  pub latency : ℕ
  pub last_check : ℕ
  pub fail_count : ℕ
  pub success_count : ℕ
  pub error : String

pub record FailoverEvent : Type 0 where
  pub time : ℕ
  pub from_provider : ProviderType
  pub to_provider : ProviderType
  pub manual : Bool

-- `failover_ch` is the buffer of the channel, oldest first. `stop_closed` says that `stopCh` is
-- closed, and `loops` counts the goroutines that still run `runLoop`.
pub record Manager : Type 0 where
  pub config : Config
  pub status : Map ProviderType HealthStatus
  pub failover_ch : List FailoverEvent
  pub running : Bool
  pub stop_closed : Bool
  pub loops : ℕ
  pub current_primary : ProviderType

-- The capacity of `failoverCh`.
abbrev pub failover_capacity : ℕ
failover_capacity = 10

unfoldable pub new_manager : Config → Manager
new_manager cfg = record {
  config = cfg;
  status = [];
  failover_ch = [];
  running = false;
  stop_closed = false;
  loops = 0;
  current_primary = provider_openai;
}

-- How a method ends: it returns; it waits for ever on the full channel, its lock held; it panics.
pub data Outcome (A : Type 0) : Type 0 where
  done : A → Manager → Outcome A
  blocked : Manager → Outcome A
  panicked : Manager → Outcome A

unfoldable pub set_primary : Manager → ProviderType → Manager
set_primary m p = record m { current_primary = p }

unfoldable pub get_primary : Manager → ProviderType
get_primary m = m.current_primary

abbrev pub providers : List ProviderType
providers =
    provider_openai ∷ provider_anthropic ∷ provider_google ∷ provider_minimax ∷ provider_ollama
    ∷ provider_custom ∷ []

abbrev pub fresh_status : ProviderType → HealthStatus
fresh_status p = record {
  provider = p;
  healthy = false;
  latency = 0;
  last_check = 0;
  fail_count = 0;
  success_count = 0;
  error = "";
}

-- The entry of a provider that is assumed to be healthy.
abbrev pub healthy_status : ProviderType → HealthStatus
healthy_status p = record (fresh_status p) { healthy = true }

abbrev pub or_fresh : ProviderType → Option HealthStatus → HealthStatus
or_fresh p none = fresh_status p
or_fresh p (some s) = s

-- What one check writes into an entry.
unfoldable pub mark : Bool → ℕ → ℕ → String → HealthStatus → HealthStatus
mark true now latency err s = record s {
  last_check = now;
  latency = latency;
  error = err;
  healthy = true;
  fail_count = 0;
  success_count = s.success_count + 1;
}
mark false now latency err s = record s {
  last_check = now;
  latency = latency;
  error = err;
  healthy = false;
  success_count = 0;
  fail_count = s.fail_count + 1;
}

unfoldable pub update_status : Manager → ProviderType → Bool → ℕ → ℕ → String → Manager
update_status m p healthy now latency err =
    let s = or_fresh p (lookup p m.status) in
    record m { status = insert p (mark healthy now latency err s) m.status }

-- What `llm.GetProvider` and the provider's `Chat` answer.
pub data Answer : Type 0 where
  no_provider : String → Answer
  chat_failed : ℕ → String → Answer
  chat_ok : ℕ → Answer

unfoldable pub check_provider : Manager → ProviderType → ℕ → Answer → Manager
check_provider m p now (no_provider err) = update_status m p false now 0 err
check_provider m p now (chat_failed latency err) = update_status m p false now latency err
check_provider m p now (chat_ok latency) = update_status m p true now latency ""

abbrev pub is_healthy : Option HealthStatus → Bool
is_healthy none = false
is_healthy (some s) = s.healthy

-- The loop of `findBestFallback` over the priority list.
unfoldable pub first_healthy :
    Map ProviderType HealthStatus → ProviderType → List ProviderType → ProviderType
first_healthy status current [] = current
first_healthy status current (p ∷ ps) =
    if not (p == current) && is_healthy (lookup p status)
    then p
    else first_healthy status current ps

unfoldable pub find_best_fallback : Manager → ProviderType
find_best_fallback m = first_healthy m.status m.current_primary providers

-- `m.failoverCh <- event`, then the rest of the method. Nothing receives from this channel.
abbrev pub send : {A : Type 0} → Manager → FailoverEvent → (Manager → Outcome A) → Outcome A
send m event rest =
    if ltb (length m.failover_ch) failover_capacity
    then rest (record m { failover_ch = m.failover_ch ++ event ∷ [] })
    else blocked m

-- `!primaryStatus.Healthy && primaryStatus.FailCount >= FailureThreshold`
abbrev pub has_failed : Config → Option HealthStatus → Bool
has_failed cfg none = false
has_failed cfg (some s) = not s.healthy && leb cfg.failure_threshold s.fail_count

-- The branch of `evaluateFailover` in which the primary has failed.
fail_over : Manager → ℕ → ProviderType → Outcome (Unit {0})
fail_over m now target =
    if target == m.current_primary
    then done tt m
    else send m
        (record {
          time = now;
          from_provider = m.current_primary;
          to_provider = target;
          manual = false;
        })
        (λ m'. done tt (record m' { current_primary = target }))

unfoldable pub evaluate_failover : Manager → ℕ → Outcome (Unit {0})
unfolding fail_over
evaluate_failover m now =
    if has_failed m.config (lookup m.current_primary m.status)
    then fail_over m now (find_best_fallback m)
    else done tt m

-- The loop of `checkAll` over the providers; `world` is what each of them answers this time.
unfoldable pub check_each : Manager → ℕ → (ProviderType → Answer) → List ProviderType → Manager
check_each m now world [] = m
check_each m now world (p ∷ ps) = check_each (check_provider m p now (world p)) now world ps

unfoldable pub check_all : Manager → ℕ → (ProviderType → Answer) → Outcome (Unit {0})
check_all m now world = evaluate_failover (check_each m now world providers) now

pub data StartError : Type 0 where
  not_enabled already_running : StartError

unfoldable pub init_status :
    Map ProviderType HealthStatus → List ProviderType → Map ProviderType HealthStatus
init_status status [] = status
init_status status (p ∷ ps) = init_status (insert p (healthy_status p) status) ps

-- `go m.runLoop()` as the last statement of `Start`.
abbrev pub spawn_loop : Outcome (Unit {0}) → Outcome (Option StartError)
spawn_loop (done _ m) = done none (record m { loops = suc m.loops })
spawn_loop (blocked m) = blocked m
spawn_loop (panicked m) = panicked m

unfoldable pub start : Manager → ℕ → (ProviderType → Answer) → Outcome (Option StartError)
start m now world =
    if not m.config.enabled
    then done (some not_enabled) m
    else if m.running
    then done (some already_running) m
    else spawn_loop
        (check_all (record m { running = true; status = init_status m.status providers }) now world)

-- `close` of a channel that is closed already panics.
unfoldable pub stop : Manager → Outcome (Unit {0})
stop m =
    if not m.running
    then done tt m
    else if m.stop_closed
    then panicked (record m { running = false })
    else done tt (record m { running = false; stop_closed = true })

-- One turn of `runLoop`, in a goroutine that `start` has begun: a closed `stopCh` lets it return,
-- and a tick of its timer, which may come in the same moment, runs the checks.
pub data LoopStep : Manager → Outcome (Unit {0}) → Type 0 where
  leave :
      (m : Manager)
      → 0 < m.loops
      → m.stop_closed ≡ true
      → LoopStep m (done tt (record m { loops = m.loops - 1 }))
  round :
      (m : Manager) (now : ℕ) (world : ProviderType → Answer)
      → 0 < m.loops
      → LoopStep m (check_all m now world)

unfoldable pub get_status : Manager → Map ProviderType HealthStatus
get_status m = m.status

unfoldable pub get_failover_events : Manager → List FailoverEvent
get_failover_events m = []

pub data FailoverError : Type 0 where
  not_healthy : ProviderType → FailoverError

-- "Ensure status entry exists"
unfoldable pub ensure_entry : Manager → ProviderType → Manager
ensure_entry m target = elim (lookup target m.status) [
  | none ↦ record m { status = insert target (healthy_status target) m.status }
  | some _ ↦ m
]

-- The rest of `ManualFailover`, on the manager that has an entry for the target. The primary is set
-- before the event is sent.
switch_to : Manager → ProviderType → ℕ → Outcome (Option FailoverError)
switch_to m target now =
    if not (is_healthy (lookup target m.status))
    then done (some (not_healthy target)) m
    else send (record m { current_primary = target })
        (record {
          time = now;
          from_provider = m.current_primary;
          to_provider = target;
          manual = true;
        })
        (λ m'. done none m')

unfoldable pub manual_failover : Manager → ProviderType → ℕ → Outcome (Option FailoverError)
unfolding switch_to
manual_failover m target now = switch_to (ensure_entry m target) target now
