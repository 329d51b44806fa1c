-- ===== src/Health/Counting.antt =====
-- The counters of one provider against its history of checks.
use ocg.Base.{
  ℕ, suc, ◌≡◌, refl, Bool, true, false, List, [], ◌∷◌, String, arith, if◌then◌else◌, string_eq, ap,
}
use ocg.Base.Map.{lookup, lookup-insert_self}
use ocg.Health.{
  Manager, HealthStatus, ProviderType, Answer, no_provider, chat_failed, chat_ok, mark, or_fresh,
  update_status, check_provider,
}

abbrev pub succeeded : Answer → Bool
succeeded (chat_ok _) = true
succeeded (no_provider _) = false
succeeded (chat_failed _ _) = false

-- A history of checks of one provider, the newest first.
abbrev pub check_history : Manager → ProviderType → List (ℕ × Answer) → Manager
check_history m p [] = m
check_history m p ((now, a) ∷ older) = check_provider (check_history m p older) p now a

-- How many of the newest checks in a row were failures, and how many were successes, where `n` of
-- them came before the history.
abbrev pub recent_failures : ℕ → List (ℕ × Answer) → ℕ
recent_failures n [] = n
recent_failures n ((_, a) ∷ older) = if succeeded a then 0 else suc (recent_failures n older)

abbrev pub recent_successes : ℕ → List (ℕ × Answer) → ℕ
recent_successes n [] = n
recent_successes n ((_, a) ∷ older) = if succeeded a then suc (recent_successes n older) else 0

-- The newest answer decides; with no check, what held before.
abbrev pub last_succeeded : Bool → List (ℕ × Answer) → Bool
last_succeeded b [] = b
last_succeeded b ((_, a) ∷ older) = succeeded a

abbrev pub entry : Manager → ProviderType → HealthStatus
entry m p = or_fresh p (lookup p m.status)

pub entry-update_status :
    (m : Manager) (p : ProviderType) (healthy : Bool) (now latency : ℕ) (err : String)
    → entry (update_status m p healthy now latency err) p ≡ mark healthy now latency err (entry m p)
unfolding update_status
entry-update_status m p healthy now latency err =
    ap (or_fresh p) (lookup-insert_self p (mark healthy now latency err (entry m p)) m.status)

check_provider_counters :
    (m : Manager) (p : ProviderType) (now : ℕ) (a : Answer)
    → let s = entry (check_provider m p now a) p in
      (s.fail_count ≡ (if succeeded a then 0 else suc (entry m p).fail_count))
      × (s.success_count ≡ (if succeeded a then suc (entry m p).success_count else 0))
      × (s.healthy ≡ succeeded a)
unfolding check_provider mark
check_provider_counters m p now (no_provider e) =
    ground (arith, entry-update_status m p false now 0 e)
check_provider_counters m p now (chat_failed l e) =
    ground (arith, entry-update_status m p false now l e)
check_provider_counters m p now (chat_ok l) = ground (arith, entry-update_status m p true now l "")

-- After any history of checks of a provider, the entry's `fail_count` is the number of failures since
-- the last success, its `success_count` the number of successes since the last failure, and it is
-- healthy if the newest check succeeded. Where the history has no success (no failure), the count that
-- the entry had before goes on, zero if there was no entry; with no check at all nothing changes.
pub check_history_counters :
    (m : Manager) (p : ProviderType) (h : List (ℕ × Answer))
    → let before = entry m p in
      let s = entry (check_history m p h) p in
      (s.fail_count ≡ recent_failures before.fail_count h)
      × (s.success_count ≡ recent_successes before.success_count h)
      × (s.healthy ≡ last_succeeded before.healthy h)
check_history_counters m p [] = (refl, refl, refl)
check_history_counters m p ((now, a) ∷ h) =
    ground
      (arith, check_provider_counters (check_history m p h) p now a, check_history_counters m p h)
