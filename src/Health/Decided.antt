-- ===== src/Health/Decided.antt =====
-- The branches of `evaluateFailover`, in the code's own tests.
use ocg.Base.{
  ℕ, ◌≤◌, ◌<◌, ◌≡◌, ◌≢◌, refl, sym, ◌⊎◌, inl, inr, true, false, [], ◌∷◌, ◌++◌, arith, ◌==◌,
  string_eq, Bool-cases, if_true, if_false, false-ne-true, ltb→lt, length, ltb, subst,
}
use ocg.Base.Map.{lookup}
use ocg.Health.{
  Manager, FailoverEvent, ProviderType, Outcome, done, blocked, failover_capacity, has_failed,
  find_best_fallback, evaluate_failover, fail_over,
}
use ocg.Health.Fallback.{IsCandidate, find_best_fallback-Picks}

-- The event of an automatic failover.
abbrev pub automatic : Manager → ℕ → ProviderType → FailoverEvent
automatic m now target = record {
  time = now;
  from_provider = m.current_primary;
  to_provider = target;
  manual = false;
}

-- The three ways in which `evaluateFailover` can end.
abbrev pub Decides : Manager → ℕ → Outcome (Unit {0}) → Type 0
Decides m now o =
    let failed = has_failed m.config (lookup m.current_primary m.status) in
    let target = find_best_fallback m in
    ((o ≡ done tt m) × ((failed ≡ false) ⊎ (target ≡ m.current_primary)))
    ⊎ ((failed ≡ true)
        × IsCandidate m.status m.current_primary target
        × (length m.failover_ch < failover_capacity)
        × (o
            ≡ done tt (record m {
              failover_ch = m.failover_ch ++ automatic m now target ∷ [];
              current_primary = target;
            })))
    ⊎ ((failed ≡ true)
        × IsCandidate m.status m.current_primary target
        × (failover_capacity ≤ length m.failover_ch)
        × (o ≡ blocked m))

-- A pick that is not the current provider is a candidate.
Picks-candidate :
    (m : Manager)
    → find_best_fallback m ≢ m.current_primary
    → IsCandidate m.status m.current_primary (find_best_fallback m)
Picks-candidate m h = elim (find_best_fallback-Picks m) [
  | inl (before, after, e, c, no_earlier) ↦ c
  | inr (e, no_other) ↦ absurd (h e)
]

fail_over-Decides :
    (m : Manager) (now : ℕ)
    → has_failed m.config (lookup m.current_primary m.status) ≡ true
    → Decides m now (fail_over m now (find_best_fallback m))
unfolding fail_over
fail_over-Decides m now failed = elim (Bool-cases (find_best_fallback m == m.current_primary)) [
  | inl same ↦ rw same (inl (refl, inr ((string_eq.test_iff _ _).0 same)))
  | inr other ↦
      let c : IsCandidate m.status m.current_primary (find_best_fallback m) =
        Picks-candidate m (λ e. false-ne-true other ((string_eq.test_iff _ _).1 e)) in
      elim (Bool-cases (ltb (length m.failover_ch) failover_capacity)) [
        | inl room ↦ rw (other, room) (inr (inl (failed, c, ltb→lt _ _ room, refl)))
        | inr full ↦ rw (other, full) (inr (inr (failed, c, ground arith, refl)))
      ]
]

pub evaluate_failover-Decides : (m : Manager) (now : ℕ) → Decides m now (evaluate_failover m now)
unfolding evaluate_failover fail_over
evaluate_failover-Decides m now =
    elim (Bool-cases (has_failed m.config (lookup m.current_primary m.status))) [
      | inl failed ↦
          subst (Decides m now) (sym (if_true _ _ failed)) (fail_over-Decides m now failed)
      | inr works ↦ inl (if_false _ _ works, inl works)
    ]
