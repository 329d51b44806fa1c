-- ===== src/Health/Failover.antt =====
-- `evaluateFailover`, `checkAll` and `ManualFailover`, on every branch.
use ocg.Base.{
  ℕ, ◌≤◌, ◌<◌, ◌≡◌, ◌≢◌, refl, sym, ◌∙◌, ◌⊎◌, inl, inr, true, false, All, none, some, List, [], ◌∷◌,
  ◌++◌, string_eq, In, ap, length, subst,
}
use ocg.Base.Map.{lookup}
use ocg.Health.{
  Manager, HealthStatus, provider_openai, provider_anthropic, provider_google, provider_minimax,
  provider_ollama, provider_custom, ProviderType, Answer, providers, Outcome, done, blocked,
  has_failed, find_best_fallback, check_each, check_all,
}
use ocg.Health.Counting.{succeeded}
use ocg.Health.Decided.{automatic, evaluate_failover-Decides}
use ocg.Health.Fallback.{IsCandidate, find_best_fallback-Picks}
use ocg.Health.Checked.{check_each-Agrees, is_healthy-entry, has_failed-unhealthy, check_each_same}

-- The providers in the order in which they are asked to take over.
abbrev pub priority : List ProviderType
priority =
    provider_openai ∷ provider_anthropic ∷ provider_google ∷ provider_minimax ∷ provider_ollama
    ∷ provider_custom ∷ []

-- The primary has an entry, which is not healthy and has as many failures as the threshold.
abbrev pub IsDown : Manager → Type 0
IsDown m =
    (s : HealthStatus) × (lookup m.current_primary m.status ≡ some s)
    × (s.healthy ≡ false)
    × (m.config.failure_threshold ≤ s.fail_count)

-- It has no entry, or one that is healthy or has fewer failures.
abbrev pub IsUp : Manager → Type 0
IsUp m =
    (lookup m.current_primary m.status ≡ none)
    ⊎ ((s : HealthStatus) × (lookup m.current_primary m.status ≡ some s)
        × ((s.healthy ≡ true) ⊎ (s.fail_count < m.config.failure_threshold)))

-- Another provider than the primary, with a healthy entry.
abbrev pub CanTake : Manager → ProviderType → Type 0
CanTake m p =
    (p ≢ m.current_primary)
    × ((s : HealthStatus) × (lookup p m.status ≡ some s) × (s.healthy ≡ true))

-- The first in the order of priority that can take over.
abbrev pub IsFirst : Manager → ProviderType → Type 0
IsFirst m target =
    (before : List ProviderType) × (after : List ProviderType) × (priority
      ≡ before ++ target ∷ after)
    × CanTake m target
    × All (λ q. ¬ CanTake m q) before

-- The four ways in which `evaluateFailover` can end.
abbrev pub Evaluates : Manager → ℕ → Outcome (Unit {0}) → Type 0
Evaluates m now o =
    (IsUp m × (o ≡ done tt m))
    ⊎ (IsDown m × All (λ q. ¬ CanTake m q) priority × (o ≡ done tt m))
    ⊎ ((target : ProviderType) × IsDown m
        × IsFirst m target
        × (length m.failover_ch < 10)
        × (o
            ≡ done tt (record m {
              failover_ch = m.failover_ch ++ automatic m now target ∷ [];
              current_primary = target;
            })))
    ⊎ ((target : ProviderType) × IsDown m
        × IsFirst m target
        × (10 ≤ length m.failover_ch)
        × (o ≡ blocked m))

In-middle :
    (before : List ProviderType) (r : ProviderType) (after : List ProviderType)
    → In r (before ++ r ∷ after)
In-middle [] r after = inl refl
In-middle (x ∷ before) r after = inr (In-middle before r after)

Picks-In :
    (m : Manager) → find_best_fallback m ≢ m.current_primary → In (find_best_fallback m) providers
Picks-In m h = elim (find_best_fallback-Picks m) [
  | inl (before, after, e, c, no_earlier) ↦
      subst (In (find_best_fallback m)) (sym e) (In-middle before (find_best_fallback m) after)
  | inr (e, no_other) ↦ absurd (h e)
]

done-injective : {m n : Manager} → done tt m ≡ done tt n → m ≡ n
done-injective e = cc

done-ne-blocked : {m n : Manager} → done tt m ≡ blocked n → ⊥
done-ne-blocked e = cc

-- What a switch in a round of checks needs.
abbrev pub Justified : Manager → (ProviderType → Answer) → ProviderType → Type 0
Justified m world target =
    In target providers
    × (succeeded (world target) ≡ true)
    × (In m.current_primary providers → succeeded (world m.current_primary) ≡ false)

switch-Justified :
    (m : Manager) (now : ℕ) (world : ProviderType → Answer)
    → let m₁ = check_each m now world providers in
      has_failed m₁.config (lookup m₁.current_primary m₁.status) ≡ true
      → IsCandidate m₁.status m₁.current_primary (find_best_fallback m₁)
      → Justified m world (find_best_fallback m₁)
switch-Justified m now world failed (other, healthy) = (listed, answered, refused)
  where
    m₁ : Manager
    m₁ = check_each m now world providers

    listed : In (find_best_fallback m₁) providers
    listed = Picks-In m₁ other

    answered : succeeded (world (find_best_fallback m₁)) ≡ true
    answered =
        sym (check_each-Agrees m (find_best_fallback m₁) now world providers (inl listed))
        ∙ sym (is_healthy-entry (find_best_fallback m₁) (lookup (find_best_fallback m₁) m₁.status))
        ∙ healthy

    refused : In m.current_primary providers → succeeded (world m.current_primary) ≡ false
    refused i =
        sym (check_each-Agrees m m.current_primary now world providers (inl i))
        ∙ has_failed-unhealthy m₁ m.current_primary (
            subst (λ p. has_failed m₁.config (lookup p m₁.status) ≡ true)
              (check_each_same m now world providers).0 failed)

-- A round of checks that ends with another primary than before has just had a good answer from the
-- new one and, if the old one is on the list of providers, a bad answer from it.
pub check_all-Justified :
    (m m' : Manager) (now : ℕ) (world : ProviderType → Answer)
    → check_all m now world ≡ done tt m'
    → m'.current_primary ≢ m.current_primary
    → Justified m world m'.current_primary
unfolding check_all
check_all-Justified m m' now world e changed =
    elim (evaluate_failover-Decides (check_each m now world providers) now) [
      | inl (same, reason) ↦ absurd (
          changed (
            ap (λ (n : Manager). n.current_primary) (done-injective (sym e ∙ same))
            ∙ (check_each_same m now world providers).0))
      | inr (inl (failed, c, room, switched)) ↦
          subst (Justified m world)
            (sym (ap (λ (n : Manager). n.current_primary) (done-injective (sym e ∙ switched))))
            (switch-Justified m now world failed c)
      | inr (inr (failed, c, full, stuck)) ↦ absurd (done-ne-blocked (sym e ∙ stuck))
    ]
