-- ===== src/Health/Fallback.antt =====
-- The provider that `findBestFallback` picks.
use ocg.Base.{
  ◌≡◌, ◌≢◌, refl, ◌⊎◌, inl, inr, true, false, not, ◌&&◌, List, [], ◌∷◌, ◌++◌, arith, ◌==◌,
  string_eq, All, Bool-cases, ap,
}
use ocg.Base.Map.{Map, lookup}
use ocg.Health.{
  Manager, HealthStatus, ProviderType, providers, is_healthy, first_healthy, find_best_fallback,
}

-- A provider that may take over: another one than the current, with a healthy entry.
abbrev pub IsCandidate : Map ProviderType HealthStatus → ProviderType → ProviderType → Type 0
IsCandidate status current p = (p ≢ current) × (is_healthy (lookup p status) ≡ true)

-- `r` is the first candidate of the list, or there is none and `r` is the current provider.
abbrev pub Picks :
    Map ProviderType HealthStatus → ProviderType → List ProviderType → ProviderType → Type 0
Picks status current ps r =
    ((before : List ProviderType) × (after : List ProviderType) × (ps ≡ before ++ r ∷ after)
      × IsCandidate status current r
      × All (λ q. ¬ IsCandidate status current q) before)
    ⊎ ((r ≡ current) × All (λ q. ¬ IsCandidate status current q) ps)

module _ (status : Map ProviderType HealthStatus) (current : ProviderType) where
  candidate_iff :
      (p : ProviderType)
      → (not (p == current) && is_healthy (lookup p status)) ≡ true
      → IsCandidate status current p
  candidate_iff p h = (
    λ e. ground (arith, string_eq.test_iff p current),
    ground (arith, string_eq.test_iff p current),
  )

  not_candidate :
      (p : ProviderType)
      → (not (p == current) && is_healthy (lookup p status)) ≡ false
      → ¬ IsCandidate status current p
  not_candidate p h c = ground (arith, string_eq.test_iff p current, c.0)

  Picks_later :
      (p : ProviderType) (ps : List ProviderType) (r : ProviderType)
      → ¬ IsCandidate status current p
      → Picks status current ps r
      → Picks status current (p ∷ ps) r
  Picks_later p ps r h (inl (before, after, e, c, none_before)) =
      inl (p ∷ before, after, ap (◌∷◌ p) e, c, (h, none_before))
  Picks_later p ps r h (inr (e, none_at_all)) = inr (e, (h, none_at_all))

  pub first_healthy-Picks :
      (ps : List ProviderType) → Picks status current ps (first_healthy status current ps)
  unfolding first_healthy
  first_healthy-Picks [] = inr (refl, tt)
  first_healthy-Picks (p ∷ ps) =
      elim (Bool-cases (not (p == current) && is_healthy (lookup p status))) [
        | inl h ↦ rw h (inl ([], ps, refl, candidate_iff p h, tt))
        | inr h ↦ rw h (Picks_later p ps _ (not_candidate p h) (first_healthy-Picks ps))
      ]

-- `findBestFallback` answers with the first provider in the order of priority that is not the primary
-- and has a healthy entry, and with the primary itself when there is none.
pub find_best_fallback-Picks :
    (m : Manager) → Picks m.status m.current_primary providers (find_best_fallback m)
unfolding find_best_fallback
find_best_fallback-Picks m = first_healthy-Picks m.status m.current_primary providers
