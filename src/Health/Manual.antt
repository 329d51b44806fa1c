-- ===== src/Health/Manual.antt =====
-- What a failover by hand comes to.
use ocg.Base.{
  ℕ, ◌≤◌, ◌<◌, ◌≡◌, ◌∙◌, ◌⊎◌, inl, inr, true, false, [], ◌∷◌, ◌++◌, none, some, arith, string_eq,
  false-ne-true, ap, length, Option-cases,
}
use ocg.Base.Map.{lookup, lookup-insert_self}
use ocg.Health.{
  Manager, HealthStatus, FailoverEvent, ProviderType, is_healthy, done, blocked, failover_capacity,
  manual_failover, switch_to, ensure_entry, not_healthy, healthy_status,
}

-- The event of a manual failover.
abbrev pub by_hand : Manager → ℕ → ProviderType → FailoverEvent
by_hand m now target = record {
  time = now;
  from_provider = m.current_primary;
  to_provider = target;
  manual = true;
}

switch_to_branches :
    (m : Manager) (target : ProviderType) (now : ℕ)
    → ((is_healthy (lookup target m.status) ≡ false)
        × (switch_to m target now ≡ done (some (not_healthy target)) m))
      ⊎ ((length m.failover_ch < failover_capacity)
          × (switch_to m target now
              ≡ done none (record m {
                current_primary = target;
                failover_ch = m.failover_ch ++ by_hand m now target ∷ [];
              })))
      ⊎ ((failover_capacity ≤ length m.failover_ch)
          × (switch_to m target now ≡ blocked (record m { current_primary = target })))
unfolding switch_to
switch_to_branches m target now = ground arith

pub ensure_entry_same :
    (m : Manager) (p : ProviderType)
    → ((ensure_entry m p).current_primary ≡ m.current_primary)
      × ((ensure_entry m p).failover_ch ≡ m.failover_ch)
unfolding ensure_entry
ensure_entry_same m p = ground arith

ensure_entry_unhealthy :
    (m : Manager) (p : ProviderType)
    → is_healthy (lookup p (ensure_entry m p).status) ≡ false
    → (o : HealthStatus) × (lookup p m.status ≡ some o)
      × (o.healthy ≡ false)
      × (ensure_entry m p ≡ m)
unfolding ensure_entry
ensure_entry_unhealthy m p h = elim (Option-cases (lookup p m.status)) [
  | inl e ↦ absurd (
      false-ne-true (rw (e, ensure_entry) at h)
        (ap is_healthy (lookup-insert_self p (healthy_status p) m.status)))
  | inr (o, e) ↦ (o, e, ground arith, ground arith)
]

-- The three ways in which `ManualFailover` can end.
abbrev pub Branches : Manager → ProviderType → ℕ → Type 0
Branches m target now =
    let m₁ = ensure_entry m target in
    ((o : HealthStatus) × (lookup target m.status ≡ some o)
      × (o.healthy ≡ false)
      × (manual_failover m target now ≡ done (some (not_healthy target)) m))
    ⊎ ((length m.failover_ch < failover_capacity)
        × (manual_failover m target now
            ≡ done none (record m₁ {
              current_primary = target;
              failover_ch = m.failover_ch ++ by_hand m now target ∷ [];
            })))
    ⊎ ((failover_capacity ≤ length m.failover_ch)
        × (manual_failover m target now ≡ blocked (record m₁ { current_primary = target })))

-- `ManualFailover` refuses a provider whose entry is unhealthy and then changes nothing; any other
-- provider, one with no entry included, becomes the primary: with the event recorded while the
-- channel has room, and in a call that never returns once the channel holds ten events.
pub manual_failover-Branches :
    (m : Manager) (target : ProviderType) (now : ℕ) → Branches m target now
unfolding manual_failover
manual_failover-Branches m target now =
    let (same_primary, same_ch) = ensure_entry_same m target in
    elim (switch_to_branches (ensure_entry m target) target now) [
      | inl (unhealthy, refused) ↦
          let (o, known, sick, same) = ensure_entry_unhealthy m target unhealthy in
          inl (o, known, sick, refused ∙ ap (done (some (not_healthy target))) same)
      | inr (inl (room, switched)) ↦
          inr (inl (rw same_ch at room, cc (switched, same_ch, same_primary)))
      | inr (inr (full, stuck)) ↦ inr (inr (rw same_ch at full, stuck))
    ]
