-- ===== src/Health/Checked.antt =====
-- What a check of the providers leaves.
use ocg.Base.{
  ℕ, ◌≡◌, ◌≢◌, refl, sym, ◌∙◌, ◌⊎◌, inl, inr, true, false, List, [], ◌∷◌, Option, none, some, arith,
  ◌==◌, string_eq, In, Bool-cases, false-ne-true, ap, subst,
}
use ocg.Base.Map.{lookup, lookup-insert_ne}
use ocg.Health.{
  Manager, HealthStatus, ProviderType, Answer, chat_ok, chat_failed, no_provider, is_healthy,
  has_failed, check_each, check_provider, update_status, mark, or_fresh,
}
use ocg.Health.Counting.{entry, succeeded, entry-update_status}

-- A check of one provider leaves the entries of the others as they were.
lookup-check_provider_ne :
    (m : Manager) (p q : ProviderType) (now : ℕ) (a : Answer)
    → p ≢ q
    → lookup q (check_provider m p now a).status ≡ lookup q m.status
unfolding check_provider update_status
lookup-check_provider_ne m p q now (chat_ok l) h =
    lookup-insert_ne p q (mark true now l "" (entry m p)) m.status h
lookup-check_provider_ne m p q now (chat_failed l e) h =
    lookup-insert_ne p q (mark false now l e (entry m p)) m.status h
lookup-check_provider_ne m p q now (no_provider e) h =
    lookup-insert_ne p q (mark false now 0 e (entry m p)) m.status h

-- It sets the entry's `healthy` to how the provider answered.
entry-check_provider_healthy :
    (m : Manager) (p : ProviderType) (now : ℕ) (a : Answer)
    → (entry (check_provider m p now a) p).healthy ≡ succeeded a
unfolding check_provider mark
entry-check_provider_healthy m p now (chat_ok l) =
    ap (λ s. s.healthy) (entry-update_status m p true now l "")
entry-check_provider_healthy m p now (chat_failed l e) =
    ap (λ s. s.healthy) (entry-update_status m p false now l e)
entry-check_provider_healthy m p now (no_provider e) =
    ap (λ s. s.healthy) (entry-update_status m p false now 0 e)

-- `q`'s entry says how `q` answers in `world`.
abbrev Agrees : (ProviderType → Answer) → ProviderType → Manager → Type 0
Agrees world q m = (entry m q).healthy ≡ succeeded (world q)

check_provider-Agrees :
    (m : Manager) (p q : ProviderType) (now : ℕ) (world : ProviderType → Answer)
    → (p ≡ q) ⊎ Agrees world q m
    → Agrees world q (check_provider m p now (world p))
check_provider-Agrees m p q now world h = elim (Bool-cases (p == q)) [
  | inl same ↦
      subst (λ r. Agrees world r (check_provider m p now (world p)))
        ((string_eq.test_iff p q).0 same) (entry-check_provider_healthy m p now (world p))
  | inr other ↦
      let h' : p ≢ q = λ e. false-ne-true other ((string_eq.test_iff p q).1 e) in
      ap (λ o. (or_fresh q o).healthy) (lookup-check_provider_ne m p q now (world p) h')
      ∙ later h' h
]
  where
    later : p ≢ q → (p ≡ q) ⊎ Agrees world q m → Agrees world q m
    later h' (inl e) = absurd (h' e)
    later h' (inr a) = a

pub check_each-Agrees :
    (m : Manager) (q : ProviderType) (now : ℕ) (world : ProviderType → Answer)
    (ps : List ProviderType)
    → In q ps ⊎ Agrees world q m
    → Agrees world q (check_each m now world ps)
unfolding check_each
check_each-Agrees m q now world [] (inl i) = absurd i
check_each-Agrees m q now world [] (inr h) = h
check_each-Agrees m q now world (p ∷ ps) (inl (inl e)) =
    check_each-Agrees (check_provider m p now (world p)) q now world ps
      (inr (check_provider-Agrees m p q now world (inl (sym e))))
check_each-Agrees m q now world (p ∷ ps) (inl (inr i)) =
    check_each-Agrees (check_provider m p now (world p)) q now world ps (inl i)
check_each-Agrees m q now world (p ∷ ps) (inr h) =
    check_each-Agrees (check_provider m p now (world p)) q now world ps
      (inr (check_provider-Agrees m p q now world (inr h)))

pub is_healthy-entry :
    (p : ProviderType) (o : Option HealthStatus) → is_healthy o ≡ (or_fresh p o).healthy
is_healthy-entry p none = refl
is_healthy-entry p (some s) = refl

-- A provider with a failed entry is not healthy.
pub has_failed-unhealthy :
    (m : Manager) (p : ProviderType)
    → has_failed m.config (lookup p m.status) ≡ true
    → (entry m p).healthy ≡ false
has_failed-unhealthy m p h = go (lookup p m.status) h
  where
    go : (o : Option HealthStatus) → has_failed m.config o ≡ true → (or_fresh p o).healthy ≡ false
    go none e = refl
    go (some s) e = ground arith

-- Checks write the status entries and nothing else.
abbrev pub SameButStatus : Manager → Manager → Type 0
SameButStatus n m =
    (n.current_primary ≡ m.current_primary)
    × (n.failover_ch ≡ m.failover_ch)
    × (n.config ≡ m.config)
    × (n.running ≡ m.running)
    × (n.stop_closed ≡ m.stop_closed)

check_provider_same :
    (m : Manager) (p : ProviderType) (now : ℕ) (a : Answer)
    → SameButStatus (check_provider m p now a) m
unfolding check_provider update_status
check_provider_same m p now (chat_ok l) = (refl, refl, refl, refl, refl)
check_provider_same m p now (chat_failed l e) = (refl, refl, refl, refl, refl)
check_provider_same m p now (no_provider e) = (refl, refl, refl, refl, refl)

pub check_each_same :
    (m : Manager) (now : ℕ) (world : ProviderType → Answer) (ps : List ProviderType)
    → SameButStatus (check_each m now world ps) m
unfolding check_each
check_each_same m now world [] = (refl, refl, refl, refl, refl)
check_each_same m now world (p ∷ ps) =
    let (a, b, c, d, e) = check_each_same (check_provider m p now (world p)) now world ps in
    let (a', b', c', d', e') = check_provider_same m p now (world p) in
    (a ∙ a', b ∙ b', c ∙ c', d ∙ d', e ∙ e')
