-- ===== src/Health/Lifecycle.antt =====
-- `Start` and `Stop`, and whole histories of calls.
use ocg.Base.{
  map, false-ne-true, ℕ, suc, ◌+◌, ◌≤◌, ◌<◌, ◌≡◌, refl, sym, ◌∙◌, ◌⊎◌, inl, inr, true, false, not,
  List, [], ◌∷◌, ◌++◌, none, some, arith, string_eq, Bool-cases, Option-cases, if_true, if_false,
  ap, length, length-append,
}
use ocg.Base.Map.{lookup, insert, lookup-insert}
use ocg.Health.{
  HealthStatus, ensure_entry, healthy_status, Manager, ProviderType, Answer, providers, Outcome,
  done, blocked, panicked, failover_capacity, check_all, check_each, start, stop, StartError,
  spawn_loop, set_primary, manual_failover,
}
use ocg.Health.Decided.{evaluate_failover-Decides, automatic}
use ocg.Health.Checked.{check_each_same}
use ocg.Health.Manual.{manual_failover-Branches, by_hand}

-- What may be called on a manager. A tick is a round of checks in `runLoop`.
pub data Call : Type 0 where
  sets_primary : ProviderType → Call
  starts ticks : ℕ → (ProviderType → Answer) → Call
  stops : Call
  fails_over : ProviderType → ℕ → Call

abbrev forget : {A : Type 0} → Outcome A → Outcome (Unit {0})
forget (done _ m) = done tt m
forget (blocked m) = blocked m
forget (panicked m) = panicked m

unfoldable pub call : Manager → Call → Outcome (Unit {0})
call m (sets_primary p) = done tt (set_primary m p)
call m (starts now world) = forget (start m now world)
call m (ticks now world) = check_all m now world
call m stops = stop m
call m (fails_over p now) = forget (manual_failover m p now)

-- A history goes on while the calls return.
unfoldable pub run : Manager → List Call → Outcome (Unit {0})
run m [] = done tt m
run m (c ∷ cs) =
    let rest = λ (m' : Manager). run m' cs in
    elim (call m c) [ done _ m' ↦ rest m' | blocked m' ↦ blocked m' | panicked m' ↦ panicked m' ]

-- What a call that returned did to the channel: nothing, or one more event within its capacity.
abbrev Grows : Manager → Manager → Type 0
Grows m m' =
    (m'.failover_ch ≡ m.failover_ch)
    ⊎ ((length m'.failover_ch ≡ suc (length m.failover_ch))
        × (length m.failover_ch < failover_capacity))

abbrev Returns : {A : Type 0} → (Manager → Type 0) → Outcome A → Type 0
Returns P (done _ m) = P m
Returns P (blocked m) = Unit
Returns P (panicked m) = Unit

check_all-Grows :
    (m : Manager) (now : ℕ) (world : ProviderType → Answer)
    → Returns (Grows m) (check_all m now world)
unfolding check_all
check_all-Grows m now world =
    let m₁ = check_each m now world providers in
    let ch = (check_each_same m now world providers).1 in
    elim (evaluate_failover-Decides m₁ now) [
      | inl (e, reason) ↦ rw e (inl ch)
      | inr (inl (failed, c, room, e)) ↦ rw e (
          inr (
            length-append m₁.failover_ch (automatic m₁ now _ ∷ []) ∙ rw ch (omega arith),
            rw ch at room,
          ))
      | inr (inr (failed, c, full, e)) ↦ rw e tt
    ]

manual_failover-Grows :
    (m : Manager) (p : ProviderType) (now : ℕ)
    → Returns (Grows m) (forget (manual_failover m p now))
manual_failover-Grows m p now = elim (manual_failover-Branches m p now) [
  | inl (o, known, sick, e) ↦ rw e (inl refl)
  | inr (inl (room, e)) ↦ rw e (inr (length-append m.failover_ch _ ∙ omega arith, room))
  | inr (inr (full, e)) ↦ rw e tt
]

start-Grows :
    (m : Manager) (now : ℕ) (world : ProviderType → Answer)
    → Returns (Grows m) (forget (start m now world))
unfolding start
start-Grows m now world = elim (Bool-cases (not m.config.enabled)) [
  | inl off ↦ rw off (inl refl)
  | inr on ↦ elim (Bool-cases m.running) [
    | inl runs ↦ rw (on, runs) (inl refl)
    | inr idle ↦ rw (on, idle) (through _ (check_all-Grows _ now world))
  ]
]
  where
    through :
        (o : Outcome (Unit {0})) → Returns (Grows m) o → Returns (Grows m) (forget (spawn_loop o))
    through (done _ n) g = g
    through (blocked n) g = tt
    through (panicked n) g = tt

call-Grows : (m : Manager) (c : Call) → Returns (Grows m) (call m c)
unfolding call stop set_primary
call-Grows m (sets_primary p) = inl refl
call-Grows m (starts now world) = start-Grows m now world
call-Grows m (ticks now world) = check_all-Grows m now world
call-Grows m stops = elim (Bool-cases m.running) [
  | inl runs ↦ elim (Bool-cases m.stop_closed) [
    | inl closed ↦ rw (runs, closed) tt
    | inr opened ↦ rw (runs, opened) (inl refl)
  ]
  | inr idle ↦ rw idle (inl refl)
]
call-Grows m (fails_over p now) = manual_failover-Grows m p now

-- While the calls of a history return, the channel only grows, and never past its ten places.
run-capacity :
    (cs : List Call) (m m' : Manager)
    → length m.failover_ch ≤ failover_capacity
    → run m cs ≡ done tt m'
    → (length m.failover_ch ≤ length m'.failover_ch) × (length m'.failover_ch ≤ failover_capacity)
unfolding run
run-capacity [] m m' h e = ground arith
run-capacity (c ∷ cs) m m' h e = go (λ n. run-capacity cs n m') (call m c) (call-Grows m c) e
  where
    Bounds : Manager → Type 0
    Bounds n =
        (length n.failover_ch ≤ length m'.failover_ch) × (length m'.failover_ch ≤ failover_capacity)

    go :
        ((n : Manager)
          → length n.failover_ch ≤ failover_capacity
          → run n cs ≡ done tt m'
          → Bounds n)
        → (o : Outcome (Unit {0})) → Returns (Grows m) o
        → (elim o [ done _ n ↦ run n cs | blocked n ↦ blocked n | panicked n ↦ panicked n ])
          ≡ done tt m'
        → (length m.failover_ch ≤ length m'.failover_ch)
          × (length m'.failover_ch ≤ failover_capacity)
    go ih (done _ n) (inl same) e =
        let q : length n.failover_ch ≡ length m.failover_ch = ap length same in
        omega (arith, ih n (omega arith) e)
    go ih (done _ n) (inr (more, room)) e = omega (arith, ih n (omega arith) e)
    go ih (blocked n) g e = cc
    go ih (panicked n) g e = cc

-- What a round of checks leaves alone in any case.
check_all_flags :
    (m : Manager) (now : ℕ) (world : ProviderType → Answer)
    → Returns
        (λ n. (n.running ≡ m.running) × (n.stop_closed ≡ m.stop_closed))
        (check_all m now world)
unfolding check_all
check_all_flags m now world =
    let (p, ch, cfg, running, closed) = check_each_same m now world providers in
    elim (evaluate_failover-Decides (check_each m now world providers) now) [
      | inl (e, reason) ↦ rw e (running, closed)
      | inr (inl (failed, c, room, e)) ↦ rw e (running, closed)
      | inr (inr (failed, c, full, e)) ↦ rw e tt
    ]

start_flags :
    (m n : Manager) (now : ℕ) (world : ProviderType → Answer)
    → start m now world ≡ done none n
    → (n.running ≡ true) × (n.stop_closed ≡ m.stop_closed)
unfolding start
start_flags m n now world e = elim (Bool-cases (not m.config.enabled)) [
  | inl off ↦ absurd (refused (sym (if_true _ _ off) ∙ e))
  | inr on ↦ elim (Bool-cases m.running) [
    | inl runs ↦ absurd (refused (sym (if_true _ _ runs) ∙ sym (if_false _ _ on) ∙ e))
    | inr idle ↦
        through _ (check_all_flags _ now world)
          (sym (if_false _ _ idle) ∙ sym (if_false _ _ on) ∙ e)
  ]
]
  where
    refused : {x : StartError} {k : Manager} → done (some x) k ≡ done none n → ⊥
    refused q = cc

    through :
        (o : Outcome (Unit {0}))
        → Returns (λ k. (k.running ≡ true) × (k.stop_closed ≡ m.stop_closed)) o
        → spawn_loop o ≡ done none n
        → (n.running ≡ true) × (n.stop_closed ≡ m.stop_closed)
    through (done _ k) g q = ground arith
    through (blocked k) g q = cc
    through (panicked k) g q = cc

-- `Stop` closes the channel that tells the loop to return, and `Start` does not make a new one: on a
-- manager that has been stopped once, a `Start` that returns makes the next `Stop` panic.
pub stop-start_panics :
    (m n : Manager) (now : ℕ) (world : ProviderType → Answer)
    → m.stop_closed ≡ true
    → start m now world ≡ done none n
    → stop n ≡ panicked (record n { running = false })
unfolding stop
stop-start_panics m n now world closed e =
    let (running, same) = start_flags m n now world e in ground arith

abbrev AllHealthy : Manager → Type 0
AllHealthy m = (p : ProviderType) (o : HealthStatus) → lookup p m.status ≡ some o → o.healthy ≡ true

ensure_entry-AllHealthy :
    (m : Manager) (p : ProviderType) → AllHealthy m → AllHealthy (ensure_entry m p)
unfolding ensure_entry
ensure_entry-AllHealthy m p h q o e = elim (Option-cases (lookup p m.status)) [
  | inr (s, known) ↦ h q o (rw (known, ensure_entry) at e)
  | inl new ↦ added (rw (new, ensure_entry) at e)
]
  where
    added : lookup q (insert p (healthy_status p) m.status) ≡ some o → o.healthy ≡ true
    added e' = ground (arith, lookup-insert p q (healthy_status p) m.status, h q o)

run-done :
    (m n : Manager) (c : Call) (cs : List Call) → call m c ≡ done tt n → run m (c ∷ cs) ≡ run n cs
unfolding run
run-done m n c cs e = rw (e, run)

run-blocked :
    (m n : Manager) (c : Call) (cs : List Call) → call m c ≡ blocked n → run m (c ∷ cs) ≡ blocked n
unfolding run
run-blocked m n c cs e = rw (e, run)

-- On a manager with no unhealthy entry, more manual failovers in a row than the channel has free places
-- do not all return, whatever their targets: nothing takes events out of the channel, and a call
-- waits for ever with the lock held. From an empty channel the eleventh is such a call at the latest.
pub fails_over-blocked :
    (m : Manager) (now : ℕ) (targets : List ProviderType)
    → AllHealthy m
    → length m.failover_ch ≤ failover_capacity
    → failover_capacity < length m.failover_ch + length targets
    → (m' : Manager) × (run m (map (λ p. fails_over p now) targets) ≡ blocked m')
unfolding run call
fails_over-blocked m now [] healthy fits h = absurd (omega arith)
fails_over-blocked m now (p ∷ ps) healthy fits h = elim (manual_failover-Branches m p now) [
  | inl (o, known, sick, e) ↦ absurd (false-ne-true sick (healthy p o known))
  | inr (inl (room, e)) ↦
      let m₁ : Manager = record (ensure_entry m p) {
        current_primary = p;
        failover_ch = m.failover_ch ++ by_hand m now p ∷ [];
      } in
      let (m', rest) =
        fails_over-blocked m₁ now ps (ensure_entry-AllHealthy m p healthy)
          (omega (arith, length-append m.failover_ch (by_hand m now p ∷ [])))
          (omega (arith, length-append m.failover_ch (by_hand m now p ∷ []))) in
      (m', run-done m m₁ (fails_over p now) (map (λ q. fails_over q now) ps) (ap forget e) ∙ rest)
  | inr (inr (full, e)) ↦ (
    record (ensure_entry m p) { current_primary = p },
    run-blocked m _ (fails_over p now) (map (λ q. fails_over q now) ps) (ap forget e),
  )
]
