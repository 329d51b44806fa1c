-- ===== src/Cron/Handler/Report.antt =====
-- What the handler reports of its jobs.
use ocg.Base.{
  ℕ, suc, ◌+◌, ◌≤◌, ◌≡◌, refl, ap, inl, inr, Bool, true, not, ◌&&◌, List, [], ◌∷◌, keep, length,
  arith, Bool-cases,
}
use ocg.Cron.{Job}
use ocg.Cron.Store.{is_due, list, get_due_jobs}
use ocg.Cron.Handler.{CronHandler, count, get_status}

-- The numbers of a status fit: each job is enabled or disabled, only enabled jobs are due, and as
-- many are due as the store gives to a tick at that time.
get_status_counts :
    (now : ℕ) (c : CronHandler)
    → let s = get_status now c in
      (s.enabled + s.disabled ≡ s.total_jobs)
      × (s.due_now ≤ s.enabled)
      × (s.due_now ≡ length (get_due_jobs c.store now))
unfolding get_status get_due_jobs list is_due
get_status_counts now c = let js = list c.store in (all js, within js, kept js)
  where
    all :
        (js : List Job)
        → count (λ job. job.enabled) js + count (λ job. not job.enabled) js ≡ length js
    all [] = refl
    all (job ∷ js) = elim (Bool-cases job.enabled) [
      | inl h ↦ rw h (omega (arith, all js))
      | inr h ↦ rw h (omega (arith, all js))
    ]

    first : (a b : Bool) → (a && b) ≡ true → a ≡ true
    first a b h = ground arith

    due_enabled : (job : Job) → is_due now job ≡ true → job.enabled ≡ true
    due_enabled job h = first _ _ (first _ _ h)

    within : (js : List Job) → count (is_due now) js ≤ count (λ job. job.enabled) js
    within [] = omega arith
    within (job ∷ js) = elim (Bool-cases (is_due now job)) [
      | inl h ↦ rw (h, due_enabled job h) (omega (arith, within js))
      | inr h ↦ rw h (elim (Bool-cases job.enabled) [
        | inl e ↦ rw e (omega (arith, within js))
        | inr e ↦ rw e (within js)
      ])
    ]

    kept : (js : List Job) → count (is_due now) js ≡ length (keep (is_due now) js)
    kept [] = refl
    kept (job ∷ js) = elim (Bool-cases (is_due now job)) [
      | inl h ↦ rw h (ap suc (kept js))
      | inr h ↦ rw h (kept js)
    ]
