-- ===== src/Cron/Next/Once.antt =====
-- The next run of a job that is scheduled at one instant.
use ocg.Base.{
  ℕ, ◌≤◌, ◌≡◌, ◌⊎◌, inl, inr, refl, sym, ◌∙◌, Option, none, some, ◌==◌, string_eq, arith,
  Bool-cases, if_true, if_false,
}
use ocg.Base.Int.{ℤ, pos, ◌≤ℤ◌, ◌<ℤ◌}
use ocg.Cron.{Job}
use ocg.Cron.Next.{TimeData, parse_at, staggered, not_past, stagger_at, next_at}

not_past_cases :
    (now : ℕ) (base : ℤ)
    → ((base ≤ℤ pos now) × (not_past now base ≡ some (pos 0)))
      ⊎ ((pos now <ℤ base) × (not_past now base ≡ some base))
not_past_cases now base = ground arith

stagger_at_cases :
    (now : ℕ) (job : Job) (o : Option ℤ)
    → (stagger_at now job o ≡ some (pos 0))
      ⊎ ((x : ℤ) × (o ≡ some x)
          × (pos now <ℤ staggered job x)
          × (stagger_at now job o ≡ some (staggered job x)))
stagger_at_cases now job none = inl refl
stagger_at_cases now job (some x) = elim (not_past_cases now (staggered job x)) [
  | inl (h, e) ↦ inl e
  | inr (h, e) ↦ inr (x, refl, h, e)
]

-- The instant of a job that runs once is given back, with the job's stagger, while it lies ahead;
-- otherwise, and for a text that is no instant, the answer is 0, by which a job is never due.
next_at_cases :
    (t : TimeData) (now : ℕ) (job : Job)
    → (next_at t now job ≡ some (pos 0))
      ⊎ ((x : ℤ) × (parse_at t job.schedule.at ≡ some x)
          × (pos now <ℤ staggered job x)
          × (next_at t now job ≡ some (staggered job x)))
unfolding next_at
next_at_cases t now job = elim (Bool-cases (job.schedule.at == "")) [
  | inl blank ↦ inl (if_true _ _ blank)
  | inr given ↦ elim (stagger_at_cases now job (parse_at t job.schedule.at)) [
    | inl e ↦ inl (if_false _ _ given ∙ e)
    | inr (x, p, h, e) ↦ inr (x, p, h, if_false _ _ given ∙ e)
  ]
]

stagger_at_later :
    (now later : ℕ) (job : Job) (o : Option ℤ)
    → now ≤ later
    → stagger_at now job o ≡ some (pos 0)
    → stagger_at later job o ≡ some (pos 0)
stagger_at_later now later job none h e = refl
stagger_at_later now later job (some x) h e = ground arith

-- Once the answer is 0 it stays 0: the instant of a job does not come back.
next_at_stays :
    (t : TimeData) (now later : ℕ) (job : Job)
    → now ≤ later
    → next_at t now job ≡ some (pos 0)
    → next_at t later job ≡ some (pos 0)
unfolding next_at
next_at_stays t now later job h e = elim (Bool-cases (job.schedule.at == "")) [
  | inl blank ↦ if_true _ _ blank
  | inr given ↦
      if_false _ _ given
      ∙ stagger_at_later now later job (parse_at t job.schedule.at) h (sym (if_false _ _ given) ∙ e)
]
