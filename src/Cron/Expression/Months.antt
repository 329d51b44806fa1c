-- ===== src/Cron/Expression/Months.antt =====
-- The search for a month of the pattern, and whether `parseCronExpression` returns at all.
use ocg.Base.{
  ℕ, zero, suc, ◌+◌, ◌-◌, ◌≤◌, ◌<◌, ◌≡◌, ◌⊎◌, inl, inr, refl, ap, ◌∙◌, Bool, true, false, Option,
  some, if◌then◌else◌, ◌==◌, nat_eq, arith, In, Bool-cases,
}
use ocg.Base.Int.{ℤ, pos, ◌+ℤ◌}
use ocg.Cron.Fields.{contains}
use ocg.Cron.Fields.Steps.{contains_iff, pos_add}
use ocg.Cron.Expression.{
  Calendar, Pattern, first, next_month, skip_months, scan, one_hour_later, truncate, next_match,
  has_empty_field, max_iterations,
}
use ocg.Cron.Expression.Scan.{Scanned, scan-Scanned}

-- What is relied on of a location. A month that `time.Date` is given as 13 is January; a day that
-- every month has stays in its month. (A location that skips midnight at the first of a month may
-- put such a time into the month before; those are left out.)
pub record DateLaws (cal : Calendar) : Type 0 where
  pub month_range : (t : ℤ) → (m : ℕ) × ((cal.civil t).month ≡ pos m) × (1 ≤ m) × (m ≤ 12)
  pub date_month :
      (y : ℤ) (m d h mi s : ℕ)
      → 1 ≤ m
      → m ≤ 13
      → 1 ≤ d
      → d ≤ 28
      → h < 24
      → mi < 60
      → s < 60
      → (cal.civil (cal.date y (pos m) (pos d) (pos h) (pos mi) (pos s))).month
        ≡ pos (if m == 13 then 1 else m)

-- A pattern with a month of the year, whose first day is one that every month has.
pub record IsSafe (p : Pattern) : Type 0 where
  pub month : ℕ
  pub month_listed : In (pos month) p.months
  pub month_low : 1 ≤ month
  pub month_high : month ≤ 12
  pub day : ℕ
  pub first_day : first p.days ≡ pos day
  pub day_low : 1 ≤ day
  pub day_high : day ≤ 28
  pub hour : ℕ
  pub first_hour : first p.hours ≡ pos hour
  pub hour_high : hour < 24
  pub minute : ℕ
  pub first_minute : first p.minutes ≡ pos minute
  pub minute_high : minute < 60
  pub second : ℕ
  pub first_second : first p.seconds ≡ pos second
  pub second_high : second < 60

m-le : (a b : ℕ) → (a ≤ b) ⊎ (b < a)
m-le a b = grind arith

if_some :
    (b : Bool) (x y : Option ℤ)
    → ((r : ℤ) × (x ≡ some r))
    → ((r : ℤ) × (y ≡ some r))
    → (r : ℤ) × ((if b then x else y) ≡ some r)
if_some true x y (r, e) _ = (r, e)
if_some false x y _ (r, e) = (r, e)

module _ (cal : Calendar) (p : Pattern) (laws : DateLaws cal) (safe : IsSafe p) where
  next_month_lem :
      (t : ℤ) (m : ℕ)
      → (cal.civil t).month ≡ pos m
      → next_month cal p t
        ≡ cal.date
            (cal.civil t).year
            (pos (m + 1))
            (pos safe.day)
            (pos safe.hour)
            (pos safe.minute)
            (pos safe.second)
  unfolding next_month
  next_month_lem t m e = cc (
    pos_add m 1,
    safe.first_day,
    safe.first_hour,
    safe.first_minute,
    safe.first_second,
    ap (λ (z : ℤ). z +ℤ pos 1) e,
  )

  month-next_month :
      (t : ℤ) (m : ℕ)
      → (cal.civil t).month ≡ pos m
      → 1 ≤ m
      → m ≤ 12
      → (cal.civil (next_month cal p t)).month ≡ pos (if m == 12 then 1 else m + 1)
  month-next_month t m e l h =
      ap (λ s. (cal.civil s).month) (next_month_lem t m e)
      ∙ laws.date_month (cal.civil t).year (m + 1) safe.day safe.hour safe.minute safe.second
          (omega arith) (omega arith) safe.day_low safe.day_high safe.hour_high safe.minute_high
          safe.second_high
      ∙ ap pos (ground arith)

  skip_months_here :
      (fuel : ℕ) (t : ℤ)
      → contains p.months (cal.civil t).month ≡ true
      → skip_months cal p (suc fuel) t ≡ some t
  unfolding skip_months
  skip_months_here fuel t e = rw (e, skip_months)

  skip_months_on :
      (fuel : ℕ) (t : ℤ)
      → contains p.months (cal.civil t).month ≡ false
      → skip_months cal p (suc fuel) t ≡ skip_months cal p fuel (next_month cal p t)
  unfolding skip_months
  skip_months_on fuel t e = rw (e, skip_months)

  listed_here :
      (t : ℤ) → (cal.civil t).month ≡ pos safe.month → contains p.months (cal.civil t).month ≡ true
  listed_here t e = rw e ((contains_iff p.months (pos safe.month)).1 safe.month_listed)

  -- From a month that lies `k` months before the listed one, `k + 1` rounds are enough.
  skip_months-finds :
      (k f : ℕ) (t : ℤ) (m : ℕ)
      → (cal.civil t).month ≡ pos m
      → 1 ≤ m
      → m ≤ 12
      → (m + k ≡ safe.month) ⊎ (m + k ≡ safe.month + 12)
      → (r : ℤ) × (skip_months cal p (suc (k + f)) t ≡ some r)
  skip_months-finds zero f t m e l h d =
      let here : m ≡ safe.month = omega (arith, d, safe.month_low) in
      (t, skip_months_here (0 + f) t (listed_here t (e ∙ ap pos here)))
  skip_months-finds (suc k) f t m e l h d =
      elim (Bool-cases (contains p.months (cal.civil t).month)) [
        | inl yes_here ↦ (t, skip_months_here (suc k + f) t yes_here)
        | inr not_here ↦
            let m' = (if m == 12 then 1 else m + 1) in
            let (r, q) =
              skip_months-finds k f (next_month cal p t) m' (month-next_month t m e l h)
                (ground arith) (ground arith)
                (ground (arith, d, safe.month_low, safe.month_high)) in
            (
              r,
              skip_months_on (suc k + f) t not_here
                  ∙ ap (λ n. skip_months cal p n (next_month cal p t)) (omega arith)
                  ∙ q,
            )
      ]

  months_ahead :
      (m : ℕ)
      → 1 ≤ m
      → m ≤ 12
      → (k : ℕ) × (k ≤ 11) × ((m + k ≡ safe.month) ⊎ (m + k ≡ safe.month + 12))
  months_ahead m l h = elim (m-le m safe.month) [
    | inl a ↦ (safe.month - m, omega (arith, safe.month_high), inl (omega arith))
    | inr b ↦ (safe.month + 12 - m, omega (arith, safe.month_high), inr (omega arith))
  ]

  -- Twelve rounds of the search are enough, from any instant.
  pub skip_months-total :
      (fuel : ℕ) (t : ℤ) → 12 ≤ fuel → (r : ℤ) × (skip_months cal p fuel t ≡ some r)
  skip_months-total fuel t hf =
      let (m, e, l, h) = laws.month_range t in
      let (k, hk, d) = months_ahead m l h in
      let (r, q) = skip_months-finds k (fuel - suc k) t m e l h d in
      (r, ap (λ n. skip_months cal p n t) (omega arith) ∙ q)

  scan-total :
      (fuel : ℕ) (fallback : ℤ) (rounds next : ℕ)
      → 12 ≤ fuel
      → (r : ℤ) × (scan cal p fuel fallback rounds next ≡ some r)
  unfolding scan
  scan-total fuel fallback zero next hf = (fallback, refl)
  scan-total fuel fallback (suc rounds) next hf =
      let rest = scan-total fuel fallback rounds (next + p.step_ms) hf in
      if_some _ _ _ (if_some _ _ _ (pos (next + p.step_ms), refl) rest)
        (if_some _ _ _ (skip_months-total fuel (pos (next + p.step_ms)) hf) rest)

  -- In a location where `time.Date` keeps a day that every month has in its month, for a pattern with
  -- no empty field, a month of the year, and a first day up to 28, the calculation returns, twelve
  -- rounds of the search for a month being enough, and what it returns is the end of a scan.
  pub next_match-total :
      (fuel now : ℕ)
      → 12 ≤ fuel
      → has_empty_field p ≡ false
      → (r : ℤ) × (next_match cal fuel p now ≡ some r)
        × Scanned cal p (one_hour_later now) (max_iterations p) (truncate now p.step_ms) r
  unfolding next_match
  next_match-total fuel now hf full =
      let (r, e) =
        scan-total fuel (one_hour_later now) (max_iterations p) (truncate now p.step_ms) hf in
      (
        r,
        rw full e,
        scan-Scanned cal p fuel (one_hour_later now) (max_iterations p) (truncate now p.step_ms) r
            e,
      )
