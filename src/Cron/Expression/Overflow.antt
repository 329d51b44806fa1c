-- ===== src/Cron/Expression/Overflow.antt =====
-- Where the search for a month does not end.
use ocg.Base.{
  ℕ, zero, suc, ◌+◌, ◌-◌, ◌≤◌, ◌<◌, ◌≡◌, inl, inr, refl, ap, ◌∙◌, Bool, true, false, ◌||◌, none,
  if◌then◌else◌, ◌==◌, nat_eq, arith, In, Bool-cases, false-ne-true, if_false,
}
use ocg.Base.Int.{ℤ, pos, ◌+ℤ◌}
use ocg.Cron.Fields.{contains}
use ocg.Cron.Fields.Steps.{contains_iff, pos_add}
use ocg.Cron.Expression.{
  Calendar, Pattern, has_one, first, next_month, skip_months, scan, one_hour_later, truncate,
  next_match, has_empty_field, max_iterations,
}

-- The month in which `time.Date` puts day 31 of month `m`; 13 is the next January.
abbrev pub rolled : ℕ → ℕ
rolled m =
    if m == 2 || m == 4 || m == 6 || m == 9 || m == 11 then m + 1 else if m == 13 then 1 else m

abbrev pub is_short : ℕ → Bool
is_short m = m == 2 || m == 4 || m == 6 || m == 9 || m == 11

-- The month it is put in has 31 days.
rolled_long : (m : ℕ) → 1 ≤ m → m ≤ 13 → is_short (rolled m) ≡ false
rolled_long m l h = ground arith

-- What `time.Date` does with a day 31: where the month has none, it is a day of the next month.
pub record OverflowLaws (cal : Calendar) : Type 0 where
  pub month_range : (t : ℤ) → (m : ℕ) × ((cal.civil t).month ≡ pos m) × (1 ≤ m) × (m ≤ 12)
  pub date_overflow :
      (y : ℤ) (m h mi s : ℕ)
      → 1 ≤ m
      → m ≤ 13
      → h < 24
      → mi < 60
      → s < 60
      → (cal.civil (cal.date y (pos m) (pos 31) (pos h) (pos mi) (pos s))).month ≡ pos (rolled m)

-- A pattern whose first time is a time of a day.
pub record HasTime (p : Pattern) : Type 0 where
  pub hour : ℕ
  pub first_hour : first p.hours ≡ pos hour
  pub hour_high : hour < 24
  pub minute : ℕ
  pub first_minute : first p.minutes ≡ pos minute
  pub minute_high : minute < 60
  pub second : ℕ
  pub first_second : first p.seconds ≡ pos second
  pub second_high : second < 60

module _ (cal : Calendar) (p : Pattern) (laws : OverflowLaws cal) (time : HasTime p)
    (last_day : first p.days ≡ pos 31)
    (short_months : (m : ℕ) → In (pos m) p.months → is_short m ≡ true) where
  long-not-listed :
      (t : ℤ) (m : ℕ)
      → (cal.civil t).month ≡ pos m
      → is_short m ≡ false
      → contains p.months (cal.civil t).month ≡ false
  long-not-listed t m e long = elim (Bool-cases (contains p.months (cal.civil t).month)) [
    | inl listed ↦
        absurd (
          false-ne-true long (short_months m ((contains_iff p.months (pos m)).0 (rw (← e) listed))))
    | inr absent ↦ absent
  ]

  next_month_31 :
      (t : ℤ) (m : ℕ)
      → (cal.civil t).month ≡ pos m
      → next_month cal p t
        ≡ cal.date
            (cal.civil t).year
            (pos (m + 1))
            (pos 31)
            (pos time.hour)
            (pos time.minute)
            (pos time.second)
  unfolding next_month
  next_month_31 t m e = cc (
    pos_add m 1,
    last_day,
    time.first_hour,
    time.first_minute,
    time.first_second,
    ap (λ (z : ℤ). z +ℤ pos 1) e,
  )

  next_month-long : (t : ℤ) → contains p.months (cal.civil (next_month cal p t)).month ≡ false
  next_month-long t =
      let (m, e, l, h) = laws.month_range t in
      long-not-listed (next_month cal p t) (rolled (m + 1))
        (ap (λ s. (cal.civil s).month) (next_month_31 t m e)
          ∙ laws.date_overflow (cal.civil t).year (m + 1) time.hour time.minute time.second
              (omega arith) (omega arith) time.hour_high time.minute_high time.second_high)
        (rolled_long (m + 1) (omega arith) (omega arith))

  -- The search never ends when the only day is 31 and no listed month has one: from a month that is
  -- not listed it comes to long months only, for ever.
  pub skip_months-hangs :
      (fuel : ℕ) (t : ℤ)
      → contains p.months (cal.civil t).month ≡ false
      → skip_months cal p fuel t ≡ none
  unfolding skip_months
  skip_months-hangs zero t e = refl
  skip_months-hangs (suc fuel) t e =
      rw (e, skip_months) (skip_months-hangs fuel _ (next_month-long t))

  max_iterations-pos : (n : ℕ) × (max_iterations p ≡ suc n)
  unfolding max_iterations
  max_iterations-pos = (max_iterations p - 1, ground arith)

  scan-hangs :
      (fuel : ℕ) (fallback : ℤ) (n rounds next : ℕ)
      → rounds ≡ suc n
      → has_one p.days ≡ true
      → contains p.months (cal.civil (pos (next + p.step_ms))).month ≡ false
      → scan cal p fuel fallback rounds next ≡ none
  unfolding scan
  scan-hangs fuel fallback n rounds next r one e =
      rw r (rw (e, one, scan) (skip_months-hangs fuel (pos (next + p.step_ms)) e))

  -- Where no field is empty, the first listed time is a time of a day, the only day is 31 and every
  -- listed month is shorter, no fuel makes the calculation return, unless the very next minute (or
  -- second) lies in a listed month; `time.Date` is relied on to put a time of day 31 of a short month
  -- into the next month.
  pub next_match-hangs :
      (fuel now : ℕ)
      → has_empty_field p ≡ false
      → has_one p.days ≡ true
      → contains p.months (cal.civil (pos (truncate now p.step_ms + p.step_ms))).month ≡ false
      → next_match cal fuel p now ≡ none
  unfolding next_match
  next_match-hangs fuel now full one e =
      let (n, r) = max_iterations-pos in
      if_false _ _ full
      ∙ scan-hangs fuel (one_hour_later now) n (max_iterations p) (truncate now p.step_ms) r one e
