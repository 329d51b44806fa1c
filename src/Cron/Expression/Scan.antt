-- ===== src/Cron/Expression/Scan.antt =====
-- What the scan of `parseCronExpression` finds.
use ocg.Base.{
  ℕ, zero, suc, ◌+◌, ◌*◌, ◌<◌, ◌≡◌, ◌↔◌, ◌⊎◌, inl, inr, sym, ap, ◌∙◌, subst, Bool, true, false, not,
  ◌&&◌, ◌||◌, some, if◌then◌else◌, length, nat_eq, arith, In, Bool-cases,
}
use ocg.Base.Int.{ℤ, pos, ◌+ℤ◌}
use ocg.Cron.Fields.{contains}
use ocg.Cron.Fields.Steps.{contains_iff}
use ocg.Cron.Expression.{
  Civil, Calendar, Pattern, has_one, first, next_month, skip_months, day_matches, time_matches,
  scan,
}

-- The rule for day and weekday: one that is `*` does not restrict; of two that do, one is enough.
abbrev pub DayRule : Bool → Bool → Pattern → Civil → Type 0
DayRule true true p c = Unit
DayRule true false p c = In c.weekday p.weekdays
DayRule false true p c = In c.day p.days
DayRule false false p c = In c.day p.days ⊎ In c.weekday p.weekdays

-- The instants that a pattern means.
pub record Matches (p : Pattern) (c : Civil) : Type 0 where
  pub month_listed : In c.month p.months
  pub day_rule : DayRule p.day_is_wildcard p.weekday_is_wildcard p c
  pub hour_listed : In c.hour p.hours
  pub minute_listed : In c.minute p.minutes
  pub second_listed : In c.second p.seconds

DayRule-iff :
    (dw ww : Bool) (p : Pattern) (c : Civil)
    → ((if not dw && not ww
          then contains p.days c.day || contains p.weekdays c.weekday
          else (dw || contains p.days c.day) && (ww || contains p.weekdays c.weekday))
        ≡ true)
      ↔ DayRule dw ww p c
DayRule-iff true true p c = ground (arith)
DayRule-iff true false p c = ground (arith, contains_iff p.weekdays c.weekday)
DayRule-iff false true p c = ground (arith, contains_iff p.days c.day)
DayRule-iff false false p c =
    ground (arith, contains_iff p.days c.day, contains_iff p.weekdays c.weekday)

and₄ :
    (a b c d : Bool) → (a && b && c && d) ≡ true → (a ≡ true) × (b ≡ true) × (c ≡ true) × (d ≡ true)
and₄ a b c d h = ground arith

module _ (cal : Calendar) (p : Pattern) where
  day_matches_iff :
      (c : Civil)
      → (day_matches cal p c ≡ true) ↔ DayRule p.day_is_wildcard p.weekday_is_wildcard p c
  unfolding day_matches
  day_matches_iff c = DayRule-iff p.day_is_wildcard p.weekday_is_wildcard p c

  -- The checks of the loop decide whether an instant of a listed month is meant.
  time_matches-Matches :
      (c : Civil) → contains p.months c.month ≡ true → time_matches cal p c ≡ true → Matches p c
  unfolding time_matches
  time_matches-Matches c m t = record {
    month_listed = (contains_iff p.months c.month).0 m;
    day_rule = (day_matches_iff c).0 (parts.0);
    hour_listed = (contains_iff p.hours c.hour).0 parts.1;
    minute_listed = (contains_iff p.minutes c.minute).0 parts.2;
    second_listed = (contains_iff p.seconds c.second).0 parts.3;
  }
    where
      parts :
          (day_matches cal p c ≡ true)
          × (contains p.hours c.hour ≡ true)
          × (contains p.minutes c.minute ≡ true)
          × (contains p.seconds c.second ≡ true)
      parts = and₄ _ _ _ _ t

  not-Matches :
      (c : Civil)
      → (contains p.months c.month ≡ false) ⊎ (time_matches cal p c ≡ false)
      → ¬ Matches p c
  unfolding time_matches
  not-Matches c h m = ground (
    arith,
    h,
    (contains_iff p.months c.month).1 m.month_listed,
    (day_matches_iff c).1 m.day_rule,
    (contains_iff p.hours c.hour).1 m.hour_listed,
    (contains_iff p.minutes c.minute).1 m.minute_listed,
    (contains_iff p.seconds c.second).1 m.second_listed,
  )

  -- The instant of the scan's round `i`, and that none of the first `n` rounds is at a match.
  abbrev pub at_round : ℕ → ℕ → ℕ
  at_round next i = next + suc i * p.step_ms

  abbrev pub NoMatch : ℕ → ℕ → Type 0
  NoMatch next n = (j : ℕ) → j < n → ¬ Matches p (cal.civil (pos (at_round next j)))

  -- `r` is the first instant of a listed month among `t` and the starts of the months after it: each the
  -- first listed day and time of the month that follows that of the one before.
  pub data MonthSearch (r : ℤ) : ℤ → Type 0 where
    here : In (cal.civil r).month p.months → MonthSearch r r
    later :
        (t : ℤ)
        → ¬ In (cal.civil t).month p.months
        → MonthSearch r (
            cal.date
              (cal.civil t).year
              ((cal.civil t).month +ℤ pos 1)
              (first p.days)
              (first p.hours)
              (first p.minutes)
              (first p.seconds))
        → MonthSearch r t

  -- The three ways in which a scan ends: at the first match; at the end of a search for a month,
  -- which starts only if the pattern names a single day; with the rounds used up.
  pub data Scanned (fallback : ℤ) (rounds next : ℕ) (r : ℤ) : Type 0 where
    found :
        (i : ℕ)
        → i < rounds
        → r ≡ pos (at_round next i)
        → Matches p (cal.civil r)
        → NoMatch next i
        → Scanned fallback rounds next r
    skipped :
        (i : ℕ)
        → i < rounds
        → length p.days ≡ 1
        → ¬ In (cal.civil (pos (at_round next i))).month p.months
        → MonthSearch r (pos (at_round next i))
        → NoMatch next (suc i)
        → Scanned fallback rounds next r
    exhausted : r ≡ fallback → NoMatch next rounds → Scanned fallback rounds next r

  some_inj : {a b : ℤ} → some a ≡ some b → a ≡ b
  some_inj e = cc

  not_listed :
      (t : ℤ) → contains p.months (cal.civil t).month ≡ false → ¬ In (cal.civil t).month p.months
  not_listed t f i = ground (arith, f, (contains_iff p.months (cal.civil t).month).1 i)

  skip_months-MonthSearch :
      (fuel : ℕ) (next : ℤ) (r : ℤ) → skip_months cal p fuel next ≡ some r → MonthSearch r next
  unfolding skip_months next_month
  skip_months-MonthSearch zero next r e = cc
  skip_months-MonthSearch (suc fuel) next r e =
      go (skip_months-MonthSearch fuel (next_month cal p next) r)
    where
      go :
          (skip_months cal p fuel (next_month cal p next) ≡ some r
            → MonthSearch r (next_month cal p next))
          → MonthSearch r next
      go ih = elim (Bool-cases (contains p.months (cal.civil next).month)) [
        | inl t ↦
            subst (λ q. MonthSearch r q) (sym (some_inj (rw t at e)))
              (here (
                subst (λ q. In (cal.civil q).month p.months) (some_inj (rw t at e))
                  ((contains_iff p.months (cal.civil next).month).0 t)))
        | inr f ↦ later next (not_listed next f) (ih (rw f at e))
      ]

  at_round-zero : (next : ℕ) → at_round next zero ≡ next + p.step_ms
  at_round-zero next = omega arith

  at_round-suc : (next j : ℕ) → at_round next (suc j) ≡ at_round (next + p.step_ms) j
  at_round-suc next j = grind arith

  -- Without a match in the first round, a scan from there tells about the whole.
  NoMatch-later :
      (next n : ℕ)
      → ¬ Matches p (cal.civil (pos (next + p.step_ms)))
      → NoMatch (next + p.step_ms) n
      → NoMatch next (suc n)
  NoMatch-later next n none_here no_later zero h m =
      none_here (subst (λ t. Matches p (cal.civil (pos t))) (at_round-zero next) m)
  NoMatch-later next n none_here no_later (suc j) h m =
      no_later j (omega arith) (subst (λ t. Matches p (cal.civil (pos t))) (at_round-suc next j) m)

  later-Scanned :
      (fallback : ℤ) (rounds next : ℕ) (r : ℤ)
      → ¬ Matches p (cal.civil (pos (next + p.step_ms)))
      → Scanned fallback rounds (next + p.step_ms) r
      → Scanned fallback (suc rounds) next r
  later-Scanned fallback rounds next r none_here (found i h e m n) =
      found (suc i) (omega arith) (e ∙ ap pos (sym (at_round-suc next i))) m
        (NoMatch-later next i none_here n)
  later-Scanned fallback rounds next r none_here (skipped i h d out search n) =
      skipped (suc i) (omega arith) d
        (subst (λ t. ¬ In (cal.civil (pos t)).month p.months) (sym (at_round-suc next i)) out)
        (subst (λ t. MonthSearch r (pos t)) (sym (at_round-suc next i)) search)
        (NoMatch-later next (suc i) none_here n)
  later-Scanned fallback rounds next r none_here (exhausted e n) =
      exhausted e (NoMatch-later next rounds none_here n)

  -- Whatever the scan of a pattern answers is one of three things: the first step after the start that
  -- the pattern means; where the pattern names one day, from a step whose month is not listed, no step
  -- up to it being meant, the first of the starts of the months after that step whose month is listed
  -- (a start being the first listed day and time of the month); or the fallback, no step of the whole
  -- scan being meant.
  pub scan-Scanned :
      (fuel : ℕ) (fallback : ℤ) (rounds next : ℕ) (r : ℤ)
      → scan cal p fuel fallback rounds next ≡ some r
      → Scanned fallback rounds next r
  unfolding scan
  scan-Scanned fuel fallback zero next r e =
      exhausted (sym (some_inj e)) (λ j h m. absurd (omega arith))
  scan-Scanned fuel fallback (suc rounds) next r e = go (scan-Scanned fuel fallback rounds at r)
    where
      at : ℕ
      at = next + p.step_ms

      c : Civil
      c = cal.civil (pos at)

      go :
          (scan cal p fuel fallback rounds at ≡ some r → Scanned fallback rounds at r)
          → Scanned fallback (suc rounds) next r
      go ih = elim (Bool-cases (contains p.months c.month)) [
        | inl m ↦ elim (Bool-cases (time_matches cal p c)) [
          | inl t ↦
              let same : pos at ≡ r = some_inj (rw (m, t) at e) in
              found 0 (omega arith) (sym same ∙ ap pos (sym (at_round-zero next)))
                (subst (λ q. Matches p (cal.civil q)) same (time_matches-Matches c m t))
                (λ j h k. absurd (omega arith))
          | inr f ↦
              later-Scanned fallback rounds next r (not-Matches c (inr f)) (ih (rw (m, f) at e))
        ]
        | inr f ↦ elim (Bool-cases (has_one p.days)) [
          | inl one ↦
              skipped 0 (omega arith) (ground arith)
                (subst (λ t. ¬ In (cal.civil (pos t)).month p.months) (sym (at_round-zero next))
                  (not_listed (pos at) f))
                (subst (λ t. MonthSearch r (pos t)) (sym (at_round-zero next))
                  (skip_months-MonthSearch fuel (pos at) r (rw (f, one) at e)))
                (NoMatch-later next 0 (not-Matches c (inl f)) (λ j h k. absurd (omega arith)))
          | inr many ↦
              later-Scanned fallback rounds next r (not-Matches c (inl f)) (ih (rw (f, many) at e))
        ]
      ]
