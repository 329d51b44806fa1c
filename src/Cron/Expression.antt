-- ===== src/Cron/Expression.antt =====
-- cron/cron.go: `parseCronExpression`. Instants are milliseconds since the Unix epoch. The fields of
-- an instant in a location and `time.Date` rest on the time zone database, so they are a parameter.
pub mod Scan
pub mod Months
pub mod Overflow
use ocg.Base.{
  ℕ, zero, suc, ◌+◌, ◌-◌, ◌*◌, ◌%◌, ◌≡◌, Bool, true, false, not, ◌&&◌, ◌||◌, List, [], ◌∷◌, Option,
  none, some, String, if◌then◌else◌, leb, ltb, length, ◌==◌, nat_eq,
}
use ocg.Base.Int.{ℤ, pos, ◌+ℤ◌}
use ocg.Base.Text.{codes, same_text, trim_space, fields}
use ocg.Cron.Fields.{contains, parse_field, star}

-- The fields of a time.Time that the scan reads.
pub record Civil : Type 0 where
  pub year : ℤ
  pub month : ℤ
  pub day : ℤ
  pub hour : ℤ
  pub minute : ℤ
  pub second : ℤ
  pub weekday : ℤ

-- A location: the fields of an instant, and `time.Date` of year, month, day, hour, minute, second.
pub record Calendar : Type 0 where
  pub civil : ℤ → Civil
  pub date : ℤ → ℤ → ℤ → ℤ → ℤ → ℤ → ℤ

pub record Parts : Type 0 where
  pub second : List ℕ
  pub minute : List ℕ
  pub hour : List ℕ
  pub day : List ℕ
  pub month : List ℕ
  pub weekday : List ℕ
  pub step_ms : ℕ

abbrev pub zero_text : List ℕ
zero_text = b'0' ∷ []

-- Five fields, or six with the seconds first; fewer are no expression, more are not read.
unfoldable pub read_parts : List (List ℕ) → Option Parts
read_parts [] = none
read_parts (a ∷ []) = none
read_parts (a ∷ b ∷ []) = none
read_parts (a ∷ b ∷ c ∷ []) = none
read_parts (a ∷ b ∷ c ∷ d ∷ []) = none
read_parts (a ∷ b ∷ c ∷ d ∷ e ∷ []) = some (record {
  second = zero_text;
  minute = a;
  hour = b;
  day = c;
  month = d;
  weekday = e;
  step_ms = 60000;
})
read_parts (a ∷ b ∷ c ∷ d ∷ e ∷ f ∷ r) =
    some
      (record { second = a; minute = b; hour = c; day = d; month = e; weekday = f; step_ms = 1000 })

pub record Pattern : Type 0 where
  pub seconds : List ℤ
  pub minutes : List ℤ
  pub hours : List ℤ
  pub days : List ℤ
  pub months : List ℤ
  pub weekdays : List ℤ
  pub day_is_wildcard : Bool
  pub weekday_is_wildcard : Bool
  pub step_ms : ℕ

unfoldable pub pattern_of : Parts → Pattern
pattern_of p = record {
  seconds = parse_field p.second 0 59;
  minutes = parse_field p.minute 0 59;
  hours = parse_field p.hour 0 23;
  days = parse_field p.day 1 31;
  months = parse_field p.month 1 12;
  weekdays = parse_field p.weekday 0 6;
  day_is_wildcard = same_text (trim_space p.day) star;
  weekday_is_wildcard = same_text (trim_space p.weekday) star;
  step_ms = p.step_ms;
}

abbrev pub is_empty : List ℤ → Bool
is_empty [] = true
is_empty (x ∷ xs) = false

abbrev pub has_empty_field : Pattern → Bool
has_empty_field p =
    is_empty p.seconds
    || is_empty p.minutes
    || is_empty p.hours
    || is_empty p.days
    || is_empty p.months
    || is_empty p.weekdays

abbrev pub has_one : List ℤ → Bool
has_one xs = length xs == 1

-- "Smart iteration limit based on specificity".
unfoldable pub max_iterations : Pattern → ℕ
max_iterations p =
    let is_specific = has_one p.months || has_one p.days || has_one p.hours in
    if is_specific
    then (if p.step_ms == 1000 then 2678400 else 44640)
    else if p.step_ms == 1000
    then 604800
    else 10080

-- `xs[0]` of a list that the caller has found not to be empty.
abbrev pub first : List ℤ → ℤ
first [] = pos 0
first (x ∷ xs) = x

module _ (cal : Calendar) (p : Pattern) where
  -- The step of the inner loop: the first listed day and time of the month after.
  unfoldable pub next_month : ℤ → ℤ
  next_month next =
      let c = cal.civil next in
      cal.date c.year (c.month +ℤ pos 1) (first p.days) (first p.hours) (first p.minutes)
        (first p.seconds)

  -- The inner loop that looks for a month of the pattern. `none`: not found within the fuel.
  unfoldable pub skip_months : ℕ → ℤ → Option ℤ
  skip_months zero next = none
  skip_months (suc fuel) next =
      let rest = skip_months fuel (next_month next) in
      if contains p.months (cal.civil next).month then some next else rest

  -- "cron semantics: if both specified, match either".
  unfoldable pub day_matches : Civil → Bool
  day_matches c =
      let day_match = contains p.days c.day in
      let weekday_match = contains p.weekdays c.weekday in
      if not p.day_is_wildcard && not p.weekday_is_wildcard
      then day_match || weekday_match
      else (p.day_is_wildcard || day_match) && (p.weekday_is_wildcard || weekday_match)

  -- The checks behind that of the month; each of them goes on with the next round if it fails.
  unfoldable pub time_matches : Civil → Bool
  time_matches c =
      day_matches c
      && contains p.hours c.hour
      && contains p.minutes c.minute
      && contains p.seconds c.second

  -- The loop over the steps after `next`; `fallback` is the answer when the rounds are used up.
  unfoldable pub scan : (fuel : ℕ) → ℤ → ℕ → ℕ → Option ℤ
  scan fuel fallback zero next = some fallback
  scan fuel fallback (suc rounds) next =
      let at = next + p.step_ms in
      let c = cal.civil (pos at) in
      let rest = scan fuel fallback rounds at in
      if contains p.months c.month
      then (if time_matches c then some (pos at) else rest)
      else if has_one p.days
      then skip_months fuel (pos at)
      else rest

-- One hour from now.
abbrev pub one_hour_later : ℕ → ℤ
one_hour_later now = pos (now + 3600000)

-- `next.Truncate(step)`; a minute and a second divide the distance from Go's zero time to the epoch.
abbrev pub truncate : ℕ → ℕ → ℕ
truncate now step = now - now % step

unfoldable pub next_match : Calendar → ℕ → Pattern → ℕ → Option ℤ
next_match cal fuel p now =
    if has_empty_field p
    then some (one_hour_later now)
    else scan cal p fuel (one_hour_later now) (max_iterations p) (truncate now p.step_ms)

abbrev pub match_parts : Calendar → ℕ → Option Parts → ℕ → Option ℤ
match_parts cal fuel none now = some (one_hour_later now)
match_parts cal fuel (some parts) now = next_match cal fuel (pattern_of parts) now

-- An empty expression has no fields, so its early return is the one for too few of them.
unfoldable pub parse_cron_expression : Calendar → ℕ → List ℕ → ℕ → Option ℤ
parse_cron_expression cal fuel expr now = match_parts cal fuel (read_parts (fields expr)) now
