-- ===== src/Cron/Tests.antt =====
-- Schedules at concrete inputs.
use ocg.Base.{
  ℕ, ◌≤◌, ◌≡◌, refl, ap, inl, inr, true, false, List, [], ◌∷◌, none, some, String, nat_eq,
  if◌then◌else◌, ◌==◌, arith, In, drop, leb, string_eq,
}
use ocg.Base.Int.{ℤ, pos, negsuc, ◌+ℤ◌, pos_part}
use ocg.Base.Text.{codes, atoi, trim_space}
use ocg.Cron.{Job, Schedule, schedule_kind_every}
use ocg.Base.Json.{Json, Fields}
use ocg.Cron.Create.{create_job_from_map}
use ocg.Cron.Create.Valid.{Answered, create_job_from_map-Answered}
use ocg.Cron.Fields.{contains, parse_trimmed, parse_int, count_up, star}
use ocg.Cron.Fields.Values.{SmallStep}
use ocg.Cron.Expression.{
  Civil, Calendar, Pattern, next_match, one_hour_later, max_iterations, truncate, scan, skip_months,
  next_month, time_matches, day_matches,
}
use ocg.Cron.Expression.Scan.{Scanned, scan-Scanned}
use ocg.Cron.Expression.Months.{DateLaws, IsSafe, next_match-total}
use ocg.Cron.Expression.Overflow.{OverflowLaws, HasTime, next_match-hangs, rolled, is_short}
use ocg.Cron.Next.{TimeData, next_every, next_at, staggered, parse_at}
use ocg.Cron.Next.Every.{Base, Shift, next_every-FirstAfter}
use ocg.Cron.Next.Advance.{FirstAfter}

abbrev two_parts : List (List ℕ)
two_parts = codes "1" ∷ codes "x" ∷ []

-- A location that counts months only: an instant is the number of its month.
abbrev month_at : ℤ → ℕ
month_at (pos n) = if leb 1 n then (if leb n 12 then n else 1) else 1
month_at (negsuc n) = 1

abbrev months_only : ℤ → Civil
months_only t = record {
  year = pos 2024;
  month = pos (month_at t);
  day = pos 1;
  hour = pos 0;
  minute = pos 0;
  second = pos 0;
  weekday = pos 1;
}

abbrev month_calendar : Calendar
month_calendar = record {
  civil = months_only;
  date = λ y m d h mi s. pos (if pos_part m == 13 then 1 else pos_part m);
}

abbrev overflow_calendar : Calendar
overflow_calendar = record { civil = months_only; date = λ y m d h mi s. pos (rolled (pos_part m)) }

month_at-bounds : (t : ℤ) → (1 ≤ month_at t) × (month_at t ≤ 12)
month_at-bounds (pos n) = (ground arith, ground arith)
month_at-bounds (negsuc n) = (ground arith, ground arith)

clamp : (n : ℕ) → 1 ≤ n → n ≤ 12 → pos (month_at (pos n)) ≡ pos n
clamp n l h = ap pos (ground arith)

month_laws : DateLaws month_calendar
month_laws = record {
  month_range = λ t. (month_at t, refl, (month_at-bounds t).0, (month_at-bounds t).1);
  date_month = λ y m d h mi s a b.
      λ _ _ _ _ _. clamp (if m == 13 then 1 else m) (ground arith) (ground arith);
}

overflow_laws : OverflowLaws overflow_calendar
overflow_laws = record {
  month_range = λ t. (month_at t, refl, (month_at-bounds t).0, (month_at-bounds t).1);
  date_overflow = λ y m h mi s a b _ _ _. clamp (rolled m) (ground arith) (ground arith);
}

-- Midnight of the first of March.
abbrev in_march : Pattern
in_march = record {
  seconds = pos 0 ∷ [];
  minutes = pos 0 ∷ [];
  hours = pos 0 ∷ [];
  days = pos 1 ∷ [];
  months = pos 3 ∷ [];
  weekdays = pos 1 ∷ [];
  day_is_wildcard = false;
  weekday_is_wildcard = true;
  step_ms = 60000;
}

in_march-IsSafe : IsSafe in_march
in_march-IsSafe = record {
  month = 3;
  month_listed = inl refl;
  month_low = omega arith;
  month_high = omega arith;
  day = 1;
  first_day = refl;
  day_low = omega arith;
  day_high = omega arith;
  hour = 0;
  first_hour = refl;
  hour_high = omega arith;
  minute = 0;
  first_minute = refl;
  minute_high = omega arith;
  second = 0;
  first_second = refl;
  second_high = omega arith;
}

next_match-total_example :
    (r : ℤ) × (next_match month_calendar 12 in_march 5 ≡ some r)
    × Scanned month_calendar in_march
        (one_hour_later 5)
        (max_iterations in_march)
        (truncate 5 60000)
        r
next_match-total_example =
    next_match-total month_calendar in_march month_laws in_march-IsSafe 12 5 (omega arith) refl

-- The 31st of February.
abbrev no_such_day : Pattern
no_such_day = record in_march { days = pos 31 ∷ []; months = pos 2 ∷ [] }

short_only : (m : ℕ) → In (pos m) no_such_day.months → is_short m ≡ true
short_only m (inl e) = let two : m ≡ 2 = ap pos_part e in rw two refl
short_only m (inr e) = absurd e

no_such_day-HasTime : HasTime no_such_day
no_such_day-HasTime = record {
  hour = 0;
  first_hour = refl;
  hour_high = omega arith;
  minute = 0;
  first_minute = refl;
  minute_high = omega arith;
  second = 0;
  first_second = refl;
  second_high = omega arith;
}

next_match-hangs_example : next_match overflow_calendar 1000000 no_such_day 5 ≡ none
unfolding contains
next_match-hangs_example =
    next_match-hangs overflow_calendar no_such_day overflow_laws no_such_day-HasTime refl short_only
      1000000 5 refl refl refl

two_rounds : scan month_calendar in_march 12 (pos 7) 2 0 ≡ some (pos 3)
unfolding scan skip_months next_month contains time_matches day_matches ◌+ℤ◌
two_rounds = refl

scan-Scanned_example : Scanned month_calendar in_march (pos 7) 2 0 (pos 3)
scan-Scanned_example = scan-Scanned month_calendar in_march 12 (pos 7) 2 0 (pos 3) two_rounds

abbrev times : TimeData
times = record {
  local = month_calendar;
  load_location = λ name. none;
  parse_rfc3339 = λ text. if text == "noon" then some (pos 43200) else none;
  parse_datetime = λ text. none;
}

abbrev schedule_of : String → ℤ → ℤ → Schedule
schedule_of kind every anchor = record {
  kind = kind;
  at = "noon";
  every_ms = every;
  expr = "";
  tz = "";
  stagger_ms = pos 0;
  anchor_ms = anchor;
}

abbrev job_of : Schedule → Job
job_of s = record {
  id = "job-1";
  name = "report";
  description = "";
  agent_id = "";
  enabled = true;
  schedule = s;
  session_target = "main";
  wake_mode = "now";
  payload = record {
    kind = "systemEvent";
    text = "hi";
    message = "";
    model = "";
    thinking = "";
    timeout_seconds = pos 0;
  };
  delivery = none;
  delete_after_run = true;
  created_at = 0;
  updated_at = 0;
  state = record {
    next_run_at_ms = pos 0;
    last_run_at_ms = pos 0;
    last_status = "";
    last_duration_ms = pos 0;
    consecutive_errors = 0;
  };
}

abbrev hourly : Job
hourly = job_of (schedule_of schedule_kind_every (pos 3600000) (pos 100))

abbrev staggered_job : Job
staggered_job = record hourly { schedule = record hourly.schedule { stagger_ms = pos 60000 } }

next_every-FirstAfter_example :
    (r : ℤ) × (b : ℕ) × (d : ℤ) × (next_every 1000 staggered_job ≡ some r)
    × Base 1000 3600000 (pos 100) b
    × Shift staggered_job d
    × FirstAfter 1000 3600000 (pos b +ℤ d) r
next_every-FirstAfter_example =
    next_every-FirstAfter 1000 3600000 staggered_job refl (omega arith) (omega arith) (omega arith)
      (omega arith) (omega arith)

abbrev at_noon : Job
at_noon = job_of (schedule_of "at" (pos 0) (pos 0))

noon_over : next_at times 50000 at_noon ≡ some (pos 0)
unfolding next_at parse_at staggered
noon_over = refl

three_listed : In (pos 3) (parse_trimmed star 0 59)
unfolding parse_trimmed count_up
three_listed = inr (inr (inr (inl refl)))

star_step : parse_int (drop 2 star) ≡ none
unfolding parse_int atoi trim_space
star_step = refl

star-SmallStep : SmallStep 59 star
star-SmallStep n e = cc star_step

-- A request without a session, for which the main one is taken, and with a number for its name of agent.
abbrev request : Fields ℤ
request = Fields.field "name" (Json.str "report") (
    Fields.field "agentId" (Json.num (pos 7)) (
      Fields.field "schedule"
        (Json.obj (
          Fields.field "kind" (Json.str "every") (
            Fields.field "everyMs" (Json.num (pos 60000))
              (Fields.field "staggerMs" (Json.num (pos 500)) Fields.end))))
        (Fields.field "payload" (Json.obj (Fields.field "kind" (Json.str "agentTurn") Fields.end)) (
          Fields.field "delivery" (Json.obj (Fields.field "to" (Json.str "ops") Fields.end))
            Fields.end))))

create_job_from_map-Answered_example :
    Answered (λ x. x) request (create_job_from_map (λ x. x) request)
create_job_from_map-Answered_example = create_job_from_map-Answered (λ x. x) request
