-- ===== src/Cron/Next.antt =====
-- cron/cron.go: `CalculateNextRun`. What the package time knows of locations and texts is a
-- parameter. The clock counts whole milliseconds.
pub mod Every
pub mod Advance
pub mod Hash
pub mod Once
use ocg.Base.{
  ℕ, zero, suc, ◌+◌, ◌-◌, ◌*◌, ◌/◌, ◌%◌, ◌^◌, ◌≡◌, Bool, true, false, not, ◌&&◌, List, [], ◌∷◌,
  Option, none, some, String, if◌then◌else◌, ◌==◌, string_eq,
}
use ocg.Base.Int.{ℤ, pos, negsuc, ◌+ℤ◌, ◌-ℤ◌, ◌*ℤ◌, leb_ℤ, ltb_ℤ, pos_part, rem_ℤ, wrap64}
use ocg.Base.Text.{codes}
use ocg.Cron.{Job, Schedule, schedule_kind_at, schedule_kind_every, schedule_kind_cron}
use ocg.Cron.Expression.{Calendar, parse_cron_expression}

pub record TimeData : Type 0 where
  pub local : Calendar
  pub load_location : String → Option Calendar
  -- `time.Parse` with RFC3339 and with the layout without a zone, as Unix milliseconds.
  pub parse_rfc3339 : String → Option ℤ
  pub parse_datetime : String → Option ℤ

abbrev pub or_local : TimeData → Option Calendar → Calendar
or_local t none = t.local
or_local t (some cal) = cal

unfoldable pub location : TimeData → Schedule → Calendar
location t s = if s.tz == "" then t.local else or_local t (t.load_location s.tz)

abbrev pub second_layout : Option ℤ → Option ℤ → Option ℤ
second_layout none r = r
second_layout (some x) r = some x

-- The instant that `At` names, in either layout.
unfoldable pub parse_at : TimeData → String → Option ℤ
parse_at t at = second_layout (t.parse_rfc3339 at) (t.parse_datetime at)

-- x / d rounded down, and Go's x / y for a positive y.
abbrev pub floor_div : ℤ → ℕ → ℤ
floor_div (pos n) d = pos (n / d)
floor_div (negsuc n) d = negsuc (n / d)

abbrev pub quot_ℤ : ℤ → ℕ → ℤ
quot_ℤ (pos n) d = pos (n / d)
quot_ℤ (negsuc n) d = pos 0 -ℤ pos (suc n / d)

-- `hash = hash*31 + int64(c)` over the job's id.
unfoldable pub id_hash : ℤ → List ℕ → ℤ
id_hash hash [] = hash
id_hash hash (c ∷ s) = id_hash (wrap64 (wrap64 (hash *ℤ pos 31) +ℤ pos c)) s

-- `anchor + (intervals+1)*everyMs`, each operation on int64.
unfoldable pub aligned : ℕ → ℤ → ℤ → ℤ
aligned now anchor every =
    let intervals = quot_ℤ (wrap64 (pos now -ℤ anchor)) (pos_part every) in
    wrap64 (anchor +ℤ wrap64 (wrap64 (intervals +ℤ pos 1) *ℤ every))

-- `now.Add(time.Duration(EveryMs) * time.Millisecond)`; a Duration counts nanoseconds in int64.
unfoldable pub after_every : ℕ → ℤ → ℤ
after_every now every = pos now +ℤ floor_div (wrap64 (every *ℤ pos 1000000)) 1000000

-- The case `every` of the switch, for a positive `EveryMs`.
unfoldable pub every_base : ℕ → ℤ → ℤ → ℤ
every_base now anchor every =
    if ltb_ℤ (pos 0) anchor
    then (if ltb_ℤ (pos now) anchor then anchor else aligned now anchor every)
    else after_every now every

-- "Apply staggerMs if specified (deterministic stagger based on job ID)".
unfoldable pub staggered : Job → ℤ → ℤ
staggered job base =
    let stagger = job.schedule.stagger_ms in
    if ltb_ℤ (pos 0) stagger
    then wrap64 (base +ℤ rem_ℤ (id_hash (pos 0) (codes job.id)) (pos_part stagger))
    else base

-- `for baseNext <= now { baseNext += EveryMs }`. `none`: not over within the fuel.
unfoldable pub advance : ℕ → ℕ → ℤ → ℤ → Option ℤ
advance zero now every base = none
advance (suc fuel) now every base =
    let rest = advance fuel now every (wrap64 (base +ℤ every)) in
    if leb_ℤ base (pos now) then rest else some base

-- A positive step needs at most one round for each millisecond up to now.
abbrev pub advance_fuel : ℕ → ℤ → ℕ
advance_fuel now base = suc (suc (pos_part (pos now -ℤ base)))

unfoldable pub next_every : ℕ → Job → Option ℤ
next_every now job =
    let s = job.schedule in
    if leb_ℤ s.every_ms (pos 0)
    then some (pos 0)
    else let base = staggered job (every_base now s.anchor_ms s.every_ms) in
      advance (advance_fuel now base) now s.every_ms base

abbrev pub not_past : ℕ → ℤ → Option ℤ
not_past now base = if leb_ℤ base (pos now) then some (pos 0) else some base

abbrev pub stagger_at : ℕ → Job → Option ℤ → Option ℤ
stagger_at now job none = some (pos 0)
stagger_at now job (some t) = not_past now (staggered job t)

unfoldable pub next_at : TimeData → ℕ → Job → Option ℤ
next_at t now job =
    if job.schedule.at == "" then some (pos 0) else stagger_at now job (parse_at t job.schedule.at)

-- `none`: the calculation does not return (within the fuel given to the search for a month).
unfoldable pub calculate_next_run : TimeData → ℕ → ℕ → Job → Option ℤ
calculate_next_run t fuel now job =
    let s = job.schedule in
    if s.kind == schedule_kind_at
    then next_at t now job
    else if s.kind == schedule_kind_every
    then next_every now job
    else if s.kind == schedule_kind_cron
    then parse_cron_expression (location t s) fuel (codes s.expr) now
    else some (pos 0)
