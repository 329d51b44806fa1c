-- ===== src/Cron/Handler.antt =====
-- cron/cron.go: `CronHandler`. A calculation of a next run that does not return is `none`: what waits
-- for it waits for ever. The clock, the fresh ids and the success of each write are arguments.
pub mod Runs
pub mod Report
mod Tests
use ocg.Base.{
  ℕ, suc, ◌+◌, ◌≡◌, Bool, true, false, not, ◌&&◌, List, [], ◌∷◌, Option, none, some, String,
  if◌then◌else◌, keep, ◌>>=◌, length, ◌==◌, string_eq,
}
use ocg.Base.Int.{ℤ, pos}
use ocg.Base.Map.{Map, values, lookup, insert}
use ocg.Base.Json.{Fields}
use ocg.Cron.{Job}
use ocg.Cron.Next.{TimeData, calculate_next_run}
use ocg.Cron.Store.{
  JobStore, save, add, list, get_due_jobs, add_run, is_due, update, Result, ok, err, not_found,
  is_running, Files, new_job_store,
}
use ocg.Cron.Execute.{Callbacks, Call, Outcome, begin_run, run_payload, finish_run, run_entry}

pub record CronHandler : Type 0 where
  pub store : JobStore
  pub running : Bool

unfoldable pub new_cron_handler : Files → CronHandler
unfolding new_job_store
new_cron_handler files = record { store = new_job_store files; running = false }

abbrev pub set_next : Job → ℤ → Job
set_next job next = record job { state = record job.state { next_run_at_ms = next } }

-- The loop of `Start` over the jobs.
abbrev pub recalculate : (Job → Option ℤ) → Map String Job → Option (Map String Job)
recalculate next [] = some []
recalculate next ((id, job) ∷ m) = do
  n ← next job
  rest ← recalculate next m
  some ((id, set_next job n) ∷ rest)

abbrev pub started_with : Bool → CronHandler → Option (Map String Job) → Option CronHandler
started_with w c none = none
started_with w c (some jobs) =
    some (record { store = save w (record c.store { jobs = jobs }); running = true })

unfoldable pub start : TimeData → ℕ → ℕ → Bool → CronHandler → Option CronHandler
unfolding save
start t fuel now w c =
    if c.running
    then some c
    else started_with w c (recalculate (calculate_next_run t fuel now) c.store.jobs)

unfoldable pub stop : CronHandler → CronHandler
stop c = record c { running = false }

-- The jobs that one tick starts, each in a goroutine of its own.
unfoldable pub tick_jobs : ℕ → JobStore → List Job
unfolding get_due_jobs
tick_jobs now js = keep (λ job. not (job.state.last_status == "running")) (get_due_jobs js now)

-- A change through the pointer to a job: the store shows it while the job is in the store.
abbrev pub put_found : Job → JobStore → Option Job → JobStore
put_found job js none = js
put_found job js (some old) = record js { jobs = insert job.id job js.jobs }

unfoldable pub put : Job → JobStore → JobStore
unfolding lookup
put job js = put_found job js (lookup job.id js.jobs)

abbrev pub record_run : Bool → Bool → ℤ → ℕ → Outcome → JobStore → Option Job → Option JobStore
record_run w w' started now o js none = none
record_run w w' started now o js (some job) =
    some (add_run w' (save w (put job js)) job.id (run_entry started now o job))

-- `executeJob` from begin to end, with nothing else at work on the job in between.
unfoldable pub execute_job :
    TimeData → ℕ → Callbacks → ℕ → ℕ → Bool → Bool → Job → JobStore → Option JobStore
unfolding begin_run finish_run put
execute_job t fuel c started now w w' job js =
    let begun = begin_run (pos started) job in
    let o = run_payload c begun in
    record_run w w' (pos started) now o (put begun js) (finish_run t fuel (pos started) now o begun)

abbrev pub add_with : Bool → Job → JobStore → Option ℤ → Option JobStore
add_with w job js none = none
add_with w job js (some next) = some (add w js (set_next job next))

-- `id` is what `generateJobID` gives.
unfoldable pub add_job : TimeData → ℕ → ℕ → String → Bool → Job → JobStore → Option JobStore
unfolding add
add_job t fuel now id w job js =
    let job' = record job { id = id; created_at = now; updated_at = now } in
    add_with w job' js (calculate_next_run t fuel now job')

module _ {F : Type 0} (int64 : F → ℤ) where
  abbrev pub update_next : Bool → Job → JobStore → Option ℤ → Option (Result (Job × JobStore))
  update_next w job js none = none
  update_next w job js (some next) =
      let job' = set_next job next in some (ok (job', save w (put job' js)))

  abbrev pub after_update :
      TimeData → ℕ → ℕ → Bool → Result (Job × JobStore) → Option (Result (Job × JobStore))
  after_update t fuel now w (err e) = some (err e)
  after_update t fuel now w (ok (job, js)) =
      update_next w job js (calculate_next_run t fuel now job)

  unfoldable pub update_job :
      TimeData
      → ℕ
      → ℕ
      → Bool
      → Bool
      → String
      → Fields F
      → JobStore
      → Option (Result (Job × JobStore))
  unfolding update put
  update_job t fuel now w w' id u js = after_update t fuel now w' (update int64 w js id u now)

abbrev pub set_running : Job → Job
set_running job = record job { state = record job.state { last_status = "running" } }

-- `RunJob` up to the start of the goroutine, which then runs `execute_job` on the job of the answer.
abbrev pub run_found : Bool → String → JobStore → Option Job → Result (Job × JobStore)
run_found w id js none = err (not_found id)
run_found w id js (some job) =
    let job' = set_running job in
    if job.state.last_status == "running"
    then err (is_running id)
    else ok (job', save w (record js { jobs = insert id job' js.jobs }))

unfoldable pub run_job : Bool → String → JobStore → Result (Job × JobStore)
unfolding save lookup
run_job w id js = run_found w id js (lookup id js.jobs)

pub record Status : Type 0 where
  pub running : Bool
  pub total_jobs : ℕ
  pub enabled : ℕ
  pub disabled : ℕ
  pub due_now : ℕ

abbrev pub count : (Job → Bool) → List Job → ℕ
count p [] = 0
count p (job ∷ js) = if p job then suc (count p js) else count p js

-- Without the time of the next check. The clock is read once here, once for each job in the source.
unfoldable pub get_status : ℕ → CronHandler → Status
unfolding list
get_status now c = record {
  running = c.running;
  total_jobs = length (list c.store);
  enabled = count (λ job. job.enabled) (list c.store);
  disabled = count (λ job. not job.enabled) (list c.store);
  due_now = count (is_due now) (list c.store);
}
