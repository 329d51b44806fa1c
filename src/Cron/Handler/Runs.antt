-- ===== src/Cron/Handler/Runs.antt =====
-- When a job may be run, and what a run leaves behind.
use ocg.Base.{
  ◌≡◌, ◌≢◌, refl, sym, ap, ◌∙◌, subst, ◌⊎◌, inl, inr, Bool, true, false, List, Option, none, some,
  String, ◌==◌, string_eq, arith, Bool-cases, if◌then◌else◌, if_true, if_false,
}
use ocg.Base.Map.{lookup, insert, values, lookup-insert_self, lookup-insert_ne}
use ocg.Cron.{Job}
use ocg.Cron.Store.{
  JobStore, save, get_job, write_file_atomic, StoreError, Result, ok, err, not_found, is_running,
  new_job_store,
}
use ocg.Cron.Store.Keyed.{Keyed, insert_at-Keyed, reload}
use ocg.Cron.Handler.{run_job, run_found, set_running}

-- A job with its last status overwritten.
abbrev pub as_running : Job → Job
as_running job = record job {
  state = record {
    next_run_at_ms = job.state.next_run_at_ms;
    last_run_at_ms = job.state.last_run_at_ms;
    last_status = "running";
    last_duration_ms = job.state.last_duration_ms;
    consecutive_errors = job.state.consecutive_errors;
  };
}

-- The three answers to a request to run a job at once.
abbrev pub Answered : Bool → String → JobStore → Result (Job × JobStore) → Type 0
Answered w id js r =
    ((lookup id js.jobs ≡ none) × (r ≡ err (not_found id)))
    ⊎ ((job : Job) × (lookup id js.jobs ≡ some job)
        × (job.state.last_status ≡ "running")
        × (r ≡ err (is_running id)))
    ⊎ ((job : Job) × (js' : JobStore) × (lookup id js.jobs ≡ some job)
        × (job.state.last_status ≢ "running")
        × (r ≡ ok (as_running job, js'))
        × (lookup id js'.jobs ≡ some (as_running job))
        × ((other : String) → other ≢ id → lookup other js'.jobs ≡ lookup other js.jobs)
        × (js'.runs ≡ js.runs)
        × (js'.files.runs_file ≡ js.files.runs_file)
        × (js'.files.jobs_file ≡ (if w then some (values js'.jobs) else js.files.jobs_file)))

-- A request to run a job is refused when there is none under that id and when it is running. Else the
-- answer is the job with the last status "running" and nothing else changed, the store has that job
-- under the id, every other job and all histories as before, and the file of jobs holds the store's
-- jobs if the write works and is as before if not.
pub run_job_branches : (w : Bool) (id : String) (js : JobStore) → Answered w id js (run_job w id js)
unfolding run_job save write_file_atomic
run_job_branches w id js = go (lookup id js.jobs) refl
  where
    not_running :
        (job : Job)
        → (job.state.last_status == "running") ≡ false
        → job.state.last_status ≢ "running"
    not_running job f e = ground (arith, string_eq.test_iff job.state.last_status "running")

    written :
        (b : Bool) (jobs : List Job) (old : Option (List Job))
        → write_file_atomic b jobs old ≡ (if b then some jobs else old)
    written true jobs old = refl
    written false jobs old = refl

    go : (o : Option Job) → lookup id js.jobs ≡ o → Answered w id js (run_found w id js o)
    go none p = inl (p, refl)
    go (some job) p = elim (Bool-cases (job.state.last_status == "running")) [
      | inl busy ↦ inr (inl (job, p, (string_eq.test_iff _ _).0 busy, if_true _ _ busy))
      | inr free ↦ inr (
          inr (
            job,
            _,
            p,
            not_running job free,
            if_false _ _ free,
            lookup-insert_self id _ js.jobs,
            λ other ne. lookup-insert_ne id other _ js.jobs (λ e. ne (sym e)),
            refl,
            refl,
            written w _ js.files.jobs_file,
          ))
    ]

-- Where each job stands under its id and the save of `RunJob` was written, a process that ends while
-- that job runs leaves it as running in the file: a new store over the files refuses it, as running.
pub run_job-stuck :
    (w : Bool) (id : String) (js js' : JobStore) (job : Job)
    → Keyed js.jobs
    → run_job true id js ≡ ok (job, js')
    → run_job w id (new_job_store js'.files) ≡ err (is_running id)
unfolding run_job get_job
run_job-stuck w id js js' job keyed e = go (lookup id js.jobs) refl e
  where
    differ : {a : Type 0} {s : StoreError} {x : Job × JobStore} → err s ≡ ok x → a
    differ q = cc

    store_is : {a b : Job × JobStore} → ok a ≡ ok b → a.1 ≡ b.1
    store_is q = cc

    refused :
        (s : JobStore) (j : Job)
        → lookup id s.jobs ≡ some j
        → j.state.last_status ≡ "running"
        → run_found w id s (lookup id s.jobs) ≡ err (is_running id)
    refused s j found is = ap (run_found w id s) found ∙ if_true _ _ ((string_eq.test_iff _ _).1 is)

    go :
        (o : Option Job)
        → lookup id js.jobs ≡ o
        → run_found true id js o ≡ ok (job, js')
        → run_job w id (new_job_store js'.files) ≡ err (is_running id)
    go none p q = cc
    go (some old) p q = elim (Bool-cases (old.state.last_status == "running")) [
      | inl busy ↦ differ (sym (if_true _ _ busy) ∙ q)
      | inr free ↦
          let now = set_running old in
          let marked : JobStore = record js { jobs = insert id now js.jobs } in
          subst (λ (s : JobStore). run_job w id (new_job_store s.files) ≡ err (is_running id))
            (store_is (sym (if_false _ _ free) ∙ q))
            (refused (new_job_store (save true marked).files) now
              (reload marked id (insert_at-Keyed id old now js.jobs p refl keyed)
                ∙ lookup-insert_self id now js.jobs)
              refl)
    ]
