-- ===== src/Cron/Handler/Tests.antt =====
-- Stored jobs and their runs at concrete inputs.
use ocg.Base.{
  ◌≤◌, ◌≡◌, refl, true, false, List, [], ◌∷◌, ◌++◌, none, some, String, length, string_eq, arith,
}
use ocg.Base.Int.{pos, ◌-ℤ◌}
use ocg.Base.Map.{lookup, insert}
use ocg.Cron.{Job, Delivery, RunHistoryEntry}
use ocg.Cron.Next.{TimeData, next_at, parse_at, staggered, calculate_next_run}
use ocg.Cron.Expression.{Calendar}
use ocg.Cron.Store.{
  JobStore, save, new_job_store, max_runs, last_of, is_due, ok, err, is_running, write_file_atomic,
}
use ocg.Cron.Store.Keyed.{Keyed}
use ocg.Cron.Store.Runs.{add_all, history, history-add_all}
use ocg.Cron.Execute.{Callbacks, Outcome, finish_run, run_entry}
use ocg.Cron.Execute.Outcomes.{Agrees, finish_run-Agrees, finish_run-retires}
use ocg.Cron.Handler.{CronHandler, run_job, set_running}
use ocg.Cron.Handler.Runs.{Answered, run_job_branches, run_job-stuck}

abbrev fixed_calendar : Calendar
fixed_calendar = record {
  civil = λ t. record {
    year = pos 2024;
    month = pos 1;
    day = pos 1;
    hour = pos 0;
    minute = pos 0;
    second = pos 0;
    weekday = pos 1;
  };
  date = λ y m d h mi s. pos 0;
}

abbrev clock : TimeData
clock = record {
  local = fixed_calendar;
  load_location = λ name. none;
  parse_rfc3339 = λ text. some (pos 43200);
  parse_datetime = λ text. none;
}

abbrev reminder : Job
reminder = record {
  id = "job-1";
  name = "reminder";
  description = "";
  agent_id = "";
  enabled = true;
  schedule = record {
    kind = "at";
    at = "noon";
    every_ms = pos 0;
    expr = "";
    tz = "";
    stagger_ms = pos 0;
    anchor_ms = pos 0;
  };
  session_target = "main";
  wake_mode = "now";
  payload = record {
    kind = "systemEvent";
    text = "hi";
    message = "";
    model = "";
    thinking = "";
    timeout_seconds = pos 0;
  };
  delivery = none;
  delete_after_run = true;
  created_at = 0;
  updated_at = 0;
  state = record {
    next_run_at_ms = pos 43200;
    last_run_at_ms = pos 0;
    last_status = "";
    last_duration_ms = pos 0;
    consecutive_errors = 2;
  };
}

abbrev empty_store : JobStore
empty_store = record { jobs = []; runs = []; files = record { jobs_file = none; runs_file = none } }

abbrev one_job : JobStore
one_job = record empty_store { jobs = ("job-1", reminder) ∷ [] }

one_job_Keyed : Keyed one_job.jobs
unfolding lookup
one_job_Keyed = (refl, refl, tt)

abbrev run_of : String → RunHistoryEntry
run_of status = record {
  job_id = "job-1";
  job_name = "reminder";
  started_at_ms = pos 5;
  ended_at_ms = pos 6;
  status = status;
  duration_ms = pos 1;
  error = "";
  result = "";
}

abbrev two_runs : List RunHistoryEntry
two_runs = run_of "ok" ∷ run_of "error" ∷ []

no_history : length (history empty_store "job-1") ≤ max_runs
unfolding lookup
no_history = omega arith

history-add_all_example :
    history (add_all true empty_store "job-1" two_runs) "job-1"
    ≡ last_of max_runs (history empty_store "job-1" ++ two_runs)
history-add_all_example = history-add_all true two_runs empty_store "job-1" no_history

abbrev with_runs : JobStore
with_runs = record empty_store { runs = ("job-1", two_runs) ∷ [] }

abbrev failed : Outcome
failed = record { error = some "timeout"; result = ""; calls = [] }

abbrev after_failure : Job
after_failure = record reminder {
  enabled = false;
  state = record reminder.state {
    next_run_at_ms = pos 0;
    last_status = "error";
    last_duration_ms = pos 50000;
    consecutive_errors = 3;
  };
}

failure_ends : finish_run clock 0 (pos 0) 50000 failed reminder ≡ some after_failure
unfolding finish_run calculate_next_run next_at parse_at staggered ◌-ℤ◌
failure_ends = refl

finish_run-Agrees_example :
    Agrees failed reminder after_failure (run_entry (pos 0) 50000 failed after_failure)
finish_run-Agrees_example =
    finish_run-Agrees clock 0 (pos 0) 50000 failed reminder after_failure failure_ends

finish_run-retires_example : is_due 60000 after_failure ≡ false
finish_run-retires_example =
    finish_run-retires clock 0 (pos 0) 50000 failed reminder after_failure failure_ends refl refl
      60000

abbrev broken_webhook : Callbacks
broken_webhook = record {
  on_system_event = true;
  on_agent_turn = none;
  on_broadcast = none;
  on_webhook = some (λ url text. some "502");
  on_wake = false;
}

abbrev to_webhook : Delivery
to_webhook = record {
  mode = "webhook";
  channel = "";
  to = "http://a";
  best_effort = true;
  webhook = "";
}

abbrev answered : Outcome
answered = record { error = none; result = "done"; calls = [] }

run_job_branches_example : Answered true "job-1" one_job (run_job true "job-1" one_job)
run_job_branches_example = run_job_branches true "job-1" one_job

abbrev marked_store : JobStore
marked_store = record one_job {
  jobs = ("job-1", set_running reminder) ∷ [];
  files = record { jobs_file = some (set_running reminder ∷ []); runs_file = none };
}

asked : run_job true "job-1" one_job ≡ ok (set_running reminder, marked_store)
unfolding run_job lookup insert save write_file_atomic
asked = refl

run_job-stuck_example :
    run_job true "job-1" (new_job_store marked_store.files) ≡ err (is_running "job-1")
run_job-stuck_example =
    run_job-stuck true "job-1" one_job marked_store (set_running reminder) one_job_Keyed asked

abbrev idle_handler : CronHandler
idle_handler = record { store = one_job; running = true }
