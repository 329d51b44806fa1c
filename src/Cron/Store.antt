-- ===== src/Cron/Store.antt =====
-- cron/cron.go: `JobStore`, its jobs, run histories and files. A job is reached by its id only: the
-- source keeps one pointer for each id and never replaces it. Whether the file system takes a write
-- is an argument; a file that is written holds what was marshalled. That encoding/json gives back every
-- field of what it has written is relied on, and its failures are left out.
pub mod Keyed
pub mod Runs
use ocg.Base.{
  ℕ, suc, ◌+◌, ◌-◌, ◌≡◌, Bool, true, false, not, ◌&&◌, ◌||◌, List, [], ◌∷◌, ◌++◌, Option, none,
  some, String, if◌then◌else◌, leb, ltb, length, drop, keep, ◌==◌, string_eq,
}
use ocg.Base.Int.{ℤ, pos, leb_ℤ, ltb_ℤ, pos_part}
use ocg.Base.Map.{Map, values, lookup, insert, delete}
use ocg.Base.Json.{Json, Fields, get, as_string, as_bool, as_num, as_map, or_keep}
use ocg.Cron.{Job, Schedule, Payload, RunHistoryEntry}

-- The two files; `none` is a file that is absent or cannot be read or parsed.
pub record Files : Type 0 where
  pub jobs_file : Option (List Job)
  pub runs_file : Option (Map String (List RunHistoryEntry))

pub record JobStore : Type 0 where
  pub jobs : Map String Job
  pub runs : Map String (List RunHistoryEntry)
  pub files : Files

abbrev pub load_jobs : List Job → Map String Job → Map String Job
load_jobs [] m = m
load_jobs (job ∷ js) m = load_jobs js (insert job.id job m)

-- `load`.
unfoldable pub load : Option (List Job) → Map String Job → Map String Job
load none m = m
load (some js) m = load_jobs js m

-- `loadRuns`.
unfoldable pub load_runs :
    Option (Map String (List RunHistoryEntry))
    → Map String (List RunHistoryEntry)
    → Map String (List RunHistoryEntry)
load_runs none m = m
load_runs (some r) m = r

unfoldable pub new_job_store : Files → JobStore
unfolding load load_runs
new_job_store files = record {
  jobs = load files.jobs_file [];
  runs = load_runs files.runs_file [];
  files = files;
}

-- `writeFileAtomic` renames a finished temporary file, so a failed write leaves the file as it was.
unfoldable pub write_file_atomic {ℓ} : {A : Type ℓ} → Bool → A → Option A → Option A
write_file_atomic true data' old = some data'
write_file_atomic false data' old = old

unfoldable pub save : Bool → JobStore → JobStore
unfolding write_file_atomic
save ok js =
    let f = js.files in
    record js { files = record f { jobs_file = write_file_atomic ok (values js.jobs) f.jobs_file } }

unfoldable pub save_runs : Bool → JobStore → JobStore
unfolding write_file_atomic
save_runs ok js =
    let f = js.files in
    record js { files = record f { runs_file = write_file_atomic ok js.runs f.runs_file } }

unfoldable pub add : Bool → JobStore → Job → JobStore
unfolding save
add ok js job = save ok (record js { jobs = insert job.id job js.jobs })

unfoldable pub get_job : JobStore → String → Option Job
get_job js id = lookup id js.jobs

unfoldable pub list : JobStore → List Job
list js = values js.jobs

pub data StoreError : Type 0 where
  not_found : String → StoreError
  is_running : String → StoreError

-- A result with the error of the Go function.
pub data Result {ℓ} (A : Type ℓ) : Type ℓ where
  ok : A → Result A
  err : StoreError → Result A

abbrev pub remove_found : Bool → JobStore → String → Option Job → Result JobStore
remove_found w js id none = err (not_found id)
remove_found w js id (some job) = ok (save w (record js { jobs = delete id js.jobs }))

unfoldable pub remove : Bool → JobStore → String → Result JobStore
unfolding save
remove w js id = remove_found w js id (lookup id js.jobs)

abbrev pub max_runs : ℕ
max_runs = 100

-- `s[len(s)-n:]` for a list of at least n elements.
abbrev pub last_of : {A : Type 0} → ℕ → List A → List A
last_of n xs = drop (length xs - n) xs

abbrev pub or_nil : {A : Type 0} → Option (List A) → List A
or_nil none = []
or_nil (some xs) = xs

-- "Keep only last 100 runs per job".
unfoldable pub capped : List RunHistoryEntry → List RunHistoryEntry
capped xs = if ltb max_runs (length xs) then last_of max_runs xs else xs

unfoldable pub add_run : Bool → JobStore → String → RunHistoryEntry → JobStore
unfolding save_runs
add_run w js id entry =
    save_runs w
      (record js { runs = insert id (capped (or_nil (lookup id js.runs) ++ entry ∷ [])) js.runs })

-- The limit is an int, and 0 or less means all.
unfoldable pub get_runs : JobStore → String → ℤ → List RunHistoryEntry
get_runs js id limit =
    let runs = or_nil (lookup id js.runs) in
    if leb_ℤ limit (pos 0) || ltb_ℤ (pos (length runs)) limit
    then last_of (length runs) runs
    else last_of (pos_part limit) runs

unfoldable pub is_due : ℕ → Job → Bool
is_due now job =
    job.enabled
    && ltb_ℤ (pos 0) job.state.next_run_at_ms
    && leb_ℤ job.state.next_run_at_ms (pos now)

unfoldable pub get_due_jobs : JobStore → ℕ → List Job
get_due_jobs js now = keep (is_due now) (values js.jobs)

-- The number type of the decoded updates, with Go's conversion of a float64 to int64.
module _ {F : Type 0} (int64 : F → ℤ) where
  abbrev pub or_int64 : ℤ → Option F → ℤ
  or_int64 old none = old
  or_int64 old (some x) = int64 x

  abbrev pub update_schedule : Schedule → Option (Fields F) → Schedule
  update_schedule s none = s
  update_schedule s (some v) = record s {
    kind = or_keep s.kind (as_string (get "kind" v));
    at = or_keep s.at (as_string (get "at" v));
    every_ms = or_int64 s.every_ms (as_num (get "everyMs" v));
    expr = or_keep s.expr (as_string (get "expr" v));
    tz = or_keep s.tz (as_string (get "tz" v));
  }

  abbrev pub update_payload : Payload → Option (Fields F) → Payload
  update_payload p none = p
  update_payload p (some v) = record p {
    kind = or_keep p.kind (as_string (get "kind" v));
    text = or_keep p.text (as_string (get "text" v));
    message = or_keep p.message (as_string (get "message" v));
    model = or_keep p.model (as_string (get "model" v));
    thinking = or_keep p.thinking (as_string (get "thinking" v));
  }

  unfoldable pub updated : Fields F → ℕ → Job → Job
  updated u now job = record job {
    name = or_keep job.name (as_string (get "name" u));
    description = or_keep job.description (as_string (get "description" u));
    enabled = or_keep job.enabled (as_bool (get "enabled" u));
    schedule = update_schedule job.schedule (as_map (get "schedule" u));
    payload = update_payload job.payload (as_map (get "payload" u));
    updated_at = now;
  }

  abbrev pub update_found :
      Bool → JobStore → String → Fields F → ℕ → Option Job → Result (Job × JobStore)
  update_found w js id u now none = err (not_found id)
  update_found w js id u now (some job) =
      let job' = updated u now job in
      ok (job', save w (record js { jobs = insert id job' js.jobs }))

  unfoldable pub update : Bool → JobStore → String → Fields F → ℕ → Result (Job × JobStore)
  unfolding save updated
  update w js id u now = update_found w js id u now (lookup id js.jobs)
