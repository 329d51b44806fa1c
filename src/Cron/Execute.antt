-- ===== src/Cron/Execute.antt =====
-- cron/cron.go: `executeJob`, in the four parts that its locks make of it: the mark, the run with its
-- callbacks, the update of the state, and the entry of the run, for which the job is read again after
-- its lock is released and the jobs are saved. One reading of the clock ends a run; the message for an
-- unknown kind of payload is without the kind.
pub mod Outcomes
use ocg.Base.{
  ℕ, suc, ◌≡◌, Bool, true, false, not, ◌&&◌, ◌||◌, List, [], ◌∷◌, ◌++◌, Option, none, some, String,
  if◌then◌else◌, ◌==◌, string_eq,
}
use ocg.Base.Int.{ℤ, pos, ◌-ℤ◌}
use ocg.Cron.{
  Job, Delivery, RunHistoryEntry, schedule_kind_at, wake_mode_next_heartbeat,
  payload_kind_system_event, payload_kind_agent_turn, delivery_mode_announce,
}
use ocg.Cron.Next.{TimeData, calculate_next_run}

-- The callbacks of `CronHandler` are code of its users: parameters, each of which can be nil. An
-- error is its message. The answers of the wake and system event callbacks are not read.
pub record Callbacks : Type 0 where
  pub on_system_event : Bool
  pub on_agent_turn : Option (String → String → String → String × Option String)
  pub on_broadcast : Option (String → String → String → Option String)
  pub on_webhook : Option (String → String → Option String)
  pub on_wake : Bool

-- The calls a run makes, in order.
pub data Call : Type 0 where
  wake : Call
  system_event : String → Call
  agent_turn : String → String → String → Call
  broadcast : String → String → String → Call
  webhook : String → String → Call

pub record Outcome : Type 0 where
  pub error : Option String
  pub result : String
  pub calls : List Call

-- The mark, under the lock of the job.
unfoldable pub begin_run : ℤ → Job → Job
begin_run started job = record job {
  state = record job.state { last_run_at_ms = started; last_status = "running" };
}

unfoldable pub wake_calls : Callbacks → Job → List Call
wake_calls c job =
    if (job.wake_mode == wake_mode_next_heartbeat) && c.on_wake then wake ∷ [] else []

-- Is this the announcement of a text?
abbrev pub announces : Delivery → String → Bool
announces d text = (d.mode == delivery_mode_announce) && not (text == "")

abbrev pub announce_event : Bool → Option Delivery → String → List Call
announce_event has_broadcast none text = []
announce_event has_broadcast (some d) text =
    if announces d text && has_broadcast then broadcast text d.channel d.to ∷ [] else []

abbrev pub is_set : {A : Type 0} → Option A → Bool
is_set none = false
is_set (some f) = true

-- The case of a system event; a broadcast that fails does not count.
unfoldable pub run_system_event : Callbacks → Job → Outcome
run_system_event c job =
    let text = job.payload.text in
    let said = announce_event (is_set c.on_broadcast) job.delivery text in
    if c.on_system_event
    then record { error = none; result = ""; calls = system_event text ∷ said }
    else record { error = some "no callback configured"; result = ""; calls = said }

-- `if deliverErr != nil && !job.Delivery.BestEffort { err = deliverErr }`.
abbrev pub keep_error : Delivery → Option String → Option String → Option String
keep_error d err none = err
keep_error d err (some e) = if d.best_effort then err else some e

abbrev pub deliver_broadcast :
    Option (String → String → String → Option String) → Delivery → Outcome → Outcome
deliver_broadcast none d o = o
deliver_broadcast (some cb) d o = record {
  error = keep_error d o.error (cb o.result d.channel d.to);
  result = o.result;
  calls = o.calls ++ broadcast o.result d.channel d.to ∷ [];
}

abbrev pub webhook_url : Delivery → String
webhook_url d = if d.webhook == "" then d.to else d.webhook

abbrev pub deliver_webhook : Option (String → String → Option String) → Delivery → Outcome → Outcome
deliver_webhook none d o = o
deliver_webhook (some cb) d o = if webhook_url d == "" then o else record {
  error = keep_error d o.error (cb (webhook_url d) o.result);
  result = o.result;
  calls = o.calls ++ webhook (webhook_url d) o.result ∷ [];
}

unfoldable pub deliver : Callbacks → Option Delivery → Outcome → Outcome
deliver c none o = o
deliver c (some d) o =
    if o.result == ""
    then o
    else if d.mode == delivery_mode_announce
    then deliver_broadcast c.on_broadcast d o
    else if d.mode == "webhook"
    then deliver_webhook c.on_webhook d o
    else o

abbrev pub agent_outcome :
    Option (String → String → String → String × Option String) → String → String → String → Outcome
agent_outcome none message model thinking = record {
  error = some "no callback configured";
  result = "";
  calls = [];
}
agent_outcome (some cb) message model thinking = record {
  error = (cb message model thinking).1;
  result = (cb message model thinking).0;
  calls = agent_turn message model thinking ∷ [];
}

unfoldable pub run_agent_turn : Callbacks → Job → Outcome
unfolding deliver
run_agent_turn c job =
    let p = job.payload in
    deliver c job.delivery (agent_outcome c.on_agent_turn p.message p.model p.thinking)

-- The wake and the switch on the payload's kind.
unfoldable pub run_payload : Callbacks → Job → Outcome
unfolding wake_calls run_system_event run_agent_turn
run_payload c job =
    let kind = job.payload.kind in
    let o : Outcome =
      if kind == payload_kind_system_event
      then run_system_event c job
      else if kind == payload_kind_agent_turn
      then run_agent_turn c job
      else record { error = some "unknown payload kind"; result = ""; calls = [] } in
    record { error = o.error; result = o.result; calls = wake_calls c job ++ o.calls }

abbrev pub settle : Option String → ℤ → Job → Job
settle none duration job = record job {
  state = record job.state {
    last_duration_ms = duration;
    last_status = "ok";
    consecutive_errors = 0;
  };
}
settle (some e) duration job = record job {
  state = record job.state {
    last_duration_ms = duration;
    last_status = "error";
    consecutive_errors = suc job.state.consecutive_errors;
  };
}

-- "Handle one-shot jobs".
abbrev pub retire : Job → Job
retire job =
    let status = job.state.last_status in
    record job {
      enabled =
          if (job.schedule.kind == schedule_kind_at)
            && job.delete_after_run
            && ((status == "ok") || (status == "error"))
          then false
          else job.enabled;
    }

abbrev pub with_next : Job → Option ℤ → Option Job
with_next job none = none
with_next job (some next) =
    some (retire (record job { state = record job.state { next_run_at_ms = next } }))

-- The update under the lock; `none` where the calculation of the next run does not return.
unfoldable pub finish_run : TimeData → ℕ → ℤ → ℕ → Outcome → Job → Option Job
finish_run t fuel started now o job =
    let settled = settle o.error (pos now -ℤ started) job in
    with_next settled (calculate_next_run t fuel now settled)

abbrev pub or_empty : Option String → String
or_empty none = ""
or_empty (some e) = e

-- `job` is the job as it stands when the entry is made; another request may have changed it since the
-- update.
unfoldable pub run_entry : ℤ → ℕ → Outcome → Job → RunHistoryEntry
run_entry started now o job = record {
  job_id = job.id;
  job_name = job.name;
  started_at_ms = started;
  ended_at_ms = pos now;
  status = job.state.last_status;
  duration_ms = pos now -ℤ started;
  error = or_empty o.error;
  result = o.result;
}
