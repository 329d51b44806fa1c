-- ===== src/Cron/Create.antt =====
-- cron/cron.go: `CreateJobFromMap`, from what encoding/json decodes of a request. Go's conversions of a
-- float64 to int64 and to int are one parameter: both are 64 bits wide.
pub mod Reads
pub mod Valid
use ocg.Base.{
  ℕ, ◌≡◌, Bool, true, false, not, ◌&&◌, Option, none, some, String, if◌then◌else◌, ◌==◌, string_eq,
}
use ocg.Base.Int.{ℤ, pos}
use ocg.Base.Json.{Json, Fields, get, as_string, as_bool, as_num, as_map, or_keep}
use ocg.Cron.{
  Job, Schedule, Payload, Delivery, schedule_kind_at, session_target_main, session_target_isolated,
  wake_mode_now, payload_kind_system_event, payload_kind_agent_turn,
}
use ocg.Cron.Store.{or_int64}

pub data CreateError : Type 0 where
  name_required : CreateError
  kind_required : CreateError

pub data Created : Type 0 where
  created : Job → Created
  refused : CreateError → Created

abbrev pub empty_schedule : Schedule
empty_schedule = record {
  kind = "";
  at = "";
  every_ms = pos 0;
  expr = "";
  tz = "";
  stagger_ms = pos 0;
  anchor_ms = pos 0;
}

abbrev pub empty_payload : Payload
empty_payload = record {
  kind = "";
  text = "";
  message = "";
  model = "";
  thinking = "";
  timeout_seconds = pos 0;
}

-- "if session target is ..., the kind of the payload is ...".
abbrev pub fix_kind : String → String → String
fix_kind target kind =
    if target == session_target_main
    then payload_kind_system_event
    else if target == session_target_isolated
    then payload_kind_agent_turn
    else kind

-- The checks at the end.
abbrev pub validate : Job → Created
validate job =
    if job.name == ""
    then refused name_required
    else if job.schedule.kind == ""
    then refused kind_required
    else created (record job {
      payload = record job.payload { kind = fix_kind job.session_target job.payload.kind };
    })

module _ {F : Type 0} (int64 : F → ℤ) where
  abbrev pub create_schedule : Option (Fields F) → Schedule
  create_schedule none = empty_schedule
  create_schedule (some v) = record {
    kind = or_keep "" (as_string (get "kind" v));
    at = or_keep "" (as_string (get "at" v));
    every_ms = or_int64 int64 (pos 0) (as_num (get "everyMs" v));
    expr = or_keep "" (as_string (get "expr" v));
    tz = or_keep "" (as_string (get "tz" v));
    stagger_ms = or_int64 int64 (pos 0) (as_num (get "staggerMs" v));
    anchor_ms = or_int64 int64 (pos 0) (as_num (get "anchorMs" v));
  }

  abbrev pub create_payload : Option (Fields F) → Payload
  create_payload none = empty_payload
  create_payload (some v) = record {
    kind = or_keep "" (as_string (get "kind" v));
    text = or_keep "" (as_string (get "text" v));
    message = or_keep "" (as_string (get "message" v));
    model = or_keep "" (as_string (get "model" v));
    thinking = or_keep "" (as_string (get "thinking" v));
    timeout_seconds = or_int64 int64 (pos 0) (as_num (get "timeoutSeconds" v));
  }

  abbrev pub create_delivery : Option (Fields F) → Option Delivery
  create_delivery none = none
  create_delivery (some v) = some (record {
    mode = or_keep "" (as_string (get "mode" v));
    channel = or_keep "" (as_string (get "channel" v));
    to = or_keep "" (as_string (get "to" v));
    best_effort = or_keep false (as_bool (get "bestEffort" v));
    webhook = or_keep "" (as_string (get "webhook" v));
  })

  -- The job before the checks; its id, its times and its state are Go's zero values.
  abbrev pub job_from_map : Fields F → Job
  job_from_map data' =
      let schedule = create_schedule (as_map (get "schedule" data')) in
      record {
        id = "";
        name = or_keep "" (as_string (get "name" data'));
        description = or_keep "" (as_string (get "description" data'));
        agent_id = or_keep "" (as_string (get "agentId" data'));
        enabled = true;
        schedule = schedule;
        session_target = or_keep session_target_main (as_string (get "sessionTarget" data'));
        wake_mode = or_keep wake_mode_now (as_string (get "wakeMode" data'));
        payload = create_payload (as_map (get "payload" data'));
        delivery = create_delivery (as_map (get "delivery" data'));
        delete_after_run =
            or_keep (schedule.kind == schedule_kind_at) (as_bool (get "deleteAfterRun" data'));
        created_at = 0;
        updated_at = 0;
        state = record {
          next_run_at_ms = pos 0;
          last_run_at_ms = pos 0;
          last_status = "";
          last_duration_ms = pos 0;
          consecutive_errors = 0;
        };
      }

  unfoldable pub create_job_from_map : Fields F → Created
  create_job_from_map data' = validate (job_from_map data')
