-- ===== src/Cron.antt =====
-- cron/cron.go: the data of scheduled jobs.
pub mod Fields
pub mod Expression
pub mod Next
pub mod Store
pub mod Create
pub mod Execute
pub mod Handler
mod Tests
use ocg.Base.{ℕ, Bool, Option, String}
use ocg.Base.Int.{ℤ}

-- Schedule kinds, session targets, wake and delivery modes, payload kinds: strings in the source.
abbrev pub schedule_kind_at : String
schedule_kind_at = "at"

abbrev pub schedule_kind_every : String
schedule_kind_every = "every"

abbrev pub schedule_kind_cron : String
schedule_kind_cron = "cron"

abbrev pub session_target_main : String
session_target_main = "main"

abbrev pub session_target_isolated : String
session_target_isolated = "isolated"

abbrev pub wake_mode_now : String
wake_mode_now = "now"

abbrev pub wake_mode_next_heartbeat : String
wake_mode_next_heartbeat = "next-heartbeat"

abbrev pub delivery_mode_announce : String
delivery_mode_announce = "announce"

abbrev pub payload_kind_system_event : String
payload_kind_system_event = "systemEvent"

abbrev pub payload_kind_agent_turn : String
payload_kind_agent_turn = "agentTurn"

pub record Schedule : Type 0 where
  pub kind : String
  pub at : String
  pub every_ms : ℤ
  pub expr : String
  pub tz : String
  pub stagger_ms : ℤ
  pub anchor_ms : ℤ

pub record Payload : Type 0 where
  pub kind : String
  pub text : String
  pub message : String
  pub model : String
  pub thinking : String
  pub timeout_seconds : ℤ

pub record Delivery : Type 0 where
  pub mode : String
  pub channel : String
  pub to : String
  pub best_effort : Bool
  pub webhook : String

pub record JobState : Type 0 where
  pub next_run_at_ms : ℤ
  pub last_run_at_ms : ℤ
  pub last_status : String
  pub last_duration_ms : ℤ
  pub consecutive_errors : ℕ

-- Times of creation and change are in milliseconds.
pub record Job : Type 0 where
  pub id : String
  pub name : String
  pub description : String
  pub agent_id : String
  pub enabled : Bool
  pub schedule : Schedule
  pub session_target : String
  pub wake_mode : String
  pub payload : Payload
  pub delivery : Option Delivery
  pub delete_after_run : Bool
  pub created_at : ℕ
  pub updated_at : ℕ
  pub state : JobState

pub record RunHistoryEntry : Type 0 where
  pub job_id : String
  pub job_name : String
  pub started_at_ms : ℤ
  pub ended_at_ms : ℤ
  pub status : String
  pub duration_ms : ℤ
  pub error : String
  pub result : String
