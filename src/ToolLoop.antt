-- ===== src/ToolLoop.antt =====
-- agent/tool_loop_detection.go: the detector of loops of tool calls. Instants and the time window are
-- natural numbers of one unit, the clock an argument of each method; the reports are tagged with what
-- their text says.
pub mod Limits
mod Tests
use ocg.Base.{
  ℕ, suc, ◌+◌, ◌-◌, ◌*◌, ◌≡◌, Bool, true, false, ◌&&◌, List, [], ◌∷◌, ◌++◌, Option, none, some,
  String, if◌then◌else◌, ltb, leb, length, drop, keep, ◌==◌, string_eq, nat_eq,
}

pub record ToolLoopDetectionConfig : Type 0 where
  pub max_calls : ℕ
  pub time_window : ℕ
  pub same_tool_limit : ℕ

-- The window is five minutes, in milliseconds.
abbrev pub default_tool_loop_detection_config : ToolLoopDetectionConfig
default_tool_loop_detection_config = record {
  max_calls = 20;
  time_window = 300000;
  same_tool_limit = 10;
}

pub record ToolCallRecord : Type 0 where
  pub tool_name : String
  pub call_time : ℕ
  pub args : String

pub record ToolLoopDetector : Type 0 where
  pub config : ToolLoopDetectionConfig
  pub calls : List ToolCallRecord
  pub last_tool : String
  pub consecutive_count : ℕ

unfoldable pub new_tool_loop_detector : ToolLoopDetectionConfig → ToolLoopDetector
new_tool_loop_detector cfg = record {
  config = if cfg.max_calls == 0 then default_tool_loop_detection_config else cfg;
  calls = [];
  last_tool = "";
  consecutive_count = 0;
}

-- `call.CallTime.After(now.Add(-window))`.
abbrev pub is_recent : ℕ → ℕ → ToolCallRecord → Bool
is_recent window now call = ltb now (call.call_time + window)

-- `cleanupOldCalls`.
unfoldable pub cleanup_old_calls : ToolLoopDetector → ℕ → List ToolCallRecord
cleanup_old_calls d now = keep (is_recent d.config.time_window now) d.calls

unfoldable pub record_call : ToolLoopDetector → String → String → ℕ → ToolLoopDetector
unfolding cleanup_old_calls
record_call d tool_name args now =
    let call : ToolCallRecord = record { tool_name = tool_name; call_time = now; args = args } in
    record d {
      calls = cleanup_old_calls d now ++ call ∷ [];
      consecutive_count = if tool_name == d.last_tool then suc d.consecutive_count else 1;
      last_tool = tool_name;
    }

-- Why a loop is reported.
pub data Report : Type 0 where
  too_many_calls : ℕ → Report
  same_tool : String → ℕ → Report
  duplicate_pattern : String → Report

-- The pattern of the last three calls: one tool, and equal arguments of the first and the third.
abbrev pub pattern : List ToolCallRecord → Option Report
pattern (a ∷ b ∷ c ∷ []) =
    if a.tool_name == c.tool_name && a.args == c.args && b.tool_name == a.tool_name
    then some (duplicate_pattern a.tool_name)
    else none
pattern [] = none
pattern (a ∷ []) = none
pattern (a ∷ b ∷ []) = none
pattern (a ∷ b ∷ c ∷ x ∷ r) = none

abbrev pub last3 : List ToolCallRecord → List ToolCallRecord
last3 calls = drop (length calls - 3) calls

abbrev pub report : ToolLoopDetectionConfig → List ToolCallRecord → String → ℕ → Option Report
report cfg calls last_tool consecutive =
    if leb cfg.max_calls (length calls)
    then some (too_many_calls cfg.max_calls)
    else if leb cfg.same_tool_limit consecutive
    then some (same_tool last_tool cfg.same_tool_limit)
    else if leb 3 (length calls)
    then pattern (last3 calls)
    else none

-- The report, and the detector without the calls that are too old.
unfoldable pub check_loop : ToolLoopDetector → ℕ → Option Report × ToolLoopDetector
unfolding cleanup_old_calls
check_loop d now =
    let d' : ToolLoopDetector = record d { calls = cleanup_old_calls d now } in
    (report d'.config d'.calls d'.last_tool d'.consecutive_count, d')

-- `GetStats`: the detector and the numbers of its text.
unfoldable pub get_stats : ToolLoopDetector → ℕ → (ℕ × ℕ × String × ℕ) × ToolLoopDetector
unfolding cleanup_old_calls
get_stats d now =
    let d' : ToolLoopDetector = record d { calls = cleanup_old_calls d now } in
    ((length d'.calls, d'.config.time_window, d'.last_tool, d'.consecutive_count), d')
