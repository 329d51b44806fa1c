-- ===== src/ToolLoop/Tests.antt =====
-- The detector at concrete inputs.
use ocg.Base.{keep, ltb, ◌+◌, ℕ, ◌≡◌, List, [], ◌∷◌, String}
use ocg.ToolLoop.{
  new_tool_loop_detector, ToolLoopDetector, default_tool_loop_detection_config, check_loop,
}
use ocg.ToolLoop.Limits.{Reports, check_loop_branches, recorded, recorded_consecutive}

abbrev two_reads : List (String × String × ℕ)
two_reads = ("read", "b", 2) ∷ ("read", "a", 1) ∷ ("exec", "ls", 0) ∷ []

abbrev busy : ToolLoopDetector
busy = record {
  config = default_tool_loop_detection_config;
  calls = record { tool_name = "read"; call_time = 5; args = "a" } ∷ [];
  last_tool = "read";
  consecutive_count = 10;
}

check_loop_branches_example :
    let recent = keep (λ call. ltb 9 (call.call_time + 300000)) busy.calls in
    ((check_loop busy 9).1 ≡ record busy { calls = recent })
    × Reports default_tool_loop_detection_config recent "read" 10 (check_loop busy 9).0
check_loop_branches_example = check_loop_branches busy 9

recorded_consecutive_example :
    (recorded
      (new_tool_loop_detector default_tool_loop_detection_config)
      (("read", "c", 3) ∷ two_reads)).consecutive_count
    ≡ 3
recorded_consecutive_example =
    recorded_consecutive default_tool_loop_detection_config "read" "c" 3 two_reads
