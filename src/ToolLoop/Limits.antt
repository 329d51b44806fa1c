-- ===== src/ToolLoop/Limits.antt =====
-- What the detector counts, and when it reports a loop.
use ocg.Base.{
  Option, ◌&&◌, keep, ltb, ◌+◌, ◌-◌, drop, subst, ◌++◌, ℕ, suc, ◌≤◌, ◌<◌, ◌≡◌, refl, sym, ap, ◌∙◌,
  ◌⊎◌, inl, inr, false, List, [], ◌∷◌, none, some, String, if◌then◌else◌, length, ◌==◌, string_eq,
  arith, Bool-cases, leb, if_true, if_false,
}
use ocg.ToolLoop.{
  ToolLoopDetectionConfig, ToolCallRecord, ToolLoopDetector, new_tool_loop_detector, record_call,
  check_loop, cleanup_old_calls, too_many_calls, duplicate_pattern, Report, report, same_tool,
  pattern, last3,
}

-- The calls of a history, the last one first, as `record_call` gets them.
abbrev pub recorded : ToolLoopDetector → List (String × String × ℕ) → ToolLoopDetector
recorded d [] = d
recorded d ((tool, args, now) ∷ h) = record_call (recorded d h) tool args now

-- How many of the last calls name this tool, with no other in between.
abbrev pub run_of : String → List (String × String × ℕ) → ℕ
run_of tool [] = 0
run_of tool ((t, args, now) ∷ h) = if t == tool then suc (run_of tool h) else 0

-- After any calls of a new detector that end with one of a tool, the count of consecutive calls is one
-- more than the calls before that name this tool with no other in between, whatever their times.
pub recorded_consecutive :
    (cfg : ToolLoopDetectionConfig) (tool args : String) (now : ℕ) (h : List (String × String × ℕ))
    → (recorded (new_tool_loop_detector cfg) ((tool, args, now) ∷ h)).consecutive_count
      ≡ suc (run_of tool h)
unfolding record_call new_tool_loop_detector
recorded_consecutive cfg tool args now [] = elim (Bool-cases (tool == "")) [
  | inl blank ↦ if_true 1 1 blank
  | inr named ↦ if_false 1 1 named
]
recorded_consecutive cfg tool args now ((t, args', now') ∷ h) = elim (Bool-cases (tool == t)) [
  | inl same ↦
      let is : tool ≡ t = (string_eq.test_iff tool t).0 same in
      if_true _ _ same
      ∙ ap suc (recorded_consecutive cfg t args' now' h ∙ ap (λ x. suc (run_of x h)) (sym is))
      ∙ ap suc (sym (if_true _ _ ((string_eq.test_iff t tool).1 (sym is))))
  | inr other ↦ if_false _ _ other ∙ ap suc (sym (if_false _ _ (flip t other)))
]
  where
    flip : (t : String) → (tool == t) ≡ false → (t == tool) ≡ false
    flip t f = ground (arith, string_eq.test_iff tool t, string_eq.test_iff t tool)

-- The last three calls are a duplicate: one tool, and the same arguments in the first and the third.
abbrev pub IsDuplicate : ToolCallRecord → ToolCallRecord → ToolCallRecord → Type 0
IsDuplicate a b c = (a.tool_name ≡ c.tool_name) × (a.args ≡ c.args) × (b.tool_name ≡ a.tool_name)

-- What is reported for the calls in the window when no limit is reached.
abbrev pub Unlimited : List ToolCallRecord → Option Report → Type 0
Unlimited calls r =
    ((length calls < 3) × (r ≡ none))
    ⊎ ((before : List ToolCallRecord) × (a b c : ToolCallRecord) × (calls
          ≡ before ++ a ∷ b ∷ c ∷ [])
        × ((IsDuplicate a b c × (r ≡ some (duplicate_pattern a.tool_name)))
            ⊎ (¬ IsDuplicate a b c × (r ≡ none))))

abbrev pub Reports :
    ToolLoopDetectionConfig → List ToolCallRecord → String → ℕ → Option Report → Type 0
Reports cfg calls last_tool consecutive r =
    ((cfg.max_calls ≤ length calls) × (r ≡ some (too_many_calls cfg.max_calls)))
    ⊎ ((length calls < cfg.max_calls)
        × (cfg.same_tool_limit ≤ consecutive)
        × (r ≡ some (same_tool last_tool cfg.same_tool_limit)))
    ⊎ ((length calls < cfg.max_calls) × (consecutive < cfg.same_tool_limit) × Unlimited calls r)

pattern_lem :
    (a b c : ToolCallRecord)
    → (IsDuplicate a b c × (pattern (a ∷ b ∷ c ∷ []) ≡ some (duplicate_pattern a.tool_name)))
      ⊎ (¬ IsDuplicate a b c × (pattern (a ∷ b ∷ c ∷ []) ≡ none))
pattern_lem a b c =
    elim (Bool-cases
      (a.tool_name == c.tool_name && a.args == c.args && b.tool_name == a.tool_name)) [
        | inl yes_all ↦ inl (
          (
            ground (arith, string_eq.test_iff a.tool_name c.tool_name),
            ground (arith, string_eq.test_iff a.args c.args),
            ground (arith, string_eq.test_iff b.tool_name a.tool_name),
          ),
          if_true _ _ yes_all,
        )
        | inr not_all ↦ inr (
          λ d. ground (
            arith,
            d.0,
            d.1,
            d.2,
            string_eq.test_iff a.tool_name c.tool_name,
            string_eq.test_iff a.args c.args,
            string_eq.test_iff b.tool_name a.tool_name,
          ),
          if_false _ _ not_all,
        )
      ]

-- A list that is long enough ends with three calls, which are its `last3`.
last3_lem :
    (calls : List ToolCallRecord)
    → 3 ≤ length calls
    → (before : List ToolCallRecord) × (a b c : ToolCallRecord) × (calls ≡ before ++ a ∷ b ∷ c ∷ [])
      × (last3 calls ≡ a ∷ b ∷ c ∷ [])
last3_lem [] h = absurd (omega arith)
last3_lem (a ∷ []) h = absurd (omega arith)
last3_lem (a ∷ b ∷ []) h = absurd (omega arith)
last3_lem (a ∷ b ∷ c ∷ []) h = ([], a, b, c, refl, refl)
last3_lem (x ∷ a ∷ b ∷ c ∷ calls) h =
    let (before, a', b', c', e, l) = last3_lem (a ∷ b ∷ c ∷ calls) (omega arith) in
    (x ∷ before, a', b', c', ap (◌∷◌ x) e, one_more ∙ l)
  where
    one_more : last3 (x ∷ a ∷ b ∷ c ∷ calls) ≡ last3 (a ∷ b ∷ c ∷ calls)
    one_more =
        let more : length (x ∷ a ∷ b ∷ c ∷ calls) - 3 ≡ suc (length (a ∷ b ∷ c ∷ calls) - 3) =
          omega arith in
        ap (λ n. drop n (x ∷ a ∷ b ∷ c ∷ calls)) more

unlimited :
    (calls : List ToolCallRecord)
    → Unlimited calls (if leb 3 (length calls) then pattern (last3 calls) else none)
unlimited calls = elim (Bool-cases (leb 3 (length calls))) [
  | inr few ↦ inl (ground arith, if_false _ _ few)
  | inl enough ↦
      let (before, a, b, c, e, l) = last3_lem calls (ground arith) in
      inr (
        before,
        a,
        b,
        c,
        e,
        subst
            (λ o.
              (IsDuplicate a b c × (o ≡ some (duplicate_pattern a.tool_name)))
              ⊎ (¬ IsDuplicate a b c × (o ≡ none)))
            (sym (if_true _ _ enough ∙ ap pattern l)) (pattern_lem a b c),
      )
]

report-Reports :
    (cfg : ToolLoopDetectionConfig) (calls : List ToolCallRecord) (last_tool : String)
    (consecutive : ℕ)
    → Reports cfg calls last_tool consecutive (report cfg calls last_tool consecutive)
report-Reports cfg calls last_tool consecutive =
    elim (Bool-cases (leb cfg.max_calls (length calls))) [
      | inl a ↦ inl (ground arith, if_true _ _ a)
      | inr a ↦ elim (Bool-cases (leb cfg.same_tool_limit consecutive)) [
        | inl b ↦ inr (inl (ground arith, ground arith, if_false _ _ a ∙ if_true _ _ b))
        | inr b ↦ inr (
            inr (
              ground arith,
              ground arith,
              subst (Unlimited calls) (sym (if_false _ _ a ∙ if_false _ _ b)) (unlimited calls),
            ))
      ]
    ]

-- A check first drops the calls that are as old as the window or older and changes nothing else in
-- the detector. Then it reports a loop with as many calls left as allowed; else with as many
-- consecutive calls of one tool as allowed; else when the last three calls left name one tool and the
-- first and third of them have the same arguments; and otherwise it reports none.
pub check_loop_branches :
    (d : ToolLoopDetector) (now : ℕ)
    → let recent = keep (λ call. ltb now (call.call_time + d.config.time_window)) d.calls in
      ((check_loop d now).1 ≡ record {
        config = d.config;
        calls = recent;
        last_tool = d.last_tool;
        consecutive_count = d.consecutive_count;
      })
      × Reports d.config recent d.last_tool d.consecutive_count (check_loop d now).0
unfolding check_loop cleanup_old_calls
check_loop_branches d now = (refl, report-Reports d.config _ d.last_tool d.consecutive_count)
