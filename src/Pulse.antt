-- ===== src/Pulse.antt =====
-- agent/pulse.go: the heartbeat that takes events out of the table and handles them. The callbacks are
-- code of the handler's users; an error is its message. The clock and the success of each write are
-- arguments. CheckSessionReset works on other tables and is left out.
pub mod Ticks
pub mod Unprocessed
mod Tests
use ocg.Base.{
  ℕ, suc, ◌+◌, ◌≡◌, Bool, true, false, not, ◌&&◌, ◌||◌, List, [], ◌∷◌, ◌++◌, Option, none, some,
  String, if◌then◌else◌, ltb, leb, keep, drop, map, ◌==◌, string_eq, nat_eq,
}
use ocg.Base.Int.{ℤ, pos, negsuc}
use ocg.Base.Text.{codes}
use ocg.Hooks.{Heap, HookRegistry, get_hooks}
use ocg.Events.{
  Row, Event, priority_critical, priority_high, priority_normal, priority_low, Fetched, nothing,
  failed, found, peek_next_event, claim_next_event, update_event_status,
  update_event_status_with_response, clear_old_events,
}
use Prim.Native.String.{◌++◌ as text_append}
use text.Mathlib.Text.{starts_with}

-- Intervals are milliseconds.
pub record PulseConfig : Type 0 where
  pub interval : ℕ
  pub enabled : Bool
  pub llm_enabled : Bool
  pub max_queue_size : ℕ
  pub cleanup_hours : ℕ
  pub session_reset_enabled : Bool
  pub session_reset_mins : ℕ

abbrev pub default_pulse_config : PulseConfig
default_pulse_config = record {
  interval = 1000;
  enabled = true;
  llm_enabled = true;
  max_queue_size = 100;
  cleanup_hours = 24;
  session_reset_enabled = false;
  session_reset_mins = 60;
}

-- The lock `mu` is left out: each method runs as a whole.
pub record PulseHandler : Type 0 where
  pub config : PulseConfig
  pub running : Bool
  pub is_processing : Bool
  pub current_event : Option Event
  pub hooks_registry : Option (Heap × HookRegistry)

pub record Callbacks : Type 0 where
  pub on_event : Bool
  pub on_broadcast : Option (String → ℕ → String → Option String)
  pub on_llm_process : Bool

-- What a run calls: the broadcast of a message, the callback of an event with its response and
-- errors, a hook.
pub data Call : Type 0 where
  broadcast : String → ℕ → String → Call
  event_done : ℕ → String → List String → Call
  hook : ℕ → Call

unfoldable pub new_pulse_handler : Option PulseConfig → PulseHandler
new_pulse_handler config = record {
  config = elim config [ none ↦ default_pulse_config | some c ↦ c ];
  running = false;
  is_processing = false;
  current_event = none;
  hooks_registry = none;
}

unfoldable pub start : PulseHandler → PulseHandler
start h = if h.running then h else record h { running = true }

-- `Stop`, which then waits for the goroutines in the background.
unfoldable pub stop : PulseHandler → PulseHandler
stop h = if h.running then record h { running = false } else h

abbrev pub is_none : Option Event → Bool
is_none none = true
is_none (some e) = false

unfoldable pub should_process_event : PulseHandler → Event → Bool
should_process_event h event =
    if h.is_processing && ltb priority_critical event.priority
    then false
    else if event.priority == priority_critical
    then true
    else if event.priority == priority_high
    then not h.is_processing || is_none h.current_event
    else if event.priority == priority_normal
    then not h.is_processing
    else if event.priority == priority_low
    then not h.is_processing
    else false

-- What one processing leaves; `background` is the event that a goroutine hands to the model.
pub record Processed : Type 0 where
  pub handler : PulseHandler
  pub table : List Row
  pub calls : List Call
  pub background : Option Event

-- Which of its writes succeed: the mark, the mark for the model, the final status.
pub record Writes : Type 0 where
  pub mark : Bool
  pub working : Bool
  pub finish : Bool

abbrev pub lines : String → String → String
lines title content = text_append title (text_append "\n\n" content)

abbrev pub joined : List String → String
joined [] = ""
joined (e ∷ []) = e
joined (e ∷ f ∷ es) = text_append e (text_append "; " (joined (f ∷ es)))

abbrev pub error_list : Option String → List String
error_list none = []
error_list (some e) = e ∷ []

abbrev pub idle : PulseHandler → PulseHandler
idle h = record h { is_processing = false; current_event = none }

-- "completed", or "completed_with_errors" with the errors.
abbrev pub final_status : Bool → ℕ → ℕ → String → List String → List Row → List Row
final_status w now id response [] t =
    update_event_status_with_response w now id "completed" response t
final_status w now id response (e ∷ es) t =
    update_event_status_with_response w now id "completed_with_errors" (joined (e ∷ es)) t

-- The end of `processEvent`: the callback, the final status, the reset.
abbrev pub finish :
    Callbacks
    → Writes
    → ℕ
    → PulseHandler
    → List Row
    → Event
    → String
    → List String
    → List Call
    → Processed
finish c w now h t event response errors calls = record {
  handler = idle h;
  table = final_status w.finish now event.id response errors t;
  calls = calls ++ (if c.on_event then event_done event.id response errors ∷ [] else []);
  background = none;
}

abbrev pub say :
    Option (String → ℕ → String → Option String) → String → ℕ → String → List String × List Call
say none message level channel = ([], [])
say (some cb) message level channel =
    (error_list (cb message level channel), broadcast message level channel ∷ [])

abbrev pub finish_said :
    Callbacks
    → Writes
    → ℕ
    → PulseHandler
    → List Row
    → Event
    → String
    → List String × List Call
    → Processed
finish_said c w now h t event response said = finish c w now h t event response said.0 said.1

-- The hooks of the registry that are started, and the status of the event. The goroutines append to
-- the errors while these are read: `errors` is what they had appended by then.
abbrev pub hook_list : Heap → HookRegistry → Event → List ℕ
hook_list heap r event = get_hooks r (drop 5 (codes event.event_type))

abbrev pub run_hooks :
    Heap → Bool → ℕ → Event → List String → List ℕ → List Row → List Row × List Call
run_hooks heap w now event errors [] t = (update_event_status w now event.id "completed" t, [])
run_hooks heap w now event errors (h ∷ hs) t = (
  elim errors [
    | [] ↦ update_event_status w now event.id "completed" t
    | e ∷ es ↦
        update_event_status_with_response w now event.id "completed_with_errors" (joined (e ∷ es)) t
  ],
  map hook (keep (λ k. (heap k).enabled) (h ∷ hs)),
)

abbrev pub handle_with :
    Option (Heap × HookRegistry) → Bool → ℕ → Event → List String → List Row → List Row × List Call
handle_with none w now event errors t = (
  update_event_status_with_response w now event.id "completed_with_errors"
      "hooks registry not available" t,
  [],
)
handle_with (some (heap, r)) w now event errors t =
    run_hooks heap w now event errors (hook_list heap r event) t

unfoldable pub handle_hook_event :
    PulseHandler → Bool → ℕ → Event → List String → List Row → List Row × List Call
handle_hook_event h w now event errors t = handle_with h.hooks_registry w now event errors t

abbrev pub is_hook : Event → Bool
is_hook event = not (event.event_type == "") && starts_with event.event_type "hook:"

unfoldable pub process_event :
    Callbacks → Writes → ℕ → List String → PulseHandler → List Row → Event → Processed
unfolding handle_hook_event
process_event c w now hook_errors h t event =
    let h₁ : PulseHandler = record h { is_processing = true; current_event = some event } in
    let t₁ =
      if event.status == "processing"
      then t
      else update_event_status w.mark now event.id "processing" t in
    let text = lines event.title event.content in
    let hooked = handle_hook_event h₁ w.finish now event hook_errors t₁ in
    if event.priority == priority_critical
    then finish_said c w now h₁ t₁ event "Broadcasted to all channels"
        (say c.on_broadcast (text_append "[CRITICAL]: " text) 0 event.channel)
    else if event.priority == priority_high
    then (if is_hook event
        then record { handler = h₁; table = hooked.0; calls = hooked.1; background = none }
        else finish_said c w now h₁ t₁ event "Broadcasted to channel"
            (say c.on_broadcast text 1 event.channel))
    else if (event.priority == priority_normal || event.priority == priority_low)
        && h₁.config.llm_enabled
        && c.on_llm_process
    then record {
      handler = idle h₁;
      table = update_event_status w.working now event.id "processing_llm" t₁;
      calls = [];
      background = some event;
    }
    else finish c w now h₁ t₁ event "" [] []

-- How the goroutine for the model ends.
pub data LlmAnswer : Type 0 where
  shutdown : LlmAnswer
  answered : String → LlmAnswer
  refused : String → LlmAnswer
  panicked : String → LlmAnswer

unfoldable pub llm_done : Bool → ℕ → Event → LlmAnswer → List Row → List Row
llm_done w now event shutdown t =
    update_event_status_with_response w now event.id "cancelled" "service shutdown" t
llm_done w now event (answered r) t =
    update_event_status_with_response w now event.id "completed" r t
llm_done w now event (refused e) t =
    update_event_status_with_response w now event.id "completed_with_errors" e t
llm_done w now event (panicked p) t =
    update_event_status_with_response w now event.id "completed_with_errors"
      (text_append "panic recovered: " p) t

-- What a tick meets: the success of the queries, whether the minute has just begun, the instant.
pub record Moment : Type 0 where
  pub peeks : Bool
  pub claims : Bool
  pub minute_begins : Bool
  pub now : ℕ
  pub writes : Writes
  pub hook_errors : List String

abbrev pub unchanged : PulseHandler → List Row → Processed
unchanged h t = record { handler = h; table = t; calls = []; background = none }

abbrev pub process_claimed :
    Callbacks → Moment → PulseHandler → List Row → Fetched × List Row → Processed
process_claimed c m h t (nothing, t') = unchanged h t'
process_claimed c m h t (failed, t') = unchanged h t'
process_claimed c m h t (found event, t') = process_event c m.writes m.now m.hook_errors h t' event

module _ (null_text : Option String) where
  abbrev pub tick_peeked : Callbacks → Moment → PulseHandler → List Row → Fetched → Processed
  tick_peeked c m h t failed = unchanged h t
  tick_peeked c m h t nothing =
      if m.minute_begins
      then unchanged h (clear_old_events m.now h.config.cleanup_hours t)
      else unchanged h t
  tick_peeked c m h t (found event) =
      if should_process_event h event
      then process_claimed c m h t (claim_next_event null_text m.claims t)
      else unchanged h t

  unfoldable pub tick : Callbacks → Moment → PulseHandler → List Row → Processed
  unfolding should_process_event process_event
  tick c m h t = tick_peeked c m h t (peek_next_event null_text m.peeks t)

unfoldable pub add_event_priority : ℤ → ℕ
add_event_priority (pos n) = if ltb 3 n then 2 else n
add_event_priority (negsuc n) = 2

-- ParsePriority of a text that is trimmed and in lower case.
unfoldable pub parse_priority : String → ℕ
parse_priority s =
    if s == "0" || s == "critical" || s == "crit" || s == "c"
    then priority_critical
    else if s == "1" || s == "high" || s == "important" || s == "h"
    then priority_high
    else if s == "2" || s == "normal" || s == "n"
    then priority_normal
    else if s == "3" || s == "low" || s == "l"
    then priority_low
    else priority_normal
