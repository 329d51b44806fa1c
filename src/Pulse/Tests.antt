-- ===== src/Pulse/Tests.antt =====
-- The heartbeat at concrete inputs.
use ocg.Base.{◌≡◌, refl, true, false, List, [], ◌∷◌, none, some, All, string_eq, nat_eq}
use ocg.Events.{Row, Event, new_row, priority_critical, priority_normal}
use ocg.Pulse.{
  PulseHandler, Callbacks, broadcast, event_done, Writes, Moment, new_pulse_handler, start,
  process_event, tick,
}
use ocg.Pulse.Ticks.{NoHooks, tick-NoHooks}
use ocg.Pulse.Unprocessed.{Action, add, beat, World, IsFresh, run, run-unprocessed}

abbrev all_written : Writes
all_written = record { mark = true; working = true; finish = true }

abbrev quiet : Callbacks
quiet = record {
  on_event = true;
  on_broadcast = some (λ message level channel. none);
  on_llm_process = false;
}

abbrev noon : Moment
noon = record {
  peeks = true;
  claims = true;
  minute_begins = false;
  now = 43200;
  writes = all_written;
  hook_errors = [];
}

abbrev alarm : Event
alarm = record {
  id = 4;
  title = "disk";
  content = "full";
  response = "";
  priority = priority_critical;
  status = "pending";
  channel = "ops";
  created_at = 10;
  processed_at = none;
  event_type = "";
  hook_name = "";
  metadata = "";
}

-- A row that was answered before, so that the queries read it.
abbrev answered : Row
answered = record (new_row 6 11 "note" "later" priority_normal "ops") { response = some "" }

running : PulseHandler
unfolding new_pulse_handler start
running = start (new_pulse_handler none)

alarm_calls :
    (process_event quiet all_written 43200 [] running [] alarm).calls
    ≡ broadcast "[CRITICAL]: disk\n\nfull" 0 "ops"
      ∷ event_done 4 "Broadcasted to all channels" []
      ∷ []
unfolding process_event running
alarm_calls = refl

tick-NoHooks_example :
    let p = tick none quiet noon running (answered ∷ []) in
    NoHooks p.calls × (running.is_processing ≡ false → p.handler.is_processing ≡ false)
tick-NoHooks_example = tick-NoHooks none quiet noon running (answered ∷ [])

abbrev empty_world : World
empty_world = record { handler = running; table = []; calls = [] }

abbrev history : List Action
history = add 1 100 "disk" "full" priority_critical "ops" ∷ beat noon ∷ beat noon ∷ []

run-unprocessed_example :
    All IsFresh (run quiet none empty_world history).table
    × ((run quiet none empty_world history).handler ≡ running)
    × ((run quiet none empty_world history).calls ≡ [])
run-unprocessed_example = run-unprocessed quiet none empty_world history refl tt
