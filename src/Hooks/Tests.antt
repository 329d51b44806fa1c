-- ===== src/Hooks/Tests.antt =====
-- The registry of hooks at concrete inputs.
use ocg.Base.{◌++◌, zero, suc, ◌≡◌, refl, true, false, [], ◌∷◌, string_eq, nat_eq}
use ocg.Base.Map.{lookup, insert}
use ocg.Base.Text.{split_on, text_eq}
use ocg.Hooks.{
  Hook, Heap, HookRegistry, event_type_message, event_type_message_received, event_type_command,
  new_hook_registry, at, parent_of, append_hook, register, get_hooks, is_enabled, set_enabled,
  dispatch, list, enable, disable,
}
use ocg.Hooks.Changed.{Switched, enable-Switched}
use ocg.Hooks.Registered.{register_all, listeners, parent_listeners, get_hooks-register_all}

abbrev logger : Hook
logger = record { name = "logger"; events = event_type_message_received ∷ []; enabled = true }

abbrev auditor : Hook
auditor = record {
  name = "auditor";
  events = event_type_command ∷ event_type_message ∷ [];
  enabled = false;
}

-- Pointer 0 is the logger, every other one the auditor.
abbrev two_hooks : Heap
two_hooks zero = logger
two_hooks (suc n) = auditor

abbrev registered : HookRegistry
registered = register_all two_hooks (0 ∷ 1 ∷ []) new_hook_registry

-- The logger runs twice for one message; the auditor is off.
dispatch_twice : dispatch two_hooks registered event_type_message_received ≡ 0 ∷ 0 ∷ []
unfolding dispatch get_hooks at register append_hook parent_of split_on lookup insert
    new_hook_registry is_enabled
dispatch_twice = refl

dispatch_off : dispatch two_hooks (set_enabled registered false) event_type_message_received ≡ []
unfolding dispatch set_enabled is_enabled
dispatch_off = refl

list_once : list two_hooks registered ≡ 0 ∷ 1 ∷ []
unfolding list get_hooks at register append_hook parent_of split_on lookup insert new_hook_registry
list_once = refl

get_hooks-register_all_example :
    get_hooks registered event_type_message_received
    ≡ listeners two_hooks event_type_message_received (0 ∷ 1 ∷ [])
      ++ parent_listeners two_hooks (parent_of event_type_message_received) (0 ∷ 1 ∷ [])
get_hooks-register_all_example =
    get_hooks-register_all two_hooks (0 ∷ 1 ∷ []) event_type_message_received

enable-Switched_example :
    Switched two_hooks registered "auditor" true (enable two_hooks registered "auditor")
    × Switched two_hooks registered "auditor" false (disable two_hooks registered "auditor")
enable-Switched_example = enable-Switched two_hooks registered "auditor"
