-- ===== src/Hooks.antt =====
-- pkg/hooks/hooks.go: the registry of hooks. A hook is reached through pointers, and one pointer can
-- stand under several event types: a pointer is a number, and the heap says what stands behind it.
-- A hook's handler is code of its user. Description, emoji, configuration, requirements, systems and
-- priority, which the registry never reads, are left out.
pub mod Registered
pub mod Changed
mod Tests
use ocg.Base.{
  ℕ, ◌≡◌, Bool, true, false, not, List, [], ◌∷◌, ◌++◌, Option, none, some, String, if◌then◌else◌,
  keep, ◌==◌, string_eq, nat_eq,
}
use ocg.Base.Map.{Map, lookup, insert}
use ocg.Base.Text.{codes, text_eq, split_on}

-- An EventType is a text: `:` parts a family from a kind of event in it.
abbrev pub EventType : Type 0
EventType = List ℕ

abbrev pub event_type_command : EventType
event_type_command = codes "command"

abbrev pub event_type_message : EventType
event_type_message = codes "message"

abbrev pub event_type_message_received : EventType
event_type_message_received = codes "message:received"

pub record Hook : Type 0 where
  pub name : String
  pub events : List EventType
  pub enabled : Bool

abbrev pub Heap : Type 0
Heap = ℕ → Hook

pub record HookRegistry : Type 0 where
  pub hooks : Map EventType (List ℕ)
  pub enabled : Bool

unfoldable pub new_hook_registry : HookRegistry
new_hook_registry = record { hooks = []; enabled = true }

abbrev pub or_nil : Option (List ℕ) → List ℕ
or_nil none = []
or_nil (some xs) = xs

-- `r.hooks[e]`, nil for a key that is absent.
unfoldable pub at : Map EventType (List ℕ) → EventType → List ℕ
unfolding lookup
at m e = or_nil (lookup e m)

abbrev pub first_of_many : List (List ℕ) → Option EventType
first_of_many [] = none
first_of_many (p ∷ []) = none
first_of_many (p ∷ q ∷ ps) = some p

-- The first part of a type with more than one.
unfoldable pub parent_of : EventType → Option EventType
unfolding split_on
parent_of e = first_of_many (split_on b':' e)

-- `r.hooks[e] = append(r.hooks[e], hook)`.
unfoldable pub append_hook : ℕ → EventType → Map EventType (List ℕ) → Map EventType (List ℕ)
unfolding insert at
append_hook hook e m = insert e (at m e ++ hook ∷ []) m

-- The first loop of `Register`.
abbrev pub register_types : ℕ → List EventType → Map EventType (List ℕ) → Map EventType (List ℕ)
register_types hook [] m = m
register_types hook (e ∷ es) m = register_types hook es (append_hook hook e m)

abbrev pub append_parent : ℕ → Option EventType → Map EventType (List ℕ) → Map EventType (List ℕ)
append_parent hook none m = m
append_parent hook (some parent) m = append_hook hook parent m

-- Its second loop.
abbrev pub register_parents : ℕ → List EventType → Map EventType (List ℕ) → Map EventType (List ℕ)
register_parents hook [] m = m
register_parents hook (e ∷ es) m = register_parents hook es (append_parent hook (parent_of e) m)

unfoldable pub register : Heap → ℕ → HookRegistry → HookRegistry
unfolding append_hook parent_of
register heap hook r =
    let events = (heap hook).events in
    record r { hooks = register_parents hook events (register_types hook events r.hooks) }

abbrev pub unregister_in : Heap → String → Map EventType (List ℕ) → Map EventType (List ℕ)
unregister_in heap name [] = []
unregister_in heap name ((e, hs) ∷ m) =
    (e, keep (λ h. not ((heap h).name == name)) hs) ∷ unregister_in heap name m

unfoldable pub unregister : Heap → String → HookRegistry → HookRegistry
unregister heap name r = record r { hooks = unregister_in heap name r.hooks }

abbrev pub parent_hooks : Map EventType (List ℕ) → Option EventType → List ℕ
parent_hooks m none = []
parent_hooks m (some parent) = at m parent

unfoldable pub get_hooks : HookRegistry → EventType → List ℕ
unfolding at parent_of
get_hooks r e = at r.hooks e ++ parent_hooks r.hooks (parent_of e)

unfoldable pub set_enabled : HookRegistry → Bool → HookRegistry
set_enabled r b = record r { enabled = b }

unfoldable pub is_enabled : HookRegistry → Bool
is_enabled r = r.enabled

-- The hooks that `Dispatch` starts, each in a goroutine of its own.
unfoldable pub dispatch : Heap → HookRegistry → EventType → List ℕ
unfolding get_hooks is_enabled
dispatch heap r e = if is_enabled r then keep (λ h. (heap h).enabled) (get_hooks r e) else []

-- The inner loop of `List`: the hooks whose name was not seen, and the names seen.
abbrev pub is_seen : String → List String → Bool
is_seen name [] = false
is_seen name (s ∷ seen) = if s == name then true else is_seen name seen

abbrev pub all_hooks : Map EventType (List ℕ) → List ℕ
all_hooks [] = []
all_hooks ((e, hs) ∷ m) = hs ++ all_hooks m

abbrev pub list_new : Heap → List String → List ℕ → List ℕ
list_new heap seen [] = []
list_new heap seen (h ∷ hs) =
    let name = (heap h).name in
    let rest = list_new heap (name ∷ seen) hs in
    let same = list_new heap seen hs in if is_seen name seen then same else h ∷ rest

unfoldable pub list : Heap → HookRegistry → List ℕ
list heap r = list_new heap [] (all_hooks r.hooks)

abbrev pub find_named : Heap → String → List ℕ → Option ℕ
find_named heap name [] = none
find_named heap name (h ∷ hs) = if (heap h).name == name then some h else find_named heap name hs

-- A write through a pointer.
abbrev pub set_hook : Heap → ℕ → Bool → Heap
set_hook heap h b = λ k. if k == h then record (heap k) { enabled = b } else heap k

abbrev pub set_found : Heap → Bool → Option ℕ → Bool × Heap
set_found heap b none = (false, heap)
set_found heap b (some h) = (true, set_hook heap h b)

-- `Enable` and `Disable`: the first hook of that name in the order of the map.
unfoldable pub enable : Heap → HookRegistry → String → Bool × Heap
enable heap r name = set_found heap true (find_named heap name (all_hooks r.hooks))

unfoldable pub disable : Heap → HookRegistry → String → Bool × Heap
disable heap r name = set_found heap false (find_named heap name (all_hooks r.hooks))
