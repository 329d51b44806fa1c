-- ===== src/Events.antt =====
-- storage/storage.go: the table of events behind the pulse. The table is the list of its rows in the
-- order of their ids; `ORDER BY priority ASC, created_at ASC` leaves rows that are equal in both in
-- that order. A statement can fail: its success is an argument. Instants are seconds.
pub mod Claims
pub mod Order
mod Tests
use ocg.Base.{
  ℕ, suc, ◌+◌, ◌*◌, ◌-◌, ◌≡◌, Bool, true, false, not, ◌&&◌, ◌||◌, List, [], ◌∷◌, ◌++◌, Option, none,
  some, String, if◌then◌else◌, ltb, keep, ◌==◌, string_eq, nat_eq,
}
use ocg.Base.Map.{Map, lookup, insert}
use Prim.Native.String.{◌++◌ as text_append}

abbrev pub priority_critical : ℕ
priority_critical = 0

abbrev pub priority_high : ℕ
priority_high = 1

abbrev pub priority_normal : ℕ
priority_normal = 2

abbrev pub priority_low : ℕ
priority_low = 3

-- A row; `none` is NULL. Priorities are 0 to 3.
pub record Row : Type 0 where
  pub id : ℕ
  pub title : String
  pub content : String
  pub response : Option String
  pub priority : ℕ
  pub status : String
  pub channel : String
  pub created_at : ℕ
  pub processed_at : Option ℕ
  pub event_type : String
  pub hook_name : String
  pub metadata : String

pub record Event : Type 0 where
  pub id : ℕ
  pub title : String
  pub content : String
  pub response : String
  pub priority : ℕ
  pub status : String
  pub channel : String
  pub created_at : ℕ
  pub processed_at : Option ℕ
  pub event_type : String
  pub hook_name : String
  pub metadata : String

-- The defaults of the columns, for an insert that names neither them nor `response`.
abbrev pub new_row : ℕ → ℕ → String → String → ℕ → String → Row
new_row id now title content priority channel = record {
  id = id;
  title = title;
  content = content;
  response = none;
  priority = priority;
  status = "pending";
  channel = channel;
  created_at = now;
  processed_at = none;
  event_type = "";
  hook_name = "";
  metadata = "";
}

-- `AddEvent`, when the insert succeeds; `id` is the next of the sequence.
unfoldable pub add_event : ℕ → ℕ → String → String → ℕ → String → List Row → List Row
add_event id now title content priority channel t =
    t ++ new_row id now title content priority channel ∷ []

-- `AddHookEvent`.
unfoldable pub add_hook_event : ℕ → ℕ → String → String → String → String → List Row → List Row
add_hook_event id now event_type hook_name content metadata t =
    let title = text_append "hook:" (text_append event_type (text_append ":" hook_name)) in
    t
    ++ record (new_row id now title content priority_high "") {
      event_type = event_type;
      hook_name = hook_name;
      metadata = metadata;
    }
      ∷ []

-- Does the first row stand strictly before the second in the order of the queries?
abbrev pub before : Row → Row → Bool
before x y =
    ltb x.priority y.priority || (x.priority == y.priority && ltb x.created_at y.created_at)

abbrev pub earlier : Row → Option Row → Row
earlier x none = x
earlier x (some y) = if before y x then y else x

-- `WHERE status = s ORDER BY priority ASC, created_at ASC LIMIT 1`.
unfoldable pub first_with : String → List Row → Option Row
first_with s [] = none
first_with s (x ∷ xs) =
    if x.status == s then some (earlier x (first_with s xs)) else first_with s xs

abbrev pub set_row : ℕ → (Row → Row) → List Row → List Row
set_row id f [] = []
set_row id f (x ∷ xs) = (if x.id == id then f x else x) ∷ set_row id f xs

abbrev pub set_status : String → Row → Row
set_status s x = record x { status = s }

-- What a query for one event gives: no row, an error, or an event.
pub data Fetched : Type 0 where
  nothing : Fetched
  failed : Fetched
  found : Event → Fetched

-- What database/sql makes of a NULL that is scanned into a string; `none` is an error.
module _ (null_text : Option String) where
  abbrev pub event_of : Row → Option String → Fetched
  event_of x none = failed
  event_of x (some response) = found (record {
    id = x.id;
    title = x.title;
    content = x.content;
    response = response;
    priority = x.priority;
    status = x.status;
    channel = x.channel;
    created_at = x.created_at;
    processed_at = x.processed_at;
    event_type = "";
    hook_name = "";
    metadata = "";
  })

  abbrev pub text_or_null : Option String → Option String
  text_or_null none = null_text
  text_or_null (some r) = some r

  -- `Scan` of the nine columns that the queries name; the fields for hooks stay empty.
  abbrev pub scan : Option Row → Fetched
  scan none = nothing
  scan (some x) = event_of x (text_or_null x.response)

  -- `PeekNextEvent`, and `GetNextEvent`, which is the same query.
  unfoldable pub peek_next_event : Bool → List Row → Fetched
  unfolding first_with
  peek_next_event false t = failed
  peek_next_event true t = scan (first_with "pending" t)

  -- The end of the transaction: an error rolls it back.
  abbrev pub commit : List Row → List Row → Fetched → Fetched × List Row
  commit old new nothing = (nothing, old)
  commit old new failed = (failed, old)
  commit old new (found e) = (found e, new)

  abbrev pub claim_found : List Row → Option Row → Fetched × List Row
  claim_found t none = (nothing, t)
  claim_found t (some x) =
      let t' = set_row x.id (set_status "processing") t in
      commit t t' (scan (first_with "processing" t'))

  -- `ClaimNextEventV2`: the update of the next pending row, then the query for the claimed one.
  unfoldable pub claim_next_event : Bool → List Row → Fetched × List Row
  unfolding first_with
  claim_next_event false t = (failed, t)
  claim_next_event true t = claim_found t (first_with "pending" t)

abbrev pub is_working : String → Bool
is_working status = status == "processing" || status == "processing_llm"

abbrev pub stamp : Bool → ℕ → Row → Row
stamp true now x = x
stamp false now x = record x { processed_at = some now }

-- `UpdateEventStatus` and `UpdateEventStatusWithResponse`; a failed statement changes nothing.
unfoldable pub update_event_status : Bool → ℕ → ℕ → String → List Row → List Row
update_event_status false now id status t = t
update_event_status true now id status t =
    set_row id (λ x. stamp (is_working status) now (set_status status x)) t

unfoldable pub update_event_status_with_response :
    Bool → ℕ → ℕ → String → String → List Row → List Row
update_event_status_with_response false now id status response t = t
update_event_status_with_response true now id status response t =
    set_row id
      (λ x.
        stamp (is_working status) now (record (set_status status x) { response = some response }))
      t

abbrev pub count_of : Option ℕ → ℕ
count_of none = 0
count_of (some n) = n

-- `GetEventCount`.
unfoldable pub get_event_count : List Row → Map String ℕ
unfolding lookup insert
get_event_count [] = []
get_event_count (x ∷ xs) =
    let m = get_event_count xs in insert x.status (suc (count_of (lookup x.status m))) m

abbrev pub is_before : Option ℕ → ℕ → Bool
is_before none cutoff = false
is_before (some p) cutoff = ltb p cutoff

abbrev pub is_old : ℕ → Row → Bool
is_old cutoff x =
    (x.status == "completed" || x.status == "dismissed") && is_before x.processed_at cutoff

unfoldable pub clear_old_events : ℕ → ℕ → List Row → List Row
clear_old_events now hours t = keep (λ x. not (is_old (now - hours * 3600) x)) t
