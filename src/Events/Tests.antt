-- ===== src/Events/Tests.antt =====
-- The table of events at concrete inputs.
use ocg.Base.{
  ℕ, ◌≡◌, ◌≢◌, refl, ap, true, List, [], ◌∷◌, none, some, inl, inr, string_eq, nat_eq, arith,
  String, In, sym, ◌∙◌,
}
use ocg.Events.{
  Row, Event, add_event, new_row, first_with, set_row, set_status, failed, found, claim_next_event,
  peek_next_event, priority_critical, priority_normal, priority_low,
}
use ocg.Events.Claims.{HasKeys, claim_next_event-First, claim_next_event-wrong}
use ocg.Events.Order.{First}

-- Rows with a response, so that the queries can read them.
abbrev answered : ℕ → ℕ → String → Row
answered id priority status = record (new_row id 100 "backup" "disk is full" priority "") {
  status = status;
  response = some "";
}

abbrev waiting : List Row
waiting = answered 1 priority_low "pending" ∷ answered 2 priority_critical "pending" ∷ []

-- An older critical event is still at work.
abbrev busy : List Row
busy = answered 7 priority_critical "processing" ∷ answered 8 priority_normal "pending" ∷ []

abbrev event_of_row : Row → Event
event_of_row x = record {
  id = x.id;
  title = x.title;
  content = x.content;
  response = "";
  priority = x.priority;
  status = x.status;
  channel = x.channel;
  created_at = x.created_at;
  processed_at = none;
  event_type = "";
  hook_name = "";
  metadata = "";
}

claim_in_order : claim_next_event none true waiting ≡ (
  found (event_of_row (answered 2 priority_critical "processing")),
  set_row 2 (set_status "processing") waiting,
)
unfolding claim_next_event first_with
claim_in_order = refl

claim_behind : claim_next_event none true busy ≡ (
  found (event_of_row (answered 7 priority_critical "processing")),
  set_row 8 (set_status "processing") busy,
)
unfolding claim_next_event first_with
claim_behind = refl

-- An event as it is added cannot be read where NULL is no text.
peek_added :
    peek_next_event none true (add_event 1 100 "backup" "disk is full" priority_normal "" [])
    ≡ failed
unfolding peek_next_event first_with add_event
peek_added = refl

waiting-idle : (w : Row) → In w waiting → w.status ≢ "processing"
waiting-idle w (inl here) e = absurd (unlike (sym (ap (λ (r : Row). r.status) here) ∙ e))
  where
    unlike : ◌≢◌ {A = String} "pending" "processing"
    unlike = ground (arith, string_eq.test_iff "pending" "processing")
waiting-idle w (inr (inl here)) e = absurd (unlike (sym (ap (λ (r : Row). r.status) here) ∙ e))
  where
    unlike : ◌≢◌ {A = String} "pending" "processing"
    unlike = ground (arith, string_eq.test_iff "pending" "processing")
waiting-idle w (inr (inr m)) e = absurd m

busy-HasKeys : HasKeys busy
busy-HasKeys a b (inl p) (inl q) e = p ∙ sym q
busy-HasKeys a b (inl p) (inr (inl q)) e =
    absurd (differ (sym (ap (λ (r : Row). r.id) p) ∙ e ∙ ap (λ (r : Row). r.id) q))
  where
    differ : ◌≢◌ {A = ℕ} 7 8
    differ = ground arith
busy-HasKeys a b (inr (inl p)) (inl q) e =
    absurd (differ (sym (ap (λ (r : Row). r.id) p) ∙ e ∙ ap (λ (r : Row). r.id) q))
  where
    differ : ◌≢◌ {A = ℕ} 8 7
    differ = ground arith
busy-HasKeys a b (inr (inl p)) (inr (inl q)) e = p ∙ sym q
busy-HasKeys a b (inr (inr m)) n e = absurd m
busy-HasKeys a b m (inr (inr n)) e = absurd n

claim_next_event-First_example :
    (x : Row) × First "pending" waiting (some x)
    × (set_row 2 (set_status "processing") waiting ≡ set_row x.id (set_status "processing") waiting)
    × (2 ≡ x.id)
claim_next_event-First_example =
    claim_next_event-First none waiting (set_row 2 (set_status "processing") waiting)
      (event_of_row (answered 2 priority_critical "processing")) waiting-idle claim_in_order

claim_next_event-wrong_example :
    ◌≢◌ {A = ℕ} 7 8
    × (set_row 8 (set_status "processing") busy ≡ set_row 8 (set_status "processing") busy)
unfolding first_with
claim_next_event-wrong_example =
    claim_next_event-wrong none busy (set_row 8 (set_status "processing") busy)
      (event_of_row (answered 7 priority_critical "processing"))
      (answered 8 priority_normal "pending") (answered 7 priority_critical "processing")
      busy-HasKeys refl (inl refl) refl refl claim_behind
