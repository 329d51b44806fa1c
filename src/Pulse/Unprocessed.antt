-- ===== src/Pulse/Unprocessed.antt =====
-- The events of a new database are never handled: their response is NULL, and the queries scan it
-- into a string.
use ocg.Base.{
  ℕ, ◌≡◌, refl, sym, ap, ◌∙◌, subst, inl, inr, Bool, true, false, not, List, [], ◌∷◌, ◌++◌, Option,
  none, some, String, string_eq, arith, In, All, Bool-cases, if_true, if_false,
}
use ocg.Events.{
  Row, nothing, add_event, add_hook_event, scan, event_of, text_or_null, first_with,
  peek_next_event, clear_old_events, is_old,
}
use mathlib.Core.List.{append-nil}
use ocg.Events.Order.{First, first_with-First}
use ocg.Pulse.{PulseHandler, Callbacks, Call, Processed, Moment, tick, tick_peeked, unchanged}

-- What happens to the table from outside and by the heartbeat.
pub data Action : Type 0 where
  add : ℕ → ℕ → String → String → ℕ → String → Action
  add_hook : ℕ → ℕ → String → String → String → String → Action
  beat : Moment → Action

pub record World : Type 0 where
  pub handler : PulseHandler
  pub table : List Row
  pub calls : List Call

-- A row as it was inserted.
abbrev pub IsFresh : Row → Type 0
IsFresh x = (x.status ≡ "pending") × (x.response ≡ none)

fresh-not_old : (cutoff : ℕ) (x : Row) → IsFresh x → is_old cutoff x ≡ false
fresh-not_old cutoff x (st, r) = ground (
  arith,
  string_eq.test_iff x.status "completed",
  string_eq.test_iff x.status "dismissed",
  string_eq.test_iff x.status "pending",
  string_eq.test_iff "pending" "completed",
  string_eq.test_iff "pending" "dismissed",
  st,
)

clear-fresh : (now hours : ℕ) (t : List Row) → All IsFresh t → clear_old_events now hours t ≡ t
unfolding clear_old_events
clear-fresh now hours [] f = refl
clear-fresh now hours (x ∷ t) (f, fs) =
    if_true _ _ (ap not (fresh-not_old _ x f)) ∙ ap (◌∷◌ x) (clear-fresh now hours t fs)

All-append : (xs ys : List Row) → All IsFresh xs → All IsFresh ys → All IsFresh (xs ++ ys)
All-append [] ys f g = g
All-append (x ∷ xs) ys (f, fs) g = (f, All-append xs ys fs g)

All-In : (t : List Row) (x : Row) → All IsFresh t → In x t → IsFresh x
All-In [] x f m = absurd m
All-In (y ∷ t) x (f, fs) (inl here) = subst IsFresh (sym here) f
All-In (y ∷ t) x (f, fs) (inr there) = All-In t x fs there

added :
    (id now : ℕ) (title content : String) (priority : ℕ) (channel : String) (t : List Row)
    → All IsFresh t
    → All IsFresh (add_event id now title content priority channel t)
unfolding add_event
added id now title content priority channel t f = All-append t _ f ((refl, refl), tt)

added_hook :
    (id now : ℕ) (event_type hook_name content metadata : String) (t : List Row)
    → All IsFresh t
    → All IsFresh (add_hook_event id now event_type hook_name content metadata t)
unfolding add_hook_event
added_hook id now event_type hook_name content metadata t f = All-append t _ f ((refl, refl), tt)

module _ (c : Callbacks) where
  abbrev pub act : Option String → World → Action → World
  act nt s (add id now title content priority channel) = record s {
    table = add_event id now title content priority channel s.table;
  }
  act nt s (add_hook id now event_type hook_name content metadata) = record s {
    table = add_hook_event id now event_type hook_name content metadata s.table;
  }
  act nt s (beat m) =
      let p = tick nt c m s.handler s.table in
      record { handler = p.handler; table = p.table; calls = s.calls ++ p.calls }

  abbrev pub run : Option String → World → List Action → World
  run nt s [] = s
  run nt s (a ∷ as') = run nt (act nt s a) as'

  tick-fresh :
      (nt : Option String) (m : Moment) (h : PulseHandler) (t : List Row)
      → nt ≡ none
      → All IsFresh t
      → tick nt c m h t ≡ unchanged h t
  unfolding tick peek_next_event
  tick-fresh nt m h t null fresh = peeked m.peeks refl
    where
      cleaned : tick_peeked nt c m h t nothing ≡ unchanged h t
      cleaned = elim (Bool-cases m.minute_begins) [
        | inl begins ↦ if_true _ _ begins ∙ ap (unchanged h) (clear-fresh _ _ t fresh)
        | inr later ↦ if_false _ _ later
      ]

      go :
          (o : Option Row)
          → First "pending" t o
          → tick_peeked nt c m h t (scan nt o) ≡ unchanged h t
      go none f = cleaned
      go (some x) (m', st, least) =
          let response = (All-In t x fresh m').1 in
          ap (λ r. tick_peeked nt c m h t (event_of nt x r)) (ap (text_or_null nt) response ∙ null)

      peeked :
          (b : Bool)
          → m.peeks ≡ b
          → tick_peeked nt c m h t (peek_next_event nt m.peeks t) ≡ unchanged h t
      peeked false e = ap (λ b. tick_peeked nt c m h t (peek_next_event nt b t)) e
      peeked true e =
          ap (λ b. tick_peeked nt c m h t (peek_next_event nt b t)) e
          ∙ go (first_with "pending" t) (first_with-First "pending" t)

  -- Where database/sql refuses a NULL for a string and all rows are pending with no response, as they
  -- are inserted, no event is ever handled: after any additions and heartbeats all rows are pending with
  -- no response, the handler is as it was, and nothing was called.
  pub run-unprocessed :
      (nt : Option String) (s : World) (as' : List Action)
      → nt ≡ none
      → All IsFresh s.table
      → All IsFresh (run nt s as').table
        × ((run nt s as').handler ≡ s.handler)
        × ((run nt s as').calls ≡ s.calls)
  run-unprocessed nt s [] null fresh = (fresh, refl, refl)
  run-unprocessed nt s (add id now title content priority channel ∷ as') null fresh =
      run-unprocessed nt (act nt s (add id now title content priority channel)) as' null
        (added id now title content priority channel s.table fresh)
  run-unprocessed nt s (add_hook id now event_type hook_name content metadata ∷ as') null fresh =
      run-unprocessed nt (act nt s (add_hook id now event_type hook_name content metadata)) as' null
        (added_hook id now event_type hook_name content metadata s.table fresh)
  run-unprocessed nt s (beat m ∷ as') null fresh =
      subst
        (λ (w : World).
          All IsFresh (run nt w as').table
          × ((run nt w as').handler ≡ s.handler)
          × ((run nt w as').calls ≡ s.calls))
        (sym same) (run-unprocessed nt s as' null fresh)
    where
      beaten : Processed → World
      beaten p = record { handler = p.handler; table = p.table; calls = s.calls ++ p.calls }

      same : act nt s (beat m) ≡ s
      same =
          ap beaten (tick-fresh nt m s.handler s.table null fresh)
          ∙ ap (λ (l : List Call). record s { calls = l }) (append-nil s.calls)
