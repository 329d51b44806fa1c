-- ===== src/Pulse/Ticks.antt =====
-- What a tick of the pulse does with the event it takes.
use ocg.Base.{
  ℕ, ◌||◌, ◌≡◌, refl, sym, ap, ◌∙◌, subst, inl, inr, Bool, true, false, not, ◌&&◌, List, [], ◌∷◌,
  ◌++◌, Option, none, some, String, if◌then◌else◌, ◌==◌, string_eq, nat_eq, Bool-cases, if_true,
  if_false,
}
use ocg.Events.{
  Row, Event, Fetched, nothing, failed, found, priority_critical, priority_high, priority_normal,
  priority_low, event_of, text_or_null, scan, first_with, set_row, set_status, clear_old_events,
  update_event_status, peek_next_event, claim_next_event, claim_found, commit,
}
use ocg.Pulse.{
  PulseHandler, Callbacks, Call, broadcast, event_done, hook, Processed, Writes, Moment,
  process_event, is_hook, say, process_claimed, tick, tick_peeked, unchanged, finish_said,
  should_process_event,
}
use text.Mathlib.Text.{starts_with}

abbrev pub Plain : Fetched → Type 0
Plain nothing = Unit
Plain failed = Unit
Plain (found e) = e.event_type ≡ ""

module _ (null_text : Option String) where
  scan-Plain : (o : Option Row) → Plain (scan null_text o)
  scan-Plain none = tt
  scan-Plain (some x) = go (text_or_null null_text x.response)
    where
      go : (r : Option String) → Plain (event_of null_text x r)
      go none = tt
      go (some r) = refl

  claim-Plain : (w : Bool) (t : List Row) → Plain (claim_next_event null_text w t).0
  unfolding claim_next_event
  claim-Plain false t = tt
  claim-Plain true t = go (first_with "pending" t)
    where
      done : (u v : List Row) (f : Fetched) → Plain f → Plain (commit null_text u v f).0
      done u v nothing p = tt
      done u v failed p = tt
      done u v (found e) p = p

      go : (o : Option Row) → Plain (claim_found null_text t o).0
      go none = tt
      go (some x) = done t (set_row x.id (set_status "processing") t) _ (scan-Plain _)

-- No call of a hook, and the handler free for the next event.
abbrev pub NoHook : Call → Type 0
NoHook (broadcast m l ch) = Unit
NoHook (event_done id r es) = Unit
NoHook (hook n) = ⊥

abbrev pub NoHooks : List Call → Type 0
NoHooks [] = Unit
NoHooks (c ∷ cs) = NoHook c × NoHooks cs

abbrev pub Settled : Processed → Type 0
Settled p = (p.handler.is_processing ≡ false) × (p.handler.current_event ≡ none) × NoHooks p.calls

plain-not_hook : (e : Event) → e.event_type ≡ "" → is_hook e ≡ false
plain-not_hook e p = ap (λ s. not (s == "") && starts_with s "hook:") p

say-NoHooks :
    (cb : Option (String → ℕ → String → Option String)) (m : String) (l : ℕ) (ch : String)
    → NoHooks (say cb m l ch).1
say-NoHooks none m l ch = tt
say-NoHooks (some f) m l ch = (tt, tt)

append-NoHooks : (xs ys : List Call) → NoHooks xs → NoHooks ys → NoHooks (xs ++ ys)
append-NoHooks [] ys p q = q
append-NoHooks (x ∷ xs) ys (p, ps) q = (p, append-NoHooks xs ys ps q)

finish_said-Settled :
    (c : Callbacks) (w : Writes) (now : ℕ) (h : PulseHandler) (t : List Row) (e : Event)
    (r : String) (said : List String × List Call)
    → NoHooks said.1
    → Settled (finish_said c w now h t e r said)
finish_said-Settled c w now h t e r said quiet =
    (refl, refl, append-NoHooks said.1 _ quiet (told c.on_event))
  where
    told : (b : Bool) → NoHooks (if b then event_done e.id r said.0 ∷ [] else [])
    told true = (tt, tt)
    told false = tt

-- The handler and the table once an event is taken.
abbrev pub taken : PulseHandler → Event → PulseHandler
taken h e = record h { is_processing = true; current_event = some e }

abbrev pub marked : Writes → ℕ → List Row → Event → List Row
marked w now t e =
    if e.status == "processing" then t else update_event_status w.mark now e.id "processing" t

-- An event that is no event of hooks leaves the handler free again, whatever its priority and whatever
-- its callbacks answer, and calls no hook.
process_event-Settled :
    (c : Callbacks) (w : Writes) (now : ℕ) (errors : List String) (h : PulseHandler) (t : List Row)
    (e : Event)
    → is_hook e ≡ false
    → Settled (process_event c w now errors h t e)
unfolding process_event
process_event-Settled c w now errors h t e plain =
    elim (Bool-cases (e.priority == priority_critical)) [
      | inl critical ↦ subst Settled (sym (if_true _ _ critical)) (
          finish_said-Settled c w now (taken h e) (marked w now t e) e _ _
            (say-NoHooks c.on_broadcast _ _ _))
      | inr other ↦
          subst Settled (sym (if_false _ _ other))
            (elim (Bool-cases (e.priority == priority_high)) [
              | inl high ↦ subst Settled (sym (if_true _ _ high ∙ if_false _ _ plain)) (
                  finish_said-Settled c w now (taken h e) (marked w now t e) e _ _
                    (say-NoHooks c.on_broadcast _ _ _))
              | inr low ↦
                  subst Settled (sym (if_false _ _ low))
                    (elim (Bool-cases (
                      (e.priority == priority_normal || e.priority == priority_low)
                      && h.config.llm_enabled
                      && c.on_llm_process)) [
                        | inl asked ↦ subst Settled (sym (if_true _ _ asked)) (refl, refl, tt)
                        | inr direct ↦ subst Settled (sym (if_false _ _ direct)) (
                            finish_said-Settled c w now (taken h e) (marked w now t e) e "" ([], [])
                              tt)
                      ])
            ])
    ]

-- A tick calls no hook and, from a handler that is free, leaves it free: the queries do not read the
-- columns that tell an event of hooks.
pub tick-NoHooks :
    (null_text : Option String) (c : Callbacks) (m : Moment) (h : PulseHandler) (t : List Row)
    → let p = tick null_text c m h t in
      NoHooks p.calls × (h.is_processing ≡ false → p.handler.is_processing ≡ false)
unfolding tick
tick-NoHooks null_text c m h t = go (peek_next_event null_text m.peeks t)
  where
    Calm : Processed → Type 0
    Calm p = NoHooks p.calls × (h.is_processing ≡ false → p.handler.is_processing ≡ false)

    still : (u : List Row) → Calm (unchanged h u)
    still u = (tt, λ f. f)

    claimed : (f : Fetched × List Row) → Plain f.0 → Calm (process_claimed c m h t f)
    claimed (nothing, u) p = still u
    claimed (failed, u) p = still u
    claimed (found e, u) p =
        let s = process_event-Settled c m.writes m.now m.hook_errors h u e (plain-not_hook e p) in
        (s.2, λ _. s.0)

    go : (f : Fetched) → Calm (tick_peeked null_text c m h t f)
    go failed = still t
    go nothing = elim (Bool-cases m.minute_begins) [
      | inl begins ↦
          subst Calm (sym (if_true _ _ begins))
            (still (clear_old_events m.now h.config.cleanup_hours t))
      | inr later ↦ subst Calm (sym (if_false _ _ later)) (still t)
    ]
    go (found e) = elim (Bool-cases (should_process_event h e)) [
      | inl now_due ↦
          subst Calm (sym (if_true _ _ now_due))
            (claimed (claim_next_event null_text m.claims t) (claim-Plain null_text m.claims t))
      | inr left ↦ subst Calm (sym (if_false _ _ left)) (still t)
    ]
