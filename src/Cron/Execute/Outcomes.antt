-- ===== src/Cron/Execute/Outcomes.antt =====
-- What a run leaves: its calls, the state of its job and its entry agree.
use ocg.Base.{
  ℕ, suc, ◌≡◌, ◌≢◌, arith, refl, sym, ap, ◌∙◌, subst, ◌⊎◌, inl, inr, true, false, [], ◌∷◌, ◌++◌,
  Option, none, some, String, ◌==◌, string_eq, Bool-cases, if_true, if_false,
}
use ocg.Base.Int.{ℤ, pos, ◌-ℤ◌}
use ocg.Cron.{Job, RunHistoryEntry, Delivery, schedule_kind_at, delivery_mode_announce}
use ocg.Cron.Next.{TimeData, calculate_next_run}
use ocg.Cron.Store.{is_due}
use ocg.Cron.Execute.{
  Callbacks, Call, broadcast, webhook, Outcome, finish_run, run_entry, settle, with_next, retire,
  or_empty, deliver, deliver_broadcast, deliver_webhook, keep_error, webhook_url,
}

-- The state and the entry of a run that ended as `o` says.
abbrev pub Agrees : Outcome → Job → Job → RunHistoryEntry → Type 0
Agrees o before after entry =
    (entry.status ≡ after.state.last_status)
    × (entry.job_id ≡ before.id)
    × (((o.error ≡ none)
          × (after.state.last_status ≡ "ok")
          × (after.state.consecutive_errors ≡ 0)
          × (entry.error ≡ ""))
        ⊎ ((e : String) × (o.error ≡ some e)
            × (after.state.last_status ≡ "error")
            × (after.state.consecutive_errors ≡ suc before.state.consecutive_errors)
            × (entry.error ≡ e)))

some-injective {ℓ} : {A : Type ℓ} {a b : A} → some a ≡ some b → a ≡ b
some-injective q = cc

-- Whatever a run ends with, the job's status, its count of consecutive errors and the entry in the
-- history say the same: ok and no errors in a row without an error, one more with one.
pub finish_run-Agrees :
    (t : TimeData) (fuel : ℕ) (started : ℤ) (now : ℕ) (o : Outcome) (job job' : Job)
    → finish_run t fuel started now o job ≡ some job'
    → Agrees o job job' (run_entry started now o job')
unfolding finish_run run_entry
finish_run-Agrees t fuel started now o job job' e =
    go (calculate_next_run t fuel now (settle o.error (pos now -ℤ started) job)) e
  where
    ended :
        (err : Option String)
        → o.error ≡ err
        → (next : ℤ)
        → let j = retire (record (settle err (pos now -ℤ started) job) {
          state = record (settle err (pos now -ℤ started) job).state { next_run_at_ms = next };
        }) in
          Agrees o job j (run_entry started now o j)
    ended none p next = (refl, refl, inl (p, refl, refl, ap or_empty p))
    ended (some m) p next = (refl, refl, inr (m, p, refl, refl, ap or_empty p))

    go :
        (n : Option ℤ)
        → with_next (settle o.error (pos now -ℤ started) job) n ≡ some job'
        → Agrees o job job' (run_entry started now o job')
    go none q = cc
    go (some next) q =
        subst (λ j. Agrees o job j (run_entry started now o j)) (some-injective q)
          (ended o.error refl next)

-- A one-shot job that is to be deleted after its run is not due again, whatever the run ended with.
pub finish_run-retires :
    (t : TimeData) (fuel : ℕ) (started : ℤ) (now : ℕ) (o : Outcome) (job job' : Job)
    → finish_run t fuel started now o job ≡ some job'
    → (job.schedule.kind == schedule_kind_at) ≡ true
    → job.delete_after_run ≡ true
    → (later : ℕ) → is_due later job' ≡ false
unfolding finish_run is_due
finish_run-retires t fuel started now o job job' e once deletes later =
    go o.error (calculate_next_run t fuel now (settle o.error (pos now -ℤ started) job)) e
  where
    go :
        (err : Option String) (n : Option ℤ)
        → with_next (settle err (pos now -ℤ started) job) n ≡ some job'
        → is_due later job' ≡ false
    go err none q = cc
    go none (some next) q =
        subst (λ (j : Job). is_due later j ≡ false) (some-injective q) (rw (once, deletes) refl)
    go (some m) (some next) q =
        subst (λ (j : Job). is_due later j ≡ false) (some-injective q) (rw (once, deletes) refl)

-- An outcome after one call more, whose error replaces the turn's unless the delivery is best effort.
abbrev pub after_call : Delivery → Outcome → Call → Option String → Outcome
after_call d o call answer = record {
  error = keep_error d o.error answer;
  result = o.result;
  calls = o.calls ++ call ∷ [];
}

-- What a delivery to a channel does to an outcome with a result.
abbrev pub Announced : Callbacks → Delivery → Outcome → Outcome → Type 0
Announced c d o o' =
    ((c.on_broadcast ≡ none) × (o' ≡ o))
    ⊎ ((cb : String → String → String → Option String) × (c.on_broadcast ≡ some cb)
        × (o' ≡ after_call d o (broadcast o.result d.channel d.to) (cb o.result d.channel d.to)))

-- What a delivery to a webhook does to it.
abbrev pub Posted : Callbacks → Delivery → Outcome → Outcome → Type 0
Posted c d o o' =
    ((c.on_webhook ≡ none) × (o' ≡ o))
    ⊎ (((webhook_url d == "") ≡ true) × (o' ≡ o))
    ⊎ ((cb : String → String → Option String) × (c.on_webhook ≡ some cb)
        × ((webhook_url d == "") ≡ false)
        × (o' ≡ after_call d o (webhook (webhook_url d) o.result) (cb (webhook_url d) o.result)))

abbrev pub Delivered : Callbacks → Delivery → Outcome → Outcome → Type 0
Delivered c d o o' =
    (((o.result == "") ≡ true) × (o' ≡ o))
    ⊎ (((o.result == "") ≡ false) × (d.mode ≡ delivery_mode_announce) × Announced c d o o')
    ⊎ (((o.result == "") ≡ false) × (d.mode ≡ "webhook") × Posted c d o o')
    ⊎ ((d.mode ≢ delivery_mode_announce) × (d.mode ≢ "webhook") × (o' ≡ o))

-- A delivery does nothing for an empty result and for another mode than the two; it announces to the
-- channel, or posts to the webhook where there is an address, once, if there is a callback for that;
-- and it replaces the error of the turn only by the callback's own, when it is not best effort.
deliver-Delivered :
    (c : Callbacks) (d : Delivery) (o : Outcome) → Delivered c d o (deliver c (some d) o)
unfolding deliver
deliver-Delivered c d o = elim (Bool-cases (o.result == "")) [
  | inl empty ↦ inl (empty, if_true _ _ empty)
  | inr full ↦
      subst (Delivered c d o) (sym (if_false o _ full))
        (elim (Bool-cases (d.mode == delivery_mode_announce)) [
          | inl announce ↦ subst (Delivered c d o) (sym (if_true _ _ announce)) (
              inr
                (inl (full, (string_eq.test_iff _ _).0 announce, by_broadcast c.on_broadcast refl)))
          | inr other ↦
              subst (Delivered c d o) (sym (if_false _ _ other))
                (elim (Bool-cases (d.mode == "webhook")) [
                  | inl hook ↦ subst (Delivered c d o) (sym (if_true _ _ hook)) (
                      inr (
                        inr (
                          inl
                            (full, (string_eq.test_iff _ _).0 hook, by_webhook c.on_webhook refl))))
                  | inr neither ↦
                      inr (inr (inr (differs other, differs neither, if_false _ _ neither)))
                ])
        ])
]
  where
    differs : {m : String} → (d.mode == m) ≡ false → d.mode ≢ m
    differs {m} f e = ground (arith, string_eq.test_iff d.mode m)

    by_broadcast :
        (cb : Option (String → String → String → Option String))
        → c.on_broadcast ≡ cb
        → Announced c d o (deliver_broadcast cb d o)
    by_broadcast none p = inl (p, refl)
    by_broadcast (some cb) p = inr (cb, p, refl)

    by_webhook :
        (cb : Option (String → String → Option String))
        → c.on_webhook ≡ cb
        → Posted c d o (deliver_webhook cb d o)
    by_webhook none p = inl (p, refl)
    by_webhook (some cb) p = elim (Bool-cases (webhook_url d == "")) [
      | inl nowhere ↦ inr (inl (nowhere, if_true _ _ nowhere))
      | inr somewhere ↦ inr (inr (cb, p, somewhere, if_false _ _ somewhere))
    ]

-- A delivery that is made with best effort never changes whether and with what error the run failed.
best_effort_keeps :
    (c : Callbacks) (d : Delivery) (o : Outcome)
    → d.best_effort ≡ true
    → (deliver c (some d) o).error ≡ o.error
best_effort_keeps c d o best = elim (deliver-Delivered c d o) [
  | inl (e, same) ↦ error_of same
  | inr (inl (f, m, inl (n, same))) ↦ error_of same
  | inr (inl (f, m, inr (cb, p, is))) ↦ error_of is ∙ kept (cb o.result d.channel d.to)
  | inr (inr (inl (f, m, inl (n, same)))) ↦ error_of same
  | inr (inr (inl (f, m, inr (inl (n, same))))) ↦ error_of same
  | inr (inr (inl (f, m, inr (inr (cb, p, u, is))))) ↦
      error_of is ∙ kept (cb (webhook_url d) o.result)
  | inr (inr (inr (m, n, same))) ↦ error_of same
]
  where
    error_of : {a b : Outcome} → a ≡ b → a.error ≡ b.error
    error_of e = ap (λ (p : Outcome). p.error) e

    kept : (a : Option String) → keep_error d o.error a ≡ o.error
    kept none = refl
    kept (some e) = if_true _ _ best
