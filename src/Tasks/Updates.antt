-- ===== src/Tasks/Updates.antt =====
-- What an update of a subtask does to the count of its task.
use ocg.Base.{
  ℕ, suc, ◌+◌, ◌≤◌, ◌≡◌, refl, sym, ap, ◌∙◌, subst, ◌⊎◌, inl, inr, Bool, true, false, ◌&&◌, some,
  String, if◌then◌else◌, leb, ◌==◌, string_eq, nat_eq, arith, Bool-cases, if_true, if_false,
  false-ne-true,
}
use ocg.Base.Map.{lookup, insert, lookup-insert_self}
use ocg.Tasks.{
  UserTask, UserSubtask, Tables, set_subtask, find_subtask, after_status, close_task, update_parent,
  update_found, update_subtask_status,
}
use ocg.Tasks.Counted.{one_if, of_task, done_of, Counted, finish, Unique, of_task-set, done_of-set}

after-counts :
    (now : ℕ) (status : String) (p : UserTask)
    → ((close_task now (after_status now status p)).total ≡ p.total)
      × ((close_task now (after_status now status p)).completed
          ≡ p.completed + one_if (status == "completed"))
after-counts now status p = elim (Bool-cases (status == "completed")) [
  | inl done ↦ closed _ (subst Shape (sym (if_true _ _ done)) (refl, one done))
  | inr other ↦ closed _ (
      subst Shape (sym (if_false _ _ other))
        (running (status == "running" && p.status == "pending") other))
]
  where
    Shape : UserTask → Type 0
    Shape q = (q.total ≡ p.total) × (q.completed ≡ p.completed + one_if (status == "completed"))

    one :
        (status == "completed") ≡ true
        → suc p.completed ≡ p.completed + one_if (status == "completed")
    one done = omega (arith, ap one_if done)

    none_more :
        (status == "completed") ≡ false → p.completed ≡ p.completed + one_if (status == "completed")
    none_more other = omega (arith, ap one_if other)

    running :
        (b : Bool)
        → (status == "completed") ≡ false
        → Shape (if b then record p { status = "running"; started_at = some now } else p)
    running true other = (refl, none_more other)
    running false other = (refl, none_more other)

    closed : (q : UserTask) → Shape q → Shape (close_task now q)
    closed q h = elim (Bool-cases (leb q.total q.completed)) [
      | inl full ↦ subst Shape (sym (if_true _ _ full)) h
      | inr open' ↦ subst Shape (sym (if_false _ _ open')) h
    ]

-- What an update of a subtask leaves of its task.
update-Updated :
    (now : ℕ) (sub status result : String) (t : Tables) (p : UserTask) (x : UserSubtask)
    → Unique t.subtasks
    → find_subtask sub t.subtasks ≡ some x
    → Counted x.task_id t p
    → let p' = close_task now (after_status now status p) in
      (t' : Tables) × (update_subtask_status true now sub status result t ≡ some t')
      × (lookup x.task_id t'.tasks ≡ some p')
      × (p'.total ≡ of_task x.task_id t'.subtasks)
      × (p'.completed ≡ done_of x.task_id t'.subtasks + one_if (x.status == "completed"))
unfolding update_subtask_status
update-Updated now sub status result t p x unique found (there, total, count) =
    let p' = close_task now (after_status now status p) in
    let xs = set_subtask sub (finish status result now) t.subtasks in
    let (same_total, more) = after-counts now status p in
    (
      record { tasks = insert x.task_id p' t.tasks; subtasks = xs },
      ap (update_found now sub status result t) found
          ∙ ap (update_parent now status x.task_id xs t) there,
      lookup-insert_self x.task_id p' t.tasks,
      same_total ∙ total ∙ sym (of_task-set x.task_id sub status result now t.subtasks),
      omega (arith, more, count, done_of-set sub status result now t.subtasks x unique found),
    )

close_task-status :
    (now : ℕ) (q : UserTask)
    → (q.total ≤ q.completed → (close_task now q).status ≡ "completed")
      × ((close_task now q).status ≡ "completed"
          → (q.status ≡ "completed") ⊎ (q.total ≤ q.completed))
close_task-status now q = elim (Bool-cases (leb q.total q.completed)) [
  | inl full ↦ (λ h. ap (λ (r : UserTask). r.status) (if_true _ _ full), λ h. inr (low full))
  | inr short ↦ (
    λ h. absurd (false-ne-true short (enough h)),
    λ h. inl (sym (ap (λ (r : UserTask). r.status) (if_false _ _ short)) ∙ h),
  )
]
  where
    low : leb q.total q.completed ≡ true → q.total ≤ q.completed
    low e = ground arith

    enough : q.total ≤ q.completed → leb q.total q.completed ≡ true
    enough h = ground arith

-- Where ids are unique and a task counts its subtasks and the completed ones among them, a
-- transaction that updates a subtask which is not completed keeps the counts, and the task is
-- completed where all its subtasks then are.
pub update_subtask_status-Counted :
    (now : ℕ) (sub status result : String) (t : Tables) (p : UserTask) (x : UserSubtask)
    → Unique t.subtasks
    → find_subtask sub t.subtasks ≡ some x
    → Counted x.task_id t p
    → (x.status == "completed") ≡ false
    → (t' : Tables) × (p' : UserTask) × (update_subtask_status true now sub status result t
        ≡ some t')
      × Counted x.task_id t' p'
      × (of_task x.task_id t'.subtasks ≤ done_of x.task_id t'.subtasks → p'.status ≡ "completed")
update_subtask_status-Counted now sub status result t p x unique found counted open' =
    let (t', done, there, total, count) =
      update-Updated now sub status result t p x unique found counted in
    let q = after_status now status p in
    let exact : (close_task now q).completed ≡ done_of x.task_id t'.subtasks =
      omega (arith, count, ap one_if open') in
    (
      t',
      close_task now q,
      done,
      (there, total, exact),
      λ all.
          closes q (of_task x.task_id t'.subtasks) (done_of x.task_id t'.subtasks) total exact all,
    )
  where
    closes :
        (q : UserTask) (n d : ℕ)
        → (close_task now q).total ≡ n
        → (close_task now q).completed ≡ d
        → n ≤ d
        → (close_task now q).status ≡ "completed"
    closes q n d a b h = (close_task-status now q).0 (fits (kept q) a b)
      where
        kept :
            (q : UserTask)
            → ((close_task now q).total ≡ q.total) × ((close_task now q).completed ≡ q.completed)
        kept q = elim (Bool-cases (leb q.total q.completed)) [
          | inl full ↦ (
            ap (λ (r : UserTask). r.total) (if_true _ _ full),
            ap (λ (r : UserTask). r.completed) (if_true _ _ full),
          )
          | inr short ↦ (
            ap (λ (r : UserTask). r.total) (if_false _ _ short),
            ap (λ (r : UserTask). r.completed) (if_false _ _ short),
          )
        ]

        fits :
            ((close_task now q).total ≡ q.total) × ((close_task now q).completed ≡ q.completed)
            → (close_task now q).total ≡ n
            → (close_task now q).completed ≡ d
            → q.total ≤ q.completed
        fits (a', b') a b = omega (arith, a', b', a, b, h)

-- A subtask that is reported again as completed is counted again: the task has one more completed than
-- it has completed subtasks.
update_subtask_status-again :
    (now : ℕ) (sub result : String) (t : Tables) (p : UserTask) (x : UserSubtask)
    → Unique t.subtasks
    → find_subtask sub t.subtasks ≡ some x
    → Counted x.task_id t p
    → (x.status == "completed") ≡ true
    → (t' : Tables) × (p' : UserTask) × (update_subtask_status true now sub "completed" result t
        ≡ some t')
      × (lookup x.task_id t'.tasks ≡ some p')
      × (p'.completed ≡ suc (done_of x.task_id t'.subtasks))
update_subtask_status-again now sub result t p x unique found counted again =
    let (t', done, there, total, count) =
      update-Updated now sub "completed" result t p x unique found counted in
    (
      t',
      close_task now (after_status now "completed" p),
      done,
      there,
      omega (arith, count, ap one_if again),
    )
