-- ===== src/Tasks/Counted.antt =====
-- The count of the completed subtasks of a task.
use ocg.Base.{
  ℕ, ◌+◌, ◌≡◌, ◌≢◌, refl, sym, ap, ◌∙◌, subst, inl, inr, Bool, true, false, ◌&&◌, List, [], ◌∷◌,
  Option, none, some, String, ◌==◌, string_eq, nat_eq, arith, In, Bool-cases, if_true, if_false,
}
use ocg.Base.Map.{lookup}
use ocg.Tasks.{UserTask, UserSubtask, Tables, set_subtask, find_subtask}

abbrev pub one_if : Bool → ℕ
one_if true = 1
one_if false = 0

-- The subtasks of a task, and those of them that are completed.
abbrev pub of_task : String → List UserSubtask → ℕ
of_task id [] = 0
of_task id (x ∷ xs) = one_if (x.task_id == id) + of_task id xs

abbrev pub done_of : String → List UserSubtask → ℕ
done_of id [] = 0
done_of id (x ∷ xs) = one_if (x.task_id == id && x.status == "completed") + done_of id xs

-- What the columns of a task say of its subtasks.
abbrev pub Counted : String → Tables → UserTask → Type 0
Counted id t p =
    (lookup id t.tasks ≡ some p)
    × (p.total ≡ of_task id t.subtasks)
    × (p.completed ≡ done_of id t.subtasks)

abbrev pub finish : String → String → ℕ → UserSubtask → UserSubtask
finish status result now y = record y {
  status = status;
  result = some result;
  completed_at = some now;
}

-- Ids are unique.
abbrev pub Unique : List UserSubtask → Type 0
Unique [] = Unit
Unique (x ∷ xs) = ((y : UserSubtask) → In y xs → y.id ≢ x.id) × Unique xs

pub of_task-set :
    (task id status result : String) (now : ℕ) (xs : List UserSubtask)
    → of_task task (set_subtask id (finish status result now) xs) ≡ of_task task xs
of_task-set task id status result now [] = refl
of_task-set task id status result now (x ∷ xs) = elim (Bool-cases (x.id == id)) [
  | inl same ↦
      rw same (ap (λ n. one_if (x.task_id == task) + n) (of_task-set task id status result now xs))
  | inr other ↦
      rw other (ap (λ n. one_if (x.task_id == task) + n) (of_task-set task id status result now xs))
]

untouched :
    (id status result : String) (now : ℕ) (xs : List UserSubtask)
    → ((y : UserSubtask) → In y xs → y.id ≢ id)
    → set_subtask id (finish status result now) xs ≡ xs
untouched id status result now [] f = refl
untouched id status result now (x ∷ xs) f =
    ap (λ y. y ∷ set_subtask id (finish status result now) xs)
      (if_false _ x (differ (f x (inl refl))))
    ∙ ap (◌∷◌ x) (untouched id status result now xs (λ y m. f y (inr m)))
  where
    differ : x.id ≢ id → (x.id == id) ≡ false
    differ ne = ground (arith, string_eq.test_iff x.id id)

-- The row that is found counts once before and once after.
pub done_of-set :
    (id status result : String) (now : ℕ) (xs : List UserSubtask) (x : UserSubtask)
    → Unique xs
    → find_subtask id xs ≡ some x
    → done_of x.task_id (set_subtask id (finish status result now) xs)
        + one_if (x.status == "completed")
      ≡ done_of x.task_id xs + one_if (status == "completed")
done_of-set id status result now [] x u f = absurd (none_found f)
  where
    none_found : ◌≡◌ {A = Option UserSubtask} none (some x) → ⊥
    none_found q = cc
done_of-set id status result now (y ∷ xs) x (fresh, u) f = elim (Bool-cases (y.id == id)) [
  | inl same ↦ here same (value (sym (if_true (some y) (find_subtask id xs) same) ∙ f))
  | inr other ↦ later other (
      done_of-set id status result now xs x u
        (sym (if_false (some y) (find_subtask id xs) other) ∙ f))
]
  where
    value : {a b : UserSubtask} → some a ≡ some b → a ≡ b
    value {a} q = ap (or_first a) q
      where
        or_first : UserSubtask → Option UserSubtask → UserSubtask
        or_first d none = d
        or_first d (some v) = v

    later :
        (y.id == id) ≡ false
        → done_of x.task_id (set_subtask id (finish status result now) xs)
            + one_if (x.status == "completed")
          ≡ done_of x.task_id xs + one_if (status == "completed")
        → done_of x.task_id (set_subtask id (finish status result now) (y ∷ xs))
            + one_if (x.status == "completed")
          ≡ done_of x.task_id (y ∷ xs) + one_if (status == "completed")
    later other ih = rw other (omega (arith, ih))

    here :
        (y.id == id) ≡ true
        → y ≡ x
        → done_of x.task_id (set_subtask id (finish status result now) (y ∷ xs))
            + one_if (x.status == "completed")
          ≡ done_of x.task_id (y ∷ xs) + one_if (status == "completed")
    here same e =
        subst
          (λ (v : UserSubtask).
            done_of v.task_id (set_subtask id (finish status result now) (y ∷ xs))
              + one_if (v.status == "completed")
            ≡ done_of v.task_id (y ∷ xs) + one_if (status == "completed"))
          e
          (rw same (
            rw
              (untouched id status result now xs
                (λ z m q. fresh z m (q ∙ sym ((string_eq.test_iff y.id id).0 same))))
              counts))
      where
        self : (y.task_id == y.task_id) ≡ true
        self = (string_eq.test_iff y.task_id y.task_id).1 refl

        counts :
            one_if (y.task_id == y.task_id && status == "completed")
              + done_of y.task_id xs
              + one_if (y.status == "completed")
            ≡ one_if (y.task_id == y.task_id && y.status == "completed")
              + done_of y.task_id xs
              + one_if (status == "completed")
        counts =
            ap
              (λ b.
                one_if (b && status == "completed")
                + done_of y.task_id xs
                + one_if (y.status == "completed"))
              self
            ∙ omega arith
            ∙ sym (
                ap
                  (λ b.
                    one_if (b && y.status == "completed")
                    + done_of y.task_id xs
                    + one_if (status == "completed"))
                  self)
