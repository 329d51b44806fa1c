-- ===== src/Tasks/Tests.antt =====
-- A task with two subtasks.
use ocg.Base.{
  ℕ, suc, ◌≤◌, ◌≢◌, ◌≡◌, refl, sym, ap, ◌∙◌, zero, true, [], ◌∷◌, none, some, String, inl, inr,
  arith, string_eq, nat_eq,
}
use ocg.Base.Map.{lookup, insert}
use ocg.Tasks.{UserTask, UserSubtask, Tables, update_subtask_status, create_user_task}
use ocg.Tasks.Counted.{of_task, done_of, Counted, Unique}
use ocg.Tasks.Updates.{update_subtask_status-Counted}

-- Numbers as this test needs them.
abbrev decimal : ℕ → String
decimal zero = "0"
decimal (suc n) = "1"

abbrev part : ℕ → String → String → UserSubtask
part i id status = record {
  id = id;
  task_id = "t";
  index_num = i;
  description = "write";
  status = status;
  result = none;
  process = none;
  started_at = none;
  completed_at = none;
}

abbrev book : ℕ → UserTask
book n = record {
  session = "s";
  created_at = 5;
  completed_at = none;
  started_at = none;
  total = 2;
  completed = n;
  status = "pending";
  instructions = "a book";
}

abbrev at_first : Tables
at_first = record {
  tasks = ("t", book 0) ∷ [];
  subtasks = part 0 "t-sub0" "pending" ∷ part 1 "t-sub1" "pending" ∷ [];
}

abbrev half_done : Tables
half_done = record {
  tasks = ("t", book 1) ∷ [];
  subtasks = part 0 "t-sub0" "completed" ∷ part 1 "t-sub1" "pending" ∷ [];
}

created :
    create_user_task decimal true 5 "t" "s" "a book"
      ("write" ∷ "write" ∷ [])
      (record { tasks = []; subtasks = [] })
    ≡ some at_first
unfolding create_user_task lookup insert
created = refl

two_parts-Unique : (a b : String) → Unique (part 0 "t-sub0" a ∷ part 1 "t-sub1" b ∷ [])
two_parts-Unique a b =
    (λ y m. elim m [ inl here ↦ apart y here | inr there ↦ absurd there ], (λ y m. absurd m, tt))
  where
    apart : (y : UserSubtask) → y ≡ part 1 "t-sub1" b → y.id ≢ "t-sub0"
    apart y here e = absurd (differ (sym (ap (λ (z : UserSubtask). z.id) here) ∙ e))
      where
        differ : ◌≢◌ {A = String} "t-sub1" "t-sub0"
        differ = ground (arith, string_eq.test_iff "t-sub1" "t-sub0")

update_subtask_status-Counted_example :
    (t' : Tables) × (p' : UserTask) × (update_subtask_status true 9 "t-sub0" "completed" "ok"
        at_first
      ≡ some t')
    × Counted "t" t' p'
    × (of_task "t" t'.subtasks ≤ done_of "t" t'.subtasks → p'.status ≡ "completed")
unfolding lookup
update_subtask_status-Counted_example =
    update_subtask_status-Counted 9 "t-sub0" "completed" "ok" at_first (book 0)
      (part 0 "t-sub0" "pending") (two_parts-Unique "pending" "pending") refl (refl, refl, refl)
      refl
