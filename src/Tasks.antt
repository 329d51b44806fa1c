-- ===== src/Tasks.antt =====
-- storage/storage.go: the tasks of a user and their subtasks. A table of tasks is a map from ids, one of
-- subtasks the list of its rows. The success of a transaction is an argument; what fmt prints for the
-- number of a subtask is a parameter. Instants are milliseconds.
pub mod Counted
pub mod Updates
mod Tests
use ocg.Base.{
  ℕ, suc, ◌+◌, Bool, true, false, ◌&&◌, List, [], ◌∷◌, ◌++◌, Option, none, some, String,
  if◌then◌else◌, leb, keep, length, ◌==◌, nat_eq, string_eq,
}
use ocg.Base.Map.{Map, lookup, insert}
use Prim.Native.String.{◌++◌ as text_append}

pub record UserTask : Type 0 where
  pub session : String
  pub created_at : ℕ
  pub completed_at : Option ℕ
  pub started_at : Option ℕ
  pub total : ℕ
  pub completed : ℕ
  pub status : String
  pub instructions : String

pub record UserSubtask : Type 0 where
  pub id : String
  pub task_id : String
  pub index_num : ℕ
  pub description : String
  pub status : String
  pub result : Option String
  pub process : Option String
  pub started_at : Option ℕ
  pub completed_at : Option ℕ

pub record Tables : Type 0 where
  pub tasks : Map String UserTask
  pub subtasks : List UserSubtask

abbrev pub set_subtask : String → (UserSubtask → UserSubtask) → List UserSubtask → List UserSubtask
set_subtask id f [] = []
set_subtask id f (x ∷ xs) = (if x.id == id then f x else x) ∷ set_subtask id f xs

abbrev pub find_subtask : String → List UserSubtask → Option UserSubtask
find_subtask id [] = none
find_subtask id (x ∷ xs) = if x.id == id then some x else find_subtask id xs

unfoldable pub start_subtask : ℕ → String → Tables → Tables
start_subtask now id t = record t {
  subtasks =
      set_subtask id (λ x. record x { status = "running"; started_at = some now }) t.subtasks;
}

unfoldable pub update_subtask_process : String → String → Tables → Tables
update_subtask_process id process t = record t {
  subtasks = set_subtask id (λ x. record x { process = some process }) t.subtasks;
}

-- The parent's count or status after an update of a subtask.
abbrev pub after_status : ℕ → String → UserTask → UserTask
after_status now status p =
    if status == "completed"
    then record p { completed = suc p.completed }
    else if status == "running" && p.status == "pending"
    then record p { status = "running"; started_at = some now }
    else p

abbrev pub close_task : ℕ → UserTask → UserTask
close_task now p =
    if leb p.total p.completed
    then record p { status = "completed"; completed_at = some now }
    else p

-- A missing row is an error, which rolls everything back.
abbrev pub update_parent :
    ℕ → String → String → List UserSubtask → Tables → Option UserTask → Option Tables
update_parent now status task_id subtasks t none = none
update_parent now status task_id subtasks t (some p) = some (record {
  tasks = insert task_id (close_task now (after_status now status p)) t.tasks;
  subtasks = subtasks;
})

abbrev pub update_found : ℕ → String → String → String → Tables → Option UserSubtask → Option Tables
update_found now id status result t none = none
update_found now id status result t (some x) =
    update_parent now status x.task_id
      (set_subtask id
        (λ y. record y { status = status; result = some result; completed_at = some now })
        t.subtasks)
      t (lookup x.task_id t.tasks)

-- `none` is an error; the tables are then as they were.
unfoldable pub update_subtask_status : Bool → ℕ → String → String → String → Tables → Option Tables
unfolding lookup insert
update_subtask_status false now id status result t = none
update_subtask_status true now id status result t =
    update_found now id status result t (find_subtask id t.subtasks)

abbrev pub fail_found : Option UserTask → String → Tables → Tables
fail_found none id t = t
fail_found (some p) id t = record t { tasks = insert id (record p { status = "failed" }) t.tasks }

unfoldable pub update_user_task_error : String → Tables → Tables
unfolding lookup insert
update_user_task_error id t = fail_found (lookup id t.tasks) id t

module _ (decimal : ℕ → String) where
  abbrev pub subtask_rows : String → ℕ → List String → List UserSubtask
  subtask_rows id i [] = []
  subtask_rows id i (d ∷ ds) =
      record {
        id = text_append id (text_append "-sub" (decimal i));
        task_id = id;
        index_num = i;
        description = d;
        status = "pending";
        result = none;
        process = none;
        started_at = none;
        completed_at = none;
      }
      ∷ subtask_rows id (suc i) ds

  -- Ids are primary keys.
  abbrev pub is_taken : String → List UserSubtask → Bool
  is_taken id [] = false
  is_taken id (x ∷ xs) = if x.id == id then true else is_taken id xs

  abbrev pub any_taken : List UserSubtask → List UserSubtask → Bool
  any_taken [] xs = false
  any_taken (n ∷ ns) xs = if is_taken n.id xs then true else any_taken ns (n ∷ xs)

  abbrev pub create_new :
      ℕ → String → String → String → List String → Tables → Option UserTask → Option Tables
  create_new now id session instructions ds t (some p) = none
  create_new now id session instructions ds t none =
      if any_taken (subtask_rows id 0 ds) t.subtasks
      then none
      else some (record {
        tasks =
            insert id
              (record {
                session = session;
                created_at = now;
                completed_at = none;
                started_at = none;
                total = length ds;
                completed = 0;
                status = "pending";
                instructions = instructions;
              })
              t.tasks;
        subtasks = t.subtasks ++ subtask_rows id 0 ds;
      })

  unfoldable pub create_user_task :
      Bool → ℕ → String → String → String → List String → Tables → Option Tables
  unfolding lookup insert
  create_user_task false now id session instructions ds t = none
  create_user_task true now id session instructions ds t =
      create_new now id session instructions ds t (lookup id t.tasks)
