-- ===== src/Cron/Store/Keyed.antt =====
-- The jobs of a store stand under their own ids, and what is saved is loaded again.
use ocg.Base.{
  ℕ, ◌≡◌, refl, sym, ap, ◌∙◌, subst, inl, inr, Bool, true, false, [], ◌∷◌, Option, none, some,
  String, ◌==◌, string_eq, arith, Bool-cases, if_true, if_false,
}
use ocg.Base.Map.{
  Map, values, lookup, insert, delete, lookup-insert, lookup-delete, lookup-insert_self,
}
use ocg.Base.Json.{Fields}
use ocg.Base.Int.{ℤ}
use ocg.Cron.{Job, RunHistoryEntry}
use ocg.Cron.Store.{
  JobStore, load_jobs, new_job_store, save, add, get_job, remove, update, updated, ok, remove_found,
  update_found, add_run,
}

-- Each job stands under its id, and no id stands twice.
abbrev pub Keyed : Map String Job → Type 0
Keyed [] = Unit
Keyed ((id, job) ∷ m) = (job.id ≡ id) × (lookup id m ≡ none) × Keyed m

insert-Keyed : (job : Job) (m : Map String Job) → Keyed m → Keyed (insert job.id job m)
unfolding insert lookup
insert-Keyed job [] k = (refl, refl, tt)
insert-Keyed job ((id, old) ∷ m) (e, fresh, k) = elim (Bool-cases (id == job.id)) [
  | inl same ↦
      rw same
        (refl, subst (λ i. lookup i m ≡ none) ((string_eq.test_iff id job.id).0 same) fresh, k)
  | inr other ↦
      rw other
        (e, lookup-insert job.id id job m ∙ if_false _ _ (flip other) ∙ fresh, insert-Keyed job m k)
]
  where
    flip : (id == job.id) ≡ false → (job.id == id) ≡ false
    flip f = ground (arith, string_eq.test_iff id job.id, string_eq.test_iff job.id id)

lookup-Keyed :
    (id : String) (job : Job) (m : Map String Job) → lookup id m ≡ some job → Keyed m → job.id ≡ id
unfolding lookup
lookup-Keyed id job [] found k = cc
lookup-Keyed id job ((j, old) ∷ m) found (e, fresh, k) = elim (Bool-cases (j == id)) [
  | inl same ↦
      ap (λ (x : Job). x.id) (sym (some-injective (sym (if_true _ _ same) ∙ found)))
      ∙ e
      ∙ (string_eq.test_iff j id).0 same
  | inr other ↦ lookup-Keyed id job m (sym (if_false _ _ other) ∙ found) k
]
  where
    some-injective : {a b : Job} → some a ≡ some b → a ≡ b
    some-injective q = cc

-- A job that stands in the map may be replaced by one with its id.
pub insert_at-Keyed :
    (id : String) (old job : Job) (m : Map String Job)
    → lookup id m ≡ some old
    → job.id ≡ old.id
    → Keyed m
    → Keyed (insert id job m)
insert_at-Keyed id old job m found same k =
    subst (λ i. Keyed (insert i job m)) (same ∙ lookup-Keyed id old m found k)
      (insert-Keyed job m k)

delete-Keyed : (id : String) (m : Map String Job) → Keyed m → Keyed (delete id m)
unfolding delete
delete-Keyed id [] k = tt
delete-Keyed id ((j, job) ∷ m) (e, fresh, k) = elim (Bool-cases (j == id)) [
  | inl same ↦ rw same (delete-Keyed id m k)
  | inr other ↦ rw other (e, ground (arith, lookup-delete id j m, fresh), delete-Keyed id m k)
]

abbrev or_else : Option Job → Option Job → Option Job
or_else none o = o
or_else (some j) o = some j

lookup-load_jobs :
    (id : String) (m acc : Map String Job)
    → Keyed m
    → lookup id (load_jobs (values m) acc) ≡ or_else (lookup id m) (lookup id acc)
unfolding lookup
lookup-load_jobs id [] acc k = refl
lookup-load_jobs id ((j, job) ∷ m) acc (e, fresh, k) = elim (Bool-cases (j == id)) [
  | inl same ↦
      let id_is : j ≡ id = (string_eq.test_iff j id).0 same in
      let gone : lookup id m ≡ none = subst (λ i. lookup i m ≡ none) id_is fresh in
      rw same (
        lookup-load_jobs id m (insert job.id job acc) k
        ∙ ap (λ o. or_else o (lookup id (insert job.id job acc))) gone
        ∙ ap (λ i. lookup id (insert i job acc)) (e ∙ id_is)
        ∙ lookup-insert_self id job acc)
  | inr other ↦ rw other (
      lookup-load_jobs id m (insert job.id job acc) k
      ∙ ap (λ i. or_else (lookup id m) (lookup id (insert i job acc))) e
      ∙ ap (or_else (lookup id m)) (lookup-insert j id job acc ∙ if_false _ _ other))
]

-- A job that is added stands under its id, in place of any job with that id.
pub add-Keyed : (w : Bool) (js : JobStore) (job : Job) → Keyed js.jobs → Keyed (add w js job).jobs
unfolding add
add-Keyed w js job k = insert-Keyed job js.jobs k

-- A removal that succeeds keeps each remaining job under its id.
pub remove-Keyed :
    (w : Bool) (js js' : JobStore) (id : String)
    → remove w js id ≡ ok js'
    → Keyed js.jobs
    → Keyed js'.jobs
unfolding remove
remove-Keyed w js js' id e k = go (lookup id js.jobs) e
  where
    ok-injective : {a b : JobStore} → ok a ≡ ok b → a ≡ b
    ok-injective q = cc

    go : (o : Option Job) → remove_found w js id o ≡ ok js' → Keyed js'.jobs
    go none q = cc
    go (some job) q =
        subst (λ (s : JobStore). Keyed s.jobs) (ok-injective q) (delete-Keyed id js.jobs k)

-- The jobs survive a restart: where each job stands under its id, a new store over the files of a save
-- that was written has the same job, or none, under every id.
pub reload :
    (js : JobStore) (id : String)
    → Keyed js.jobs
    → get_job (new_job_store (save true js).files) id ≡ get_job js id
unfolding get_job new_job_store save lookup
reload js id k = lookup-load_jobs id js.jobs [] k ∙ or_none (lookup id js.jobs)
  where
    or_none : (o : Option Job) → or_else o none ≡ o
    or_none none = refl
    or_none (some j) = refl

-- A write of the store that succeeds. (The id of an update is the key; a job's own id is not updated.)
pub data StoreStep {F : Type 0} (int64 : F → ℤ) : JobStore → JobStore → Type 0 where
  added : (w : Bool) (js : JobStore) (job : Job) → StoreStep int64 js (add w js job)
  removed :
      (w : Bool) (js js' : JobStore) (id : String)
      → remove w js id ≡ ok js'
      → StoreStep int64 js js'
  changed :
      (w : Bool) (js js' : JobStore) (id : String) (u : Fields F) (now : ℕ) (job : Job)
      → update int64 w js id u now ≡ ok (job, js')
      → StoreStep int64 js js'
  ran :
      (w : Bool) (js : JobStore) (id : String) (entry : RunHistoryEntry)
      → StoreStep int64 js (add_run w js id entry)

-- Every write of the store that succeeds, an addition, a removal, an update or the record of a run,
-- keeps each job under its own id and no id twice.
StoreStep-Keyed :
    {F : Type 0} (int64 : F → ℤ) (js js' : JobStore)
    → StoreStep int64 js js'
    → Keyed js.jobs
    → Keyed js'.jobs
unfolding update updated add_run
StoreStep-Keyed int64 _ _ (added w js job) k = add-Keyed w js job k
StoreStep-Keyed int64 _ _ (removed w js js' id e) k = remove-Keyed w js js' id e k
StoreStep-Keyed int64 _ _ (changed w js js' id u now job e) k = go (lookup id js.jobs) refl e
  where
    ok-injective : {a b : Job × JobStore} → ok a ≡ ok b → a.1 ≡ b.1
    ok-injective q = cc

    go :
        (o : Option Job)
        → lookup id js.jobs ≡ o
        → update_found int64 w js id u now o ≡ ok (job, js')
        → Keyed js'.jobs
    go none p q = cc
    go (some old) p q =
        subst (λ (s : JobStore). Keyed s.jobs) (ok-injective q)
          (insert_at-Keyed id old (updated int64 u now old) js.jobs p refl k)
StoreStep-Keyed int64 _ _ (ran w js id entry) k = k
