-- ===== src/Cron/Store/Runs.antt =====
-- The history of a job's runs.
use ocg.Base.{
  ◌||◌, ℕ, ◌-◌, ◌≤◌, ◌<◌, ◌≡◌, refl, sym, ap, ◌∙◌, ◌⊎◌, inl, inr, Bool, true, false, List, [], ◌∷◌,
  ◌++◌, String, length, drop, ltb, string_eq, arith, Bool-cases, length-append, length-drop,
  if_true, if_false, drop-append, drop-drop,
}
use mathlib.Core.List.{append-nil, append_assoc}
use ocg.Base.Map.{lookup, lookup-insert_self}
use ocg.Base.Int.{ℤ, pos, leb_ℤ, ltb_ℤ, pos_part, ◌≤ℤ◌, negsuc}
use ocg.Cron.{RunHistoryEntry}
use ocg.Cron.Store.{JobStore, max_runs, last_of, or_nil, capped, add_run, get_runs, save_runs}

-- The runs that are recorded one after the other for one job, the writes going as `w` says.
abbrev pub add_all : Bool → JobStore → String → List RunHistoryEntry → JobStore
add_all w js id [] = js
add_all w js id (e ∷ es) = add_all w (add_run w js id e) id es

abbrev pub history : JobStore → String → List RunHistoryEntry
history js id = or_nil (lookup id js.runs)

capped_last : (xs : List RunHistoryEntry) → capped xs ≡ last_of max_runs xs
unfolding capped
capped_last xs = elim (Bool-cases (ltb max_runs (length xs))) [
  | inl long ↦ if_true _ _ long
  | inr short ↦ if_false _ _ short ∙ sym (ap (λ n. drop n xs) (fits (ground arith)))
]
  where
    fits : length xs ≤ max_runs → length xs - max_runs ≡ 0
    fits h = omega arith

history-add_run :
    (w : Bool) (js : JobStore) (id : String) (e : RunHistoryEntry)
    → history (add_run w js id e) id ≡ last_of max_runs (history js id ++ e ∷ [])
unfolding add_run save_runs
history-add_run w js id e =
    ap or_nil (lookup-insert_self id (capped (history js id ++ e ∷ [])) js.runs)
    ∙ capped_last (history js id ++ e ∷ [])

last_of-append :
    {A : Type 0} (n : ℕ) (xs ys : List A) → last_of n (last_of n xs ++ ys) ≡ last_of n (xs ++ ys)
last_of-append {A} n xs ys =
    let k = length xs - n in
    ap (λ (l : List A). last_of n l) (sym (drop-append k xs ys (omega arith)))
    ∙ drop-drop (length (drop k (xs ++ ys)) - n) k (xs ++ ys)
    ∙ ap (λ m. drop m (xs ++ ys)) (omega (arith, length-drop k (xs ++ ys), length-append xs ys))

-- From a history of at most a hundred runs, after any number of further runs the history is the last
-- hundred of all of them, in order, whether the writes succeed or not.
pub history-add_all :
    (w : Bool) (es : List RunHistoryEntry) (js : JobStore) (id : String)
    → length (history js id) ≤ max_runs
    → history (add_all w js id es) id ≡ last_of max_runs (history js id ++ es)
history-add_all w [] js id h =
    let none_cut : length (history js id ++ []) - max_runs ≡ 0 =
      omega (arith, length-append (history js id) []) in
    sym (ap (λ n. drop n (history js id ++ [])) none_cut ∙ append-nil (history js id))
history-add_all w (e ∷ es) js id h =
    let now = history js id ++ e ∷ [] in
    let added = history-add_run w js id e in
    history-add_all w es (add_run w js id e) id
      (omega (arith, ap length added, length-drop (length now - max_runs) now))
    ∙ ap (λ l. last_of max_runs (l ++ es)) added
    ∙ last_of-append max_runs now es
    ∙ ap (last_of max_runs) (append_assoc (history js id) (e ∷ []) es)

all_of : (xs : List RunHistoryEntry) → last_of (length xs) xs ≡ xs
all_of xs = let z : length xs - length xs ≡ 0 = omega arith in ap (λ i. drop i xs) z

-- A caller gets the last runs, as many as the limit says; all of them for no positive limit.
get_runs_lem :
    (js : JobStore) (id : String) (limit : ℤ)
    → ((limit ≤ℤ pos 0) × (get_runs js id limit ≡ history js id))
      ⊎ ((n : ℕ) × (limit ≡ pos n) × (0 < n) × (get_runs js id limit ≡ last_of n (history js id)))
unfolding get_runs
get_runs_lem js id limit = elim (Bool-cases (leb_ℤ limit (pos 0))) [
  | inl all ↦ inl (
    ground arith,
    if_true (last_of (length (history js id)) (history js id)) _ (or_left _ _ all)
        ∙ all_of (history js id),
  )
  | inr some_only ↦ inr (
    pos_part limit,
    (positive limit some_only).0,
    (positive limit some_only).1,
    elim (Bool-cases (ltb_ℤ (pos (length (history js id))) limit)) [
      | inl more ↦
          if_true (last_of (length (history js id)) (history js id)) _ (or_right _ _ some_only more)
          ∙ all_of (history js id)
          ∙ sym (whole (history js id) (pos_part limit) (ground arith))
      | inr fewer ↦
          if_false (last_of (length (history js id)) (history js id)) _
            (or_neither _ _ some_only fewer)
    ],
  )
]
  where
    positive : (z : ℤ) → leb_ℤ z (pos 0) ≡ false → (z ≡ pos (pos_part z)) × (0 < pos_part z)
    positive (pos n) h = (refl, ground arith)
    positive (negsuc n) h = ground (arith, h)

    or_left : (a b : Bool) → a ≡ true → (a || b) ≡ true
    or_left a b p = ground arith

    or_right : (a b : Bool) → a ≡ false → b ≡ true → (a || b) ≡ true
    or_right a b p q = ground arith

    or_neither : (a b : Bool) → a ≡ false → b ≡ false → (a || b) ≡ false
    or_neither a b p q = ground arith

    whole : (xs : List RunHistoryEntry) (k : ℕ) → length xs ≤ k → last_of k xs ≡ xs
    whole xs k h = let z : length xs - k ≡ 0 = omega arith in ap (λ i. drop i xs) z
