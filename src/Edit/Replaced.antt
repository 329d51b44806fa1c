-- ===== src/Edit/Replaced.antt =====
-- What an edit does to the files.
use ocg.Base.{
  ℕ, zero, suc, ◌+◌, ◌<◌, ◌≡◌, ◌≢◌, refl, sym, ap, ◌∙◌, subst, inl, inr, false, [], ◌∷◌, ◌++◌,
  Option, none, some, length, take, drop, arith, Bool-cases, Option-cases, if_true, if_false,
  length-append,
}
use ocg.Base.Map.{lookup, insert, lookup-insert_ne}
use ocg.Base.Search.{index, index-parts, index-take}
use ocg.Base.Text.{text_eq}
use ocg.Edit.{
  Text, Node, directory, file, Files, EditError, path_required, old_text_required, not_allowed,
  not_found, no_access, is_directory, read_failed, old_text_not_found, appears, write_failed,
  Answer, edited, refused, Disk, count_from, count_loop, count, replace_at, replace_first,
  write_file, edit_counted, edit_node, Allowed, at, denied, edit_allowed, execute,
}

-- The new text stands where the old one stood, which ends before any other place for it begins, and
-- before which there is none.
abbrev pub ReplacedOnce : Text → Text → Text → Text → Type 0
ReplacedOnce old new before after =
    (a : Text) × (b : Text) × (before ≡ a ++ old ++ b)
    × (after ≡ a ++ new ++ b)
    × (index old a ≡ none)
    × (index old b ≡ none)

count_loop-none :
    (fuel : ℕ) (p s : Text) → length s < fuel → count_loop fuel p s ≡ 0 → index p s ≡ none
unfolding count_loop
count_loop-none zero p s h e = absurd (omega arith)
count_loop-none (suc fuel) p s h e = elim (Option-cases (index p s)) [
  | inl gone ↦ gone
  | inr (i, f) ↦ absurd (impossible (sym (ap (count_from (count_loop fuel p) p s) f) ∙ e))
]
  where
    impossible : {n : ℕ} → suc n ≡ 0 → ⊥
    impossible z = omega (arith, z)

replace-ReplacedOnce :
    (p new s : Text) → 0 < length p → count p s ≡ 1 → ReplacedOnce p new s (replace_first s p new)
unfolding count count_loop replace_first
replace-ReplacedOnce p new s h e = elim (Option-cases (index p s)) [
  | inl gone ↦ absurd (impossible (sym (ap (count_from (count_loop (length s) p) p s) gone) ∙ e))
  | inr (i, f) ↦
      let (parts, l) = index-parts p s i f in
      let rest = drop (i + length p) s in
      let one : suc (count_loop (length s) p rest) ≡ 1 =
        sym (ap (count_from (count_loop (length s) p) p s) f) ∙ e in
      let shorter : length rest < length s =
        omega (
          arith,
          ap length parts,
          length-append (take i s ++ p) rest,
          length-append (take i s) p,
        ) in
      (
        take i s,
        rest,
        parts,
        ap (replace_at s p new) f,
        index-take p s i h f,
        count_loop-none (length s) p rest shorter (omega (arith, one)),
      )
]
  where
    impossible : ◌≡◌ {A = ℕ} 0 1 → ⊥
    impossible z = omega (arith, z)

-- Two places that do not overlap.
abbrev pub StandsTwice : Text → Text → Type 0
StandsTwice old s = (a : Text) × (b : Text) × (c : Text) × (s ≡ a ++ old ++ (b ++ old ++ c))

count_loop-pos :
    (fuel : ℕ) (p s : Text) (n : ℕ)
    → count_loop fuel p s ≡ suc n
    → (i : ℕ) × (index p s ≡ some i)
      × ((more : ℕ) × (fuel ≡ suc more) × (count_loop more p (drop (i + length p) s) ≡ n))
unfolding count_loop
count_loop-pos zero p s n e = absurd (omega (arith, e))
count_loop-pos (suc fuel) p s n e = elim (Option-cases (index p s)) [
  | inl gone ↦ absurd (impossible (sym (ap (count_from (count_loop fuel p) p s) gone) ∙ e))
  | inr (i, f) ↦
      let one : suc (count_loop fuel p (drop (i + length p) s)) ≡ suc n =
        sym (ap (count_from (count_loop fuel p) p s) f) ∙ e in
      (i, f, (fuel, refl, omega (arith, one)))
]
  where
    impossible : 0 ≡ suc n → ⊥
    impossible z = omega (arith, z)

count-StandsTwice : (p s : Text) (n : ℕ) → count p s ≡ suc (suc n) → StandsTwice p s
unfolding count
count-StandsTwice p s n e =
    let (i, f, (more, _, later)) = count_loop-pos (suc (length s)) p s (suc n) e in
    let rest = drop (i + length p) s in
    let (j, g, _) = count_loop-pos more p rest n later in
    (
      take i s,
      take j rest,
      drop (j + length p) rest,
      (index-parts p s i f).0 ∙ ap (λ r. take i s ++ p ++ r) (index-parts p rest j g).0,
    )

count-none : (p s : Text) → count p s ≡ 0 → index p s ≡ none
unfolding count
count-none p s e = count_loop-none (suc (length s)) p s (omega arith) e

module _ (is_path_allowed : Text → Allowed) (d : Disk) (path old new : Text) (fs : Files) where
  -- The file that the path stands for.
  abbrev pub Holds : Text → Text → Type 0
  Holds p content = (is_path_allowed path ≡ at p) × (lookup p fs ≡ some (file content))

  -- Why an edit is refused.
  abbrev pub Refused : EditError → Type 0
  Refused path_required = path ≡ []
  Refused old_text_required = old ≡ []
  Refused (not_allowed why) = is_path_allowed path ≡ denied why
  Refused (not_found p) = (is_path_allowed path ≡ at p) × (lookup p fs ≡ none)
  Refused no_access = d.stat_works ≡ false
  Refused is_directory = (p : Text) × (is_path_allowed path ≡ at p) × (lookup p fs ≡ some directory)
  Refused read_failed = d.read_works ≡ false
  Refused old_text_not_found = (p : Text) × (s : Text) × Holds p s × (index old s ≡ none)
  Refused (appears n) = (p : Text) × (s : Text) × Holds p s × StandsTwice old s
  Refused write_failed = (left : Text) × (d.left_by_write ≡ some left)

  -- The files after it: as they were, or all but the one whose write failed.
  abbrev pub Left : EditError → Files → Type 0
  Left path_required fs' = fs' ≡ fs
  Left old_text_required fs' = fs' ≡ fs
  Left (not_allowed why) fs' = fs' ≡ fs
  Left (not_found p) fs' = fs' ≡ fs
  Left no_access fs' = fs' ≡ fs
  Left is_directory fs' = fs' ≡ fs
  Left read_failed fs' = fs' ≡ fs
  Left old_text_not_found fs' = fs' ≡ fs
  Left (appears n) fs' = fs' ≡ fs
  Left write_failed fs' =
      (p : Text) × (is_path_allowed path ≡ at p)
      × ((other : Text) → p ≢ other → lookup other fs' ≡ lookup other fs)

  abbrev pub Edited : Answer × Files → Type 0
  Edited (refused why, fs') = Refused why × Left why fs'
  Edited (edited p, fs') =
      (before : Text) × (after : Text) × Holds p before
      × (fs' ≡ insert p (file after) fs)
      × ReplacedOnce old new before after

  node-Edited :
      (p : Text)
      → 0 < length old
      → is_path_allowed path ≡ at p
      → (found : Option Node) → lookup p fs ≡ found
      → Edited (edit_node d p old new fs found)
  node-Edited p h to none e = ((to, e), refl)
  node-Edited p h to (some directory) e = ((p, to, e), refl)
  node-Edited p h to (some (file s)) e = elim (Bool-cases d.read_works) [
    | inl works ↦ subst Edited (sym (if_true _ _ works)) (counted (count old s) refl)
    | inr broken ↦ subst Edited (sym (if_false _ _ broken)) (broken, refl)
  ]
    where
      written :
          (left : Option Text) (after : Text)
          → d.left_by_write ≡ left
          → ReplacedOnce old new s after
          → Edited (write_file left p after fs)
      written none after l once = (s, after, (to, e), refl, once)
      written (some left) after l once =
          ((left, l), (p, to, λ other ne. lookup-insert_ne p other (file left) fs ne))

      counted : (n : ℕ) → count old s ≡ n → Edited (edit_counted d p s old new fs n)
      counted zero c = ((p, s, (to, e), count-none old s c), refl)
      counted (suc zero) c =
          written d.left_by_write (replace_first s old new) refl
            (replace-ReplacedOnce old new s h c)
      counted (suc (suc n)) c = ((p, s, (to, e), count-StandsTwice old s n c), refl)

  allowed-Edited :
      0 < length old
      → (a : Allowed) → is_path_allowed path ≡ a
      → Edited (edit_allowed d old new fs a)
  allowed-Edited h (denied why) e = (e, refl)
  allowed-Edited h (at p) e = elim (Bool-cases d.stat_works) [
    | inl works ↦ subst Edited (sym (if_true _ _ works)) (node-Edited p h e (lookup p fs) refl)
    | inr broken ↦ subst Edited (sym (if_false _ _ broken)) (broken, refl)
  ]

-- `Execute` edits the file when the old text is found in it and is not found again behind its first
-- place: then that place holds the new text. It refuses only for the reason it gives: no path or old
-- text, a path that is not allowed, a missing, unreadable or wrong file, the old text missing or at
-- two places that do not overlap, a failed write; no file changes but the one whose write failed.
pub execute-Edited :
    (is_path_allowed : Text → Allowed) (d : Disk) (path old new : Text) (fs : Files)
    → Edited is_path_allowed d path old new fs (execute is_path_allowed d path old new fs)
unfolding execute
execute-Edited is_path_allowed d [] old new fs = (refl, refl)
execute-Edited is_path_allowed d (c ∷ path) [] new fs = (refl, refl)
execute-Edited is_path_allowed d (c ∷ path) (o ∷ old) new fs =
    allowed-Edited is_path_allowed d (c ∷ path) (o ∷ old) new fs (omega arith)
      (is_path_allowed (c ∷ path)) refl
