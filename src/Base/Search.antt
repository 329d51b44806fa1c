-- ===== src/Base/Search.antt =====
-- strings.Index and strings.Count over lists of bytes.
use Prim.Native.Nat.{ℕ, suc, ◌+◌, ◌≤◌, ◌<◌}
use mathlib.Core.Path.{◌≡◌, refl, ap, sym, ◌∙◌, subst}
use mathlib.Core.Logic.{◌≢◌, inl, inr}
use mathlib.Core.Bool.{true, false, ◌&&◌}
use mathlib.Core.Option.{Option, none, some}
use mathlib.Core.List.{List, [], ◌∷◌, ◌++◌, append_assoc}
use native.Mathlib.Omega.{arith}
use ocg.Base.Tests.{if◌then◌else◌, Bool-cases, Option-cases, if_true, if_false, false-ne-true}
use ocg.Base.Equality.{◌==◌, nat_eq}
use ocg.Base.Lists.{length, take, drop, length-append}
use ocg.Base.Text.{has_prefix}

abbrev pub next_index : Option ℕ → Option ℕ
next_index none = none
next_index (some i) = some (suc i)

unfoldable pub index : List ℕ → List ℕ → Option ℕ
index p [] = if has_prefix [] p then some 0 else none
index p (c ∷ s) = let rest = index p s in if has_prefix (c ∷ s) p then some 0 else next_index rest

has_prefix-append : (p b : List ℕ) → has_prefix (p ++ b) p ≡ true
has_prefix-append [] b = refl
has_prefix-append (c ∷ p) b = ground (arith, has_prefix-append p b)

has_prefix-drop : (s p : List ℕ) → has_prefix s p ≡ true → s ≡ p ++ drop (length p) s
has_prefix-drop s [] h = refl
has_prefix-drop [] (c ∷ p) h = absurd (false-ne-true refl h)
has_prefix-drop (d ∷ s) (c ∷ p) h =
    let (same, rest) = both h in ap (λ x. x ∷ s) same ∙ ap (◌∷◌ c) (has_prefix-drop s p rest)
  where
    both : (d == c && has_prefix s p) ≡ true → (d ≡ c) × (has_prefix s p ≡ true)
    both h = ground arith

-- What a search gives: no place at all, or the first.
abbrev pub At : List ℕ → List ℕ → ℕ → Type 0
At p s i = (a : List ℕ) × (b : List ℕ) × (s ≡ a ++ p ++ b) × (length a ≡ i)

abbrev pub Found : List ℕ → List ℕ → Option ℕ → Type 0
Found p s none = (a b : List ℕ) → s ≢ a ++ p ++ b
Found p s (some i) = At p s i × ((a b : List ℕ) → s ≡ a ++ p ++ b → i ≤ length a)

abbrev tail : List ℕ → List ℕ
tail [] = []
tail (c ∷ s) = s

pub index-Found : (p s : List ℕ) → Found p s (index p s)
unfolding index
index-Found p s = go s
  where
    first : (s : List ℕ) → has_prefix s p ≡ true → At p s 0
    first s h = ([], drop (length p) s, has_prefix-drop s p h, refl)

    not_here : (s b : List ℕ) → has_prefix s p ≡ false → s ≢ p ++ b
    not_here s b f e = absurd (false-ne-true f (ap (λ t. has_prefix t p) e ∙ has_prefix-append p b))

    later :
        (c : ℕ) (s : List ℕ) (o : Option ℕ)
        → has_prefix (c ∷ s) p ≡ false
        → Found p s o
        → Found p (c ∷ s) (next_index o)
    later c s none f absent = λ a b. at_first a b
      where
        at_first : (a b : List ℕ) → (c ∷ s) ≢ a ++ p ++ b
        at_first [] b e = not_here (c ∷ s) b f e
        at_first (x ∷ a) b e = absent a b (ap tail e)
    later c s (some i) f ((a, b, e, l), least) =
        ((c ∷ a, b, ap (◌∷◌ c) e, ap suc l), λ a b. at_first a b)
      where
        at_first : (a b : List ℕ) → (c ∷ s) ≡ a ++ p ++ b → suc i ≤ length a
        at_first [] b e = absurd (not_here (c ∷ s) b f e)
        at_first (x ∷ a) b e = omega (arith, least a b (ap tail e))

    go : (s : List ℕ) → Found p s (index p s)
    go [] = elim (Bool-cases (has_prefix [] p)) [
      | inl here ↦
          subst (Found p []) (sym (if_true (some 0) none here))
            (first [] here, λ a b e. omega arith)
      | inr absent ↦
          subst (Found p []) (sym (if_false (some 0) none absent)) (λ a b. nowhere absent a b)
    ]
      where
        nowhere : has_prefix [] p ≡ false → (a b : List ℕ) → ◌≢◌ {A = List ℕ} [] (a ++ p ++ b)
        nowhere f [] b e = not_here [] b f e
        nowhere f (x ∷ a) b e = absurd (impossible (ap length e))
          where
            impossible : ◌≡◌ {A = ℕ} 0 (suc (length (a ++ p ++ b))) → ⊥
            impossible z = omega (arith, z)
    go (c ∷ s) = elim (Bool-cases (has_prefix (c ∷ s) p)) [
      | inl here ↦
          subst (Found p (c ∷ s)) (sym (if_true (some 0) (next_index (index p s)) here))
            (first (c ∷ s) here, λ a b e. omega arith)
      | inr absent ↦
          subst (Found p (c ∷ s)) (sym (if_false (some 0) (next_index (index p s)) absent))
            (later c s (index p s) absent (go s))
    ]

pub take-append : (a b : List ℕ) → take (length a) (a ++ b) ≡ a
take-append [] b = refl
take-append (x ∷ a) b = ap (◌∷◌ x) (take-append a b)

pub drop-append_all : (a b : List ℕ) → drop (length a) (a ++ b) ≡ b
drop-append_all [] b = refl
drop-append_all (x ∷ a) b = drop-append_all a b

-- A text in which the pattern is found is what stands before it, the pattern, and the rest.
pub index-parts :
    (p s : List ℕ) (i : ℕ)
    → index p s ≡ some i
    → (s ≡ take i s ++ p ++ drop (i + length p) s) × (length (take i s) ≡ i)
index-parts p s i e =
    let ((a, b, q, l), least) = subst (Found p s) e (index-Found p s) in
    let before : take i s ≡ a =
      ap (take i) q
      ∙ ap (λ n. take n (a ++ p ++ b)) (sym l)
      ∙ ap (take (length a)) (append_assoc a p b)
      ∙ take-append a (p ++ b) in
    let after : drop (i + length p) s ≡ b =
      ap (drop (i + length p)) q
      ∙ ap (λ n. drop n ((a ++ p) ++ b)) (sym (length-append a p ∙ ap (λ n. n + length p) l))
      ∙ drop-append_all (a ++ p) b in
    (
      q ∙ ap (λ x. x ++ p ++ b) (sym before) ∙ ap (λ y. take i s ++ p ++ y) (sym after),
      ap length before ∙ l,
    )

-- A text that has the pattern has a first place for it.
pub index-append : (p a b : List ℕ) → (i : ℕ) × (index p (a ++ p ++ b) ≡ some i) × (i ≤ length a)
index-append p a b = elim (Option-cases (index p (a ++ p ++ b))) [
  | inl gone ↦ absurd (subst (Found p (a ++ p ++ b)) gone (index-Found p (a ++ p ++ b)) a b refl)
  | inr (i, e) ↦ (i, e, (subst (Found p (a ++ p ++ b)) e (index-Found p (a ++ p ++ b))).1 a b refl)
]

-- Before the first place of a pattern that is not empty there is none.
pub index-take :
    (p s : List ℕ) (i : ℕ) → 0 < length p → index p s ≡ some i → index p (take i s) ≡ none
index-take p s i h e = elim (Option-cases (index p (take i s))) [
  | inl gone ↦ gone
  | inr (j, f) ↦
      let (parts, l) = index-parts p s i e in
      let ((a, b, q, k), _) = subst (Found p (take i s)) f (index-Found p (take i s)) in
      let sooner = (subst (Found p s) e (index-Found p s)).1 a (b ++ p ++ drop (i + length p) s) (
        parts
        ∙ ap (λ x. x ++ p ++ drop (i + length p) s) q
        ∙ ap (λ x. x ++ drop (i + length p) s) (append_assoc (a ++ p) b p)
        ∙ append_assoc (a ++ p) (b ++ p) (drop (i + length p) s)) in
      absurd (omega (arith, sooner, l, ap length q, length-append (a ++ p) b, length-append a p))
]
