-- ===== src/Base/Members.antt =====
-- Membership in lists that are joined, filtered and cut.
use Prim.Native.Nat.{ℕ, zero, suc}
use mathlib.Core.Path.{◌≡◌, refl, ap, sym, ◌∙◌, subst}
use mathlib.Core.Logic.{◌⊎◌, inl, inr}
use mathlib.Core.Bool.{Bool, true, ◌&&◌}
use mathlib.Core.List.{List, [], ◌∷◌, ◌++◌}
use native.Mathlib.Omega.{arith}
use ocg.Base.Tests.{Bool-cases, if_true, if_false}
use ocg.Base.Lists.{keep, take, drop, In}

module _ {A : Type 0} where
  pub In-append : (x : A) (xs ys : List A) → In x (xs ++ ys) → In x xs ⊎ In x ys
  In-append x [] ys m = inr m
  In-append x (y ∷ xs) ys (inl here) = inl (inl here)
  In-append x (y ∷ xs) ys (inr there) = elim (In-append x xs ys there) [
    | inl m ↦ inl (inr m)
    | inr m ↦ inr m
  ]

  pub append-In : (x : A) (xs ys : List A) → In x xs ⊎ In x ys → In x (xs ++ ys)
  append-In x [] ys (inl m) = absurd m
  append-In x [] ys (inr m) = m
  append-In x (y ∷ xs) ys (inl (inl here)) = inl here
  append-In x (y ∷ xs) ys (inl (inr there)) = inr (append-In x xs ys (inl there))
  append-In x (y ∷ xs) ys (inr m) = inr (append-In x xs ys (inr m))

  pub In-keep : (p : A → Bool) (x : A) (xs : List A) → In x (keep p xs) → In x xs × (p x ≡ true)
  In-keep p x [] m = absurd m
  In-keep p x (y ∷ xs) m = elim (Bool-cases (p y)) [
    | inl holds ↦ elim (subst (In x) (if_true (y ∷ keep p xs) (keep p xs) holds) m) [
      | inl here ↦ (inl here, ap p here ∙ holds)
      | inr there ↦ let (k, q) = In-keep p x xs there in (inr k, q)
    ]
    | inr fails ↦
        let (k, q) = In-keep p x xs (subst (In x) (if_false (y ∷ keep p xs) (keep p xs) fails) m) in
        (inr k, q)
  ]

  pub keep-In : (p : A → Bool) (x : A) (xs : List A) → In x xs → p x ≡ true → In x (keep p xs)
  keep-In p x [] m q = absurd m
  keep-In p x (y ∷ xs) (inl here) q =
      subst (In x) (sym (if_true (y ∷ keep p xs) (keep p xs) (ap p (sym here) ∙ q))) (inl here)
  keep-In p x (y ∷ xs) (inr there) q = elim (Bool-cases (p y)) [
    | inl holds ↦
        subst (In x) (sym (if_true (y ∷ keep p xs) (keep p xs) holds))
          (inr (keep-In p x xs there q))
    | inr fails ↦
        subst (In x) (sym (if_false (y ∷ keep p xs) (keep p xs) fails)) (keep-In p x xs there q)
  ]

  pub In-take : (n : ℕ) (x : A) (xs : List A) → In x (take n xs) → In x xs
  In-take zero x xs m = absurd m
  In-take (suc n) x [] m = absurd m
  In-take (suc n) x (y ∷ xs) (inl here) = inl here
  In-take (suc n) x (y ∷ xs) (inr there) = inr (In-take n x xs there)

  pub In-drop : (n : ℕ) (x : A) (xs : List A) → In x (drop n xs) → In x xs
  In-drop zero x xs m = m
  In-drop (suc n) x [] m = absurd m
  In-drop (suc n) x (y ∷ xs) m = inr (In-drop n x xs m)

  pub In-parts : (n : ℕ) (x : A) (xs : List A) → In x xs → In x (take n xs) ⊎ In x (drop n xs)
  In-parts zero x xs m = inr m
  In-parts (suc n) x [] m = absurd m
  In-parts (suc n) x (y ∷ xs) (inl here) = inl (inl here)
  In-parts (suc n) x (y ∷ xs) (inr there) = elim (In-parts n x xs there) [
    | inl k ↦ inl (inr k)
    | inr k ↦ inr k
  ]

  pub keep-keep : (p q : A → Bool) (xs : List A) → keep p (keep q xs) ≡ keep (λ x. q x && p x) xs
  keep-keep p q [] = refl
  keep-keep p q (x ∷ xs) = ground (arith, keep-keep p q xs)
