-- ===== src/Compaction/Order.antt =====
-- Rows in the order of their ids and instants.
use ocg.Base.{
  ℕ, zero, suc, ◌≤◌, ◌<◌, ◌≡◌, refl, sym, ap, ◌∙◌, subst, inl, inr, Bool, true, List, [], ◌∷◌, leb,
  keep, take, drop, arith, In, In-keep, In-take, In-drop, Bool-cases, if_true, if_false,
}
use ocg.Base.Text.{text_eq}
use ocg.Compaction.{Message, place, by_age, last_id}

-- A later row has the greater id, and is not older.
abbrev pub Follows : Message → Message → Type 0
Follows x y = (x.id < y.id) × (x.created_at ≤ y.created_at)

abbrev pub FollowsAll : Message → List Message → Type 0
FollowsAll x xs = (y : Message) → In y xs → Follows x y

abbrev pub InOrder : List Message → Type 0
InOrder [] = Unit
InOrder (x ∷ xs) = FollowsAll x xs × InOrder xs

pub by_age-InOrder : (xs : List Message) → InOrder xs → by_age xs ≡ xs
by_age-InOrder [] o = refl
by_age-InOrder (x ∷ xs) (f, o) = ap (place x) (by_age-InOrder xs o) ∙ first xs f
  where
    first : (ys : List Message) → FollowsAll x ys → place x ys ≡ x ∷ ys
    first [] f = refl
    first (y ∷ ys) f = if_true _ _ (young (f y (inl refl)).1)
      where
        young : x.created_at ≤ y.created_at → leb x.created_at y.created_at ≡ true
        young h = ground arith

pub InOrder-keep : (p : Message → Bool) (xs : List Message) → InOrder xs → InOrder (keep p xs)
InOrder-keep p [] o = tt
InOrder-keep p (x ∷ xs) (f, o) = elim (Bool-cases (p x)) [
  | inl holds ↦
      subst InOrder (sym (if_true _ _ holds)) (λ y m. f y (In-keep p y xs m).0, InOrder-keep p xs o)
  | inr fails ↦ subst InOrder (sym (if_false _ _ fails)) (InOrder-keep p xs o)
]

pub InOrder-take : (n : ℕ) (xs : List Message) → InOrder xs → InOrder (take n xs)
InOrder-take zero xs o = tt
InOrder-take (suc n) [] o = tt
InOrder-take (suc n) (x ∷ xs) (f, o) = (λ y m. f y (In-take n y xs m), InOrder-take n xs o)

pub take-before-drop :
    (n : ℕ) (x y : Message) (xs : List Message)
    → InOrder xs
    → In x (take n xs)
    → In y (drop n xs)
    → x.id < y.id
take-before-drop zero x y xs o m k = absurd m
take-before-drop (suc n) x y [] o m k = absurd m
take-before-drop (suc n) x y (z ∷ xs) (f, o) (inl here) k =
    subst (λ (w : Message). w.id < y.id) (sym here) (f y (In-drop n y xs k)).0
take-before-drop (suc n) x y (z ∷ xs) (f, o) (inr there) k = take-before-drop n x y xs o there k

pub last_id_max : (xs : List Message) (x : Message) → InOrder xs → In x xs → x.id ≤ last_id xs
last_id_max [] x o m = absurd m
last_id_max (y ∷ []) x o (inl here) = subst (λ (w : Message). x.id ≤ w.id) here (omega arith)
last_id_max (y ∷ []) x o (inr there) = absurd there
last_id_max (y ∷ z ∷ ys) x (f, o) (inr there) = last_id_max (z ∷ ys) x o there
last_id_max (y ∷ z ∷ ys) x (f, o) (inl here) =
    let first : x.id < z.id = subst (λ (w : Message). w.id < z.id) (sym here) (f z (inl refl)).0 in
    omega (arith, last_id_max (z ∷ ys) z o (inl refl))

-- The id is one of the rows'.
pub last_id_attained :
    (xs : List Message) (y : Message) → In y xs → (x : Message) × In x xs × (x.id ≡ last_id xs)
last_id_attained [] y m = absurd m
last_id_attained (x ∷ []) y m = (x, inl refl, refl)
last_id_attained (x ∷ z ∷ xs) y m =
    let (w, k, e) = last_id_attained (z ∷ xs) z (inl refl) in (w, inr k, e)
