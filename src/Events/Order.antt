-- ===== src/Events/Order.antt =====
-- The row that a query for one event gives.
use ocg.Base.{
  ◌≡◌, ◌≢◌, refl, sym, ap, ◌∙◌, subst, inl, inr, true, false, List, [], ◌∷◌, Option, none, some,
  String, ◌==◌, string_eq, nat_eq, arith, In, Bool-cases, if_true, if_false,
}
use ocg.Events.{Row, before, earlier, first_with}

-- The row that a query gives: there is none of that status, or it is one that no other of it precedes.
abbrev pub First : String → List Row → Option Row → Type 0
First s t none = (x : Row) → In x t → x.status ≢ s
First s t (some x) =
    In x t × (x.status ≡ s) × ((y : Row) → In y t → y.status ≡ s → before y x ≡ false)

pub first_with-First : (s : String) (t : List Row) → First s t (first_with s t)
unfolding first_with
first_with-First s [] = λ x m. absurd m
first_with-First s (x ∷ t) = elim (Bool-cases (x.status == s)) [
  | inl is ↦
      rw is (here (first_with s t) ((string_eq.test_iff x.status s).0 is) (first_with-First s t))
  | inr other ↦ rw other (later (first_with s t) other (first_with-First s t))
]
  where
    irreflexive : (y : Row) → before y y ≡ false
    irreflexive y = ground arith

    below : (y : Row) → before y x ≡ true → before x y ≡ false
    below y h = ground arith

    keeps : (y z : Row) → before y x ≡ false → before z y ≡ false → before z x ≡ false
    keeps y z h k = ground arith

    here : (o : Option Row) → x.status ≡ s → First s t o → First s (x ∷ t) (some (earlier x o))
    here none is f = (
      inl refl,
      is,
      λ y m e. elim m [
        | inl same ↦ subst (λ r. before r x ≡ false) (sym same) (irreflexive x)
        | inr there ↦ absurd (f y there e)
      ],
    )
    here (some y) is (m, st, least) = elim (Bool-cases (before y x)) [
      | inl first ↦
          subst (λ r. First s (x ∷ t) (some r)) (sym (if_true y x first))
            (
              inr m,
              st,
              λ z k e. elim k [
                | inl same ↦ subst (λ r. before r y ≡ false) (sym same) (below y first)
                | inr there ↦ least z there e
              ],
            )
      | inr behind ↦
          subst (λ r. First s (x ∷ t) (some r)) (sym (if_false y x behind))
            (
              inl refl,
              is,
              λ z k e. elim k [
                | inl same ↦ subst (λ r. before r x ≡ false) (sym same) (irreflexive x)
                | inr there ↦ keeps y z behind (least z there e)
              ],
            )
    ]

    differ : (x.status == s) ≡ false → x.status ≢ s
    differ f e = ground (arith, string_eq.test_iff x.status s)

    later : (o : Option Row) → (x.status == s) ≡ false → First s t o → First s (x ∷ t) o
    later none other f = λ y m e. elim m [
      | inl same ↦ differ other (ap (λ (r : Row). r.status) (sym same) ∙ e)
      | inr there ↦ f y there e
    ]
    later (some y) other (m, st, least) = (
      inr m,
      st,
      λ z k e. elim k [
        | inl same ↦ absurd (differ other (ap (λ (r : Row). r.status) (sym same) ∙ e))
        | inr there ↦ least z there e
      ],
    )
