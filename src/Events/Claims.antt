-- ===== src/Events/Claims.antt =====
-- Which event a worker gets.
use ocg.Base.{
  ℕ, ◌≡◌, ◌≢◌, refl, sym, ap, ◌∙◌, subst, ◌⊎◌, inl, inr, true, false, List, [], ◌∷◌, Option, none,
  some, String, ◌==◌, string_eq, nat_eq, arith, In, Bool-cases, if_true, if_false, false-ne-true,
}
use ocg.Events.{
  Row, Event, before, first_with, set_row, set_status, Fetched, nothing, failed, found, event_of,
  text_or_null, scan, commit, claim_found, claim_next_event,
}
use ocg.Events.Order.{First, first_with-First}

-- A row of the table after a write is one of before, or the written one under that id.
In-set_row :
    (id : ℕ) (f : Row → Row) (t : List Row) (y : Row)
    → In y (set_row id f t)
    → (x : Row) × In x t × (((x.id ≡ id) × (y ≡ f x)) ⊎ ((x.id ≢ id) × (y ≡ x)))
In-set_row id f [] y m = absurd m
In-set_row id f (x ∷ t) y (inr there) = let (z, k, d) = In-set_row id f t y there in (z, inr k, d)
In-set_row id f (x ∷ t) y (inl here) = elim (Bool-cases (x.id == id)) [
  | inl same ↦ (x, inl refl, inl ((nat_eq.test_iff x.id id).0 same, here ∙ if_true _ _ same))
  | inr other ↦ (x, inl refl, inr (differ x id other, here ∙ if_false _ _ other))
]
  where
    differ : (x : Row) (id : ℕ) → (x.id == id) ≡ false → x.id ≢ id
    differ x id f e = ground (arith, nat_eq.test_iff x.id id)

set_row-In :
    (id : ℕ) (f : Row → Row) (t : List Row) (x : Row) → In x t → x.id ≢ id → In x (set_row id f t)
set_row-In id f [] x m ne = absurd m
set_row-In id f (y ∷ t) x (inr there) ne = inr (set_row-In id f t x there ne)
set_row-In id f (y ∷ t) x (inl here) ne =
    inl (here ∙ sym (if_false (f y) y (differ y (λ e. ne (ap (λ (r : Row). r.id) here ∙ e)))))
  where
    differ : (y : Row) → y.id ≢ id → (y.id == id) ≡ false
    differ y ne = ground arith

-- Ids are the primary key.
abbrev pub HasKeys : List Row → Type 0
HasKeys t = (a b : Row) → In a t → In b t → a.id ≡ b.id → a ≡ b

abbrev id_of : Fetched → ℕ
id_of nothing = 0
id_of failed = 0
id_of (found e) = e.id

module _ (null_text : Option String) where
  -- A claim that gives an event has marked the next pending row, and gives the first row that is
  -- being processed then.
  claim_parts :
      (t t' : List Row) (x : Row) (e : Event)
      → first_with "pending" t ≡ some x
      → claim_next_event null_text true t ≡ (found e, t')
      → (t' ≡ set_row x.id (set_status "processing") t)
        × ((y : Row) × (first_with "processing" t' ≡ some y) × (e.id ≡ y.id))
  unfolding claim_next_event
  claim_parts t t' x e next c =
      go (set_row x.id (set_status "processing") t)
        (first_with "processing" (set_row x.id (set_status "processing") t)) refl
        (sym (ap (claim_found null_text t) next) ∙ c)
    where
      Goal : List Row → Type 0
      Goal u = (t' ≡ u) × ((y : Row) × (first_with "processing" t' ≡ some y) × (e.id ≡ y.id))

      pair :
          {a b : Fetched} {u v : List Row}
          → ◌≡◌ {A = Fetched × List Row} (a, u) (b, v)
          → (a ≡ b) × (u ≡ v)
      pair q = (ap (λ p. p.0) q, ap (λ p. p.1) q)

      event :
          (y : Row) (o : Option String) (u : List Row)
          → commit null_text t u (event_of null_text y o) ≡ (found e, t')
          → (u ≡ t') × (e.id ≡ y.id)
      event y none u q = absurd (wrong (ap (λ p. p.0) q))
        where
          wrong : Fetched.failed ≡ found e → ⊥
          wrong q = cc
      event y (some r) u q = ((pair q).1, same (pair q).0)
        where
          same : {a b : Event} → found a ≡ found b → b.id ≡ a.id
          same q = sym (ap id_of q)

      go :
          (u : List Row) (o : Option Row)
          → first_with "processing" u ≡ o
          → commit null_text t u (scan null_text o) ≡ (found e, t')
          → Goal u
      go u none p q = absurd (wrong (ap (λ p. p.0) q))
        where
          wrong : Fetched.nothing ≡ found e → ⊥
          wrong q = cc
      go u (some y) p q =
          let (same, id) = event y (text_or_null null_text y.response) u q in
          (sym same, (y, ap (first_with "processing") (sym same) ∙ p, id))

  -- While no other event is being processed, a claim that gives an event gives the one it marked: the
  -- next pending event, first by priority and then by age.
  pub claim_next_event-First :
      (t t' : List Row) (e : Event)
      → ((w : Row) → In w t → w.status ≢ "processing")
      → claim_next_event null_text true t ≡ (found e, t')
      → (x : Row) × First "pending" t (some x)
        × (t' ≡ set_row x.id (set_status "processing") t)
        × (e.id ≡ x.id)
  unfolding claim_next_event
  claim_next_event-First t t' e idle c =
      go (first_with "pending" t) refl (first_with-First "pending" t)
    where
      claimed :
          (x y : Row)
          → First "processing" (set_row x.id (set_status "processing") t) (some y)
          → y.id ≡ x.id
      claimed x y (m, st, least) =
          let (z, k, d) = In-set_row x.id (set_status "processing") t y m in
          elim d [
            | inl (same, is) ↦ ap (λ (r : Row). r.id) is ∙ same
            | inr (other, is) ↦ absurd (idle z k (ap (λ (r : Row). r.status) (sym is) ∙ st))
          ]

      go :
          (o : Option Row)
          → first_with "pending" t ≡ o
          → First "pending" t o
          → (x : Row) × First "pending" t (some x)
            × (t' ≡ set_row x.id (set_status "processing") t)
            × (e.id ≡ x.id)
      go none p f = absurd (wrong (ap (λ r. r.0) (ap (claim_found null_text t) (sym p) ∙ c)))
        where
          wrong : Fetched.nothing ≡ found e → ⊥
          wrong q = cc
      go (some x) p f =
          let (same, rest) = claim_parts t t' x e p c in
          let (y, q, id) = rest in
          (
            x,
            f,
            same,
            id
                ∙ claimed x y (
                    subst (λ u. First "processing" u (some y)) same
                      (subst (First "processing" t') q (first_with-First "processing" t'))),
          )

  -- Where ids are unique and an event that is still being processed comes before the next pending
  -- one, a claim that gives an event marks the next pending one as being processed and gives
  -- another.
  pub claim_next_event-wrong :
      (t t' : List Row) (e : Event) (x w : Row)
      → HasKeys t
      → first_with "pending" t ≡ some x
      → In w t
      → w.status ≡ "processing"
      → before w x ≡ true
      → claim_next_event null_text true t ≡ (found e, t')
      → (e.id ≢ x.id) × (t' ≡ set_row x.id (set_status "processing") t)
  claim_next_event-wrong t t' e x w keys next wm wst ahead c =
      let (same, rest) = claim_parts t t' x e next c in
      let (y, q, id) = rest in
      (
        λ eq.
            other y
              (subst (λ u. First "processing" u (some y)) same
                (subst (First "processing" t') q (first_with-First "processing" t')))
              (sym id ∙ eq),
        same,
      )
    where
      x_found : First "pending" t (some x)
      x_found = subst (First "pending" t) next (first_with-First "pending" t)

      not_x : w.id ≢ x.id
      not_x same =
          absurd
            (unlike (sym wst ∙ ap (λ (r : Row). r.status) (keys w x wm x_found.0 same) ∙ x_found.1))
        where
          unlike : ◌≢◌ {A = String} "processing" "pending"
          unlike = ground (arith, string_eq.test_iff "processing" "pending")

      there : In w (set_row x.id (set_status "processing") t)
      there = set_row-In x.id (set_status "processing") t w wm not_x

      other :
          (y : Row)
          → First "processing" (set_row x.id (set_status "processing") t) (some y)
          → y.id ≢ x.id
      other y (m, st, least) eq =
          let (z, k, d) = In-set_row x.id (set_status "processing") t y m in
          elim d [
            | inl (same, is) ↦
                let whole : y ≡ set_status "processing" x =
                  is ∙ ap (set_status "processing") (keys z x k x_found.0 same) in
                false-ne-true (least w there wst) (ap (before w) whole ∙ ahead)
            | inr (ne, is) ↦ absurd (ne (ap (λ (r : Row). r.id) (sym is) ∙ eq))
          ]
