-- ===== src/Cron/Fields/Values.antt =====
-- The values of a list, and the bounds of the values of any field.
use ocg.Base.{
  ℕ, zero, suc, ◌+◌, ◌-◌, ◌^◌, ◌≤◌, ◌<◌, ◌≡◌, ◌↔◌, ◌⊎◌, inl, inr, refl, sym, ap, subst, true, List,
  [], ◌∷◌, Option, none, some, if◌then◌else◌, drop, nat_eq, arith, In, All, Bool-cases,
  false-ne-true,
}
use ocg.Base.Int.{ℤ, pos, negsuc, ◌+ℤ◌, ◌-ℤ◌, leb_ℤ, ltb_ℤ, ◌≤ℤ◌, pos_part, neg_part, +ℤ_parts}
use ocg.Base.Text.{same_text, has_prefix, contains_char, split_on}
use ocg.Cron.Fields.{
  parse_int, add_within, stepped, within, single, listed, range_loop, min_ℤ, ranged,
  range_or_single, star, star_slash, parse_trimmed,
}
use ocg.Cron.Fields.Steps.{stepped_iff}
use ocg.Cron.Fields.Ranges.{count_up_sound}

-- What the values of a field lie between.
abbrev pub Fits : ℕ → ℕ → ℤ → Type 0
Fits low high v = (pos low ≤ℤ v) × (v ≤ℤ pos high)

All-of_In : {P : ℤ → Type 0} (xs : List ℤ) → ((v : ℤ) → In v xs → P v) → All P xs
All-of_In [] h = tt
All-of_In (x ∷ xs) h = (h x (inl refl), All-of_In xs (λ v m. h v (inr m)))

within_iff : (low high : ℕ) (n : ℤ) → (within low high n ≡ true) ↔ Fits low high n
within_iff low high n = ground arith

some_inj : {a b : ℤ} → some a ≡ some b → a ≡ b
some_inj e = cc

add_within_iff :
    (o : Option ℤ) (low high : ℕ) (rest : List ℤ) (v : ℤ)
    → In v (add_within o low high rest) ↔ (((o ≡ some v) × Fits low high v) ⊎ In v rest)
add_within_iff none low high rest v =
    (λ m. inr m, λ c. elim c [ inl (e, f) ↦ absurd (none-ne-some e) | inr m ↦ m ])
  where
    none-ne-some : none ≡ some v → ⊥
    none-ne-some e = cc
add_within_iff (some n) low high rest v = elim (Bool-cases (within low high n)) [
  | inl t ↦ rw t (
    λ m. elim m [
      | inl e ↦ inl (ap some (sym e), subst (Fits low high) (sym e) ((within_iff low high n).0 t))
      | inr m' ↦ inr m'
    ],
    λ c. elim c [ inl (e, f) ↦ inl (sym (some_inj e)) | inr m' ↦ inr m' ],
  )
  | inr f ↦ rw f (
    λ m. inr m,
    λ c. elim c [
      | inl (e, fits) ↦ absurd (
          false-ne-true f
            ((within_iff low high n).1 (subst (Fits low high) (sym (some_inj e)) fits)))
      | inr m' ↦ m'
    ],
  )
]

-- A list field stands for the parts that are numbers between min and max.
listed_iff :
    (parts : List (List ℕ)) (low high : ℕ) (v : ℤ)
    → In v (listed parts low high)
      ↔ ((part : List ℕ) × In part parts × (parse_int part ≡ some v) × Fits low high v)
unfolding listed
listed_iff [] low high v = (λ m. absurd m, λ (p, m, e, f). m)
listed_iff (p ∷ ps) low high v =
    let here = add_within_iff (parse_int p) low high (listed ps low high) v in
    let ih = listed_iff ps low high v in
    (
      λ m. elim (here.0 m) [
        | inl (e, f) ↦ (p, inl refl, e, f)
        | inr m' ↦ let (q, i, e, f) = ih.0 m' in (q, inr i, e, f)
      ],
      λ (q, i, e, f). elim i [
        | inl same ↦ here.1 (inl (subst (λ w. parse_int w ≡ some v) same e, f))
        | inr later ↦ here.1 (inr (ih.1 (q, later, e, f)))
      ],
    )

stepped-none : (low high : ℕ) → stepped none low high ≡ []
unfolding stepped
stepped-none low high = refl

stepped_neg : (n low high : ℕ) → stepped (some (negsuc n)) low high ≡ []
unfolding stepped
stepped_neg n low high = ground arith

stepped-zero : (low high : ℕ) → stepped (some (pos zero)) low high ≡ []
unfolding stepped
stepped-zero low high = refl

single-Fits : (o : Option ℤ) (low high : ℕ) (v : ℤ) → In v (single o low high) → Fits low high v
single-Fits o low high v m = elim ((add_within_iff o low high [] v).0 m) [
  | inl (e, f) ↦ f
  | inr none_left ↦ absurd none_left
]

-- No step of the field comes near the end of int64.
abbrev pub SmallStep : ℕ → List ℕ → Type 0
SmallStep high field = (n : ℕ) → parse_int (drop 2 field) ≡ some (pos n) → high + n < 2 ^ 63

stepped-Fits :
    (o : Option ℤ) (low high : ℕ) (v : ℤ)
    → ((n : ℕ) → o ≡ some (pos n) → high + n < 2 ^ 63)
    → In v (stepped o low high)
    → Fits low high v
stepped-Fits none low high v small m = absurd (subst (In v) (stepped-none low high) m)
stepped-Fits (some (negsuc n)) low high v small m = absurd (subst (In v) (stepped_neg n low high) m)
stepped-Fits (some (pos zero)) low high v small m = absurd (subst (In v) (stepped-zero low high) m)
stepped-Fits (some (pos (suc n))) low high v small m =
    let (k, e, h) = (stepped_iff (suc n) low high v (omega arith) (small (suc n) refl)).0 m in
    subst (Fits low high) (sym e) (omega arith, omega arith)

ranged-none : (b : Option ℤ) (low high : ℕ) → ranged none b low high ≡ []
unfolding ranged
ranged-none b low high = refl

ranged_open : (s : ℤ) (low high : ℕ) → ranged (some s) none low high ≡ []
unfolding ranged
ranged_open s low high = refl

ranged_lem :
    (s e : ℤ) (low high : ℕ)
    → ranged (some s) (some e) low high
      ≡ (if ltb_ℤ e s then [] else range_loop (pos_part (min_ℤ e (pos high) +ℤ pos 1 -ℤ s)) s low)
unfolding ranged
ranged_lem s e low high = refl

range_loop-fits :
    (rounds : ℕ) (i : ℤ) (low : ℕ) (v : ℤ)
    → In v (range_loop rounds i low)
    → (i ≤ℤ v) × (pos_part v + neg_part i < pos_part i + rounds + neg_part v) × (pos low ≤ℤ v)
unfolding range_loop
range_loop-fits zero i low v m = absurd m
range_loop-fits (suc n) i low v m = go (range_loop-fits n (i +ℤ pos 1) low v) m
  where
    Holds : ℕ → ℤ → Type 0
    Holds n i = (i ≤ℤ v) × (pos_part v + neg_part i < pos_part i + n + neg_part v) × (pos low ≤ℤ v)

    next : Holds n (i +ℤ pos 1) → Holds (suc n) i
    next (a, b, c) = omega (arith, +ℤ_parts i (pos 1), a, b, c)

    go :
        (In v (range_loop n (i +ℤ pos 1) low) → Holds n (i +ℤ pos 1))
        → In v (
            if leb_ℤ (pos low) i
            then i ∷ range_loop n (i +ℤ pos 1) low
            else range_loop n (i +ℤ pos 1) low)
        → Holds (suc n) i
    go ih m' = elim (Bool-cases (leb_ℤ (pos low) i)) [
      | inl t ↦ elim (rw t at m') [
        | inl e ↦ rw e (omega arith, omega arith, ground arith)
        | inr later ↦ next (ih later)
      ]
      | inr f ↦ next (ih (rw f at m'))
    ]

rounds_bound :
    (a b : ℤ)
    → 0 < pos_part (a +ℤ pos 1 -ℤ b)
    → pos_part b + pos_part (a +ℤ pos 1 -ℤ b) + neg_part a ≡ pos_part a + 1 + neg_part b
unfolding ◌+ℤ◌ ◌-ℤ◌
rounds_bound a b h = ground arith

ranged-Fits : (a b : Option ℤ) (low high : ℕ) (v : ℤ) → In v (ranged a b low high) → Fits low high v
ranged-Fits none b low high v m = absurd (subst (In v) (ranged-none b low high) m)
ranged-Fits (some s) none low high v m = absurd (subst (In v) (ranged_open s low high) m)
ranged-Fits (some s) (some e) low high v m = elim (Bool-cases (ltb_ℤ e s)) [
  | inl t ↦ absurd (rw t at lemma_at)
  | inr t ↦
      let i : In v (range_loop rounds s low) = rw t at lemma_at in
      let (a, b, c) = range_loop-fits rounds s low v i in
      (c, ground (arith, rounds_bound (min_ℤ e (pos high)) s))
]
  where
    rounds : ℕ
    rounds = pos_part (min_ℤ e (pos high) +ℤ pos 1 -ℤ s)

    lemma_at : In v (if ltb_ℤ e s then [] else range_loop rounds s low)
    lemma_at = subst (In v) (ranged_lem s e low high) m

range_or_single-Fits :
    (parts : List (List ℕ)) (field : List ℕ) (low high : ℕ) (v : ℤ)
    → In v (range_or_single parts field low high)
    → Fits low high v
range_or_single-Fits (a ∷ b ∷ []) field low high v m = ranged-Fits _ _ low high v m
range_or_single-Fits [] field low high v m = single-Fits _ low high v m
range_or_single-Fits (a ∷ []) field low high v m = single-Fits _ low high v m
range_or_single-Fits (a ∷ b ∷ c ∷ r) field low high v m = single-Fits _ low high v m

-- Where min is at most max, every value that a field stands for lies between them, whatever its text,
-- unless it has a step near the end of int64.
parse_trimmed-Fits :
    (field : List ℕ) (low high : ℕ) (v : ℤ)
    → SmallStep high field
    → low ≤ high
    → In v (parse_trimmed field low high)
    → Fits low high v
unfolding parse_trimmed
parse_trimmed-Fits field low high v small lh m = elim (Bool-cases (same_text field [])) [
  | inl t ↦ absurd (rw t at m)
  | inr f₁ ↦ elim (Bool-cases (same_text field star)) [
    | inl t ↦
        let (x, e, a, b) = count_up_sound (high + 1 - low) low v (rw (f₁, t) at m) in
        subst (Fits low high) (sym e) (omega arith, omega arith)
    | inr f₂ ↦ elim (Bool-cases (has_prefix field star_slash)) [
      | inl t ↦ stepped-Fits _ low high v small (rw (f₁, f₂, t) at m)
      | inr f₃ ↦ elim (Bool-cases (contains_char b',' field)) [
        | inl t ↦
            let (part, k, e, f) =
              (listed_iff (split_on b',' field) low high v).0 (rw (f₁, f₂, f₃, t) at m) in
            f
        | inr f₄ ↦ elim (Bool-cases (contains_char b'-' field)) [
          | inl t ↦
              range_or_single-Fits (split_on b'-' field) field low high v
                (rw (f₁, f₂, f₃, f₄, t) at m)
          | inr f₅ ↦ single-Fits _ low high v (rw (f₁, f₂, f₃, f₄, f₅) at m)
        ]
      ]
    ]
  ]
]
