-- ===== src/Cron/Next/Advance.antt =====
-- The loop that moves the next run past now.
use ocg.Base.{
  ℕ, zero, suc, ◌+◌, ◌*◌, ◌^◌, ◌≤◌, ◌<◌, ◌≡◌, ◌⊎◌, inl, inr, refl, sym, ap, ◌∙◌, true, false, some,
  string_eq, arith, Bool-cases,
}
use ocg.Base.Int.{
  ℤ, pos, ◌+ℤ◌, ◌≤ℤ◌, ◌<ℤ◌, leb_ℤ, pos_part, neg_part, rem_ℤ, wrap64, wrap64_id, +ℤ_parts,
  eq_of_parts,
}
use ocg.Cron.Next.{advance}

-- `r` is `base` plus a number of steps, and the first such instant after now.
abbrev pub FirstAfter : ℕ → ℕ → ℤ → ℤ → Type 0
FirstAfter now e base r =
    (k : ℕ) × (r ≡ base +ℤ pos (k * e)) × (pos now <ℤ r) × ((k ≡ 0) ⊎ (r ≤ℤ pos (now + e)))

advance_more :
    (fuel now : ℕ) (every base : ℤ)
    → leb_ℤ base (pos now) ≡ true
    → advance (suc fuel) now every base ≡ advance fuel now every (wrap64 (base +ℤ every))
unfolding advance
advance_more fuel now every base h = rw (h, advance)

advance_done :
    (fuel now : ℕ) (every base : ℤ)
    → leb_ℤ base (pos now) ≡ false
    → advance (suc fuel) now every base ≡ some base
unfolding advance
advance_done fuel now every base h = rw (h, advance)

pub plus_zero : (a : ℤ) → a +ℤ pos 0 ≡ a
plus_zero a = eq_of_parts _ _ (omega (arith, +ℤ_parts a (pos 0)))

plus_step : (a : ℤ) (k e : ℕ) → a +ℤ pos e +ℤ pos (k * e) ≡ a +ℤ pos (suc k * e)
plus_step a k e = eq_of_parts _ _ (
    grind (
      arith,
      +ℤ_parts a (pos e),
      +ℤ_parts (a +ℤ pos e) (pos (k * e)),
      +ℤ_parts a (pos (suc k * e)),
    ))

no_wrap :
    (now e : ℕ) (base : ℤ)
    → now < 2 ^ 61
    → e < 2 ^ 61
    → neg_part base < 2 ^ 62
    → base ≤ℤ pos now
    → wrap64 (base +ℤ pos e) ≡ base +ℤ pos e
unfolding ◌+ℤ◌
no_wrap now e base hn he hb h = ground (arith, wrap64_id (base +ℤ pos e))

neg_step : (e : ℕ) (base : ℤ) → neg_part (base +ℤ pos e) ≤ neg_part base
unfolding ◌+ℤ◌
neg_step e base = ground arith

-- One more round of the loop on the way to the first instant after now.
step-FirstAfter :
    (now e : ℕ) (base r : ℤ)
    → base ≤ℤ pos now
    → FirstAfter now e (base +ℤ pos e) r
    → FirstAfter now e base r
step-FirstAfter now e base r h (k, eq, later, bound) = (
  suc k,
  eq ∙ plus_step base k e,
  later,
  inr (elim bound [ inl none_more ↦ first_step none_more | inr b ↦ b ]),
)
  where
    first_step : k ≡ 0 → r ≤ℤ pos (now + e)
    first_step z =
        let q : r ≡ base +ℤ pos e =
          eq
          ∙ ap (λ n. base +ℤ pos e +ℤ pos (n * e)) z
          ∙ ap (λ n. base +ℤ pos e +ℤ pos n) (omega arith)
          ∙ plus_zero (base +ℤ pos e) in
        rw q (omega (arith, +ℤ_parts base (pos e), h))

pub rem-bounds : (a : ℤ) (d : ℕ) → 0 < d → (pos_part (rem_ℤ a d) < d) × (neg_part (rem_ℤ a d) < d)
unfolding rem_ℤ
rem-bounds a d h = ground (arith)

advance_past :
    (fuel now e : ℕ) (base : ℤ)
    → leb_ℤ base (pos now) ≡ false
    → (r : ℤ) × (advance (suc fuel) now (pos e) base ≡ some r) × FirstAfter now e base r
advance_past fuel now e base past = (
  base,
  advance_done fuel now (pos e) base past,
  (0, sym (plus_zero base) ∙ ap (λ n. base +ℤ pos n) (omega arith), ground arith, inl refl),
)

pub advance-FirstAfter :
    (fuel now e : ℕ) (base : ℤ)
    → 0 < e
    → e < 2 ^ 61
    → now < 2 ^ 61
    → neg_part base < 2 ^ 62
    → now + neg_part base < pos_part base + fuel
    → (r : ℤ) × (advance (suc fuel) now (pos e) base ≡ some r) × FirstAfter now e base r
advance-FirstAfter zero now e base h0 he hn hb hf = advance_past zero now e base (ground arith)
advance-FirstAfter (suc fuel) now e base h0 he hn hb hf = elim (Bool-cases (leb_ℤ base (pos now))) [
  | inr past ↦ advance_past (suc fuel) now e base past
  | inl due ↦
      let le : base ≤ℤ pos now = ground arith in
      let (r, q, f) =
        advance-FirstAfter fuel now e (base +ℤ pos e) h0 he hn (omega (arith, neg_step e base))
          (omega (arith, +ℤ_parts base (pos e))) in
      (
        r,
        advance_more (suc fuel) now (pos e) base due
            ∙ ap (advance (suc fuel) now (pos e)) (no_wrap now e base hn he hb le)
            ∙ q,
        step-FirstAfter now e base r le f,
      )
]
