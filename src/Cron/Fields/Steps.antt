-- ===== src/Cron/Fields/Steps.antt =====
-- Membership in a field's values, and the values of `*/n`.
use ocg.Base.{
  ℕ, zero, suc, ◌+◌, ◌*◌, ◌^◌, ◌≤◌, ◌<◌, ◌≡◌, ◌↔◌, ◌⊎◌, inl, inr, refl, sym, ap, subst, true, false,
  List, [], ◌∷◌, some, nat_eq, arith, In,
}
use ocg.Base.Int.{ℤ, pos, ◌+ℤ◌, leb_ℤ, wrap64, wrap64_id, eq_of_parts}
use ocg.Cron.Fields.{eq_ℤ, contains, step_loop, stepped}

pub eq_ℤ_iff : (a b : ℤ) → (eq_ℤ a b ≡ true) ↔ (a ≡ b)
eq_ℤ_iff a b = ground (arith, eq_of_parts a b)

-- `contains` decides membership.
pub contains_iff : (slice : List ℤ) (v : ℤ) → (contains slice v ≡ true) ↔ In v slice
unfolding contains
contains_iff [] v = ground arith
contains_iff (w ∷ slice) v = ground (arith, eq_ℤ_iff w v, contains_iff slice v)

pub pos_add : (a d : ℕ) → pos a +ℤ pos d ≡ pos (a + d)
unfolding ◌+ℤ◌
pos_add a d = ground arith

pub wrap_add : (a d : ℕ) → a + d < 2 ^ 63 → wrap64 (pos a +ℤ pos d) ≡ pos (a + d)
wrap_add a d h = rw (pos_add a d) (wrap64_id (pos (a + d)) h (omega arith))

-- One of the values a, a + d, a + 2 d, … up to `high`.
abbrev pub Progression : ℕ → ℕ → ℕ → ℤ → Type 0
Progression a d high v = (k : ℕ) × (v ≡ pos (a + k * d)) × (a + k * d ≤ high)

pub later_value : (a d high : ℕ) (v : ℤ) → Progression (a + d) d high v → Progression a d high v
later_value a d high v (k, e, h) = (suc k, rw e (ap pos (grind arith)), grind arith)

pub step_loop_in :
    (fuel a d high : ℕ)
    → a ≤ high
    → high + d < 2 ^ 63
    → step_loop (suc fuel) (pos a) (pos d) (pos high)
      ≡ pos a ∷ step_loop fuel (pos (a + d)) (pos d) (pos high)
unfolding step_loop
step_loop_in fuel a d high h hb =
    let t : leb_ℤ (pos a) (pos high) ≡ true = ground arith in
    rw (t, step_loop, wrap_add a d (omega arith))

pub step_loop_out :
    (fuel a d high : ℕ) → high < a → step_loop (suc fuel) (pos a) (pos d) (pos high) ≡ []
unfolding step_loop
step_loop_out fuel a d high h =
    let t : leb_ℤ (pos a) (pos high) ≡ false = ground arith in rw (t, step_loop)

pub le-or-lt : (a b : ℕ) → (a ≤ b) ⊎ (b < a)
le-or-lt a b = grind arith

pub step_loop-zero : (a d high : ℕ) → step_loop zero (pos a) (pos d) (pos high) ≡ []
unfolding step_loop
step_loop-zero a d high = refl

pub step_loop_sound :
    (fuel a d high : ℕ) (v : ℤ)
    → high + d < 2 ^ 63
    → In v (step_loop fuel (pos a) (pos d) (pos high))
    → Progression a d high v
step_loop_sound zero a d high v hb m = absurd (subst (In v) (step_loop-zero a d high) m)
step_loop_sound (suc fuel) a d high v hb m = elim (le-or-lt a high) [
  | inl le ↦
      first_or_later (step_loop_sound fuel (a + d) d high v hb) le
        (subst (In v) (step_loop_in fuel a d high le hb) m)
  | inr gt ↦ absurd (subst (In v) (step_loop_out fuel a d high gt) m)
]
  where
    first_or_later :
        (In v (step_loop fuel (pos (a + d)) (pos d) (pos high)) → Progression (a + d) d high v)
        → a ≤ high
        → (v ≡ pos a) ⊎ In v (step_loop fuel (pos (a + d)) (pos d) (pos high))
        → Progression a d high v
    first_or_later ih le (inl e) = (0, rw e (ap pos (omega arith)), omega arith)
    first_or_later ih le (inr m') = later_value a d high v (ih m')

pub step_loop_complete :
    (fuel a d high k : ℕ)
    → 0 < d
    → high + d < 2 ^ 63
    → high < a + fuel
    → a + k * d ≤ high
    → In (pos (a + k * d)) (step_loop fuel (pos a) (pos d) (pos high))
step_loop_complete zero a d high k hd hb hf h = absurd (grind arith)
step_loop_complete (suc fuel) a d high zero hd hb hf h =
    subst (In (pos (a + 0 * d))) (sym (step_loop_in fuel a d high (omega arith) hb))
      (inl (ap pos (omega arith)))
step_loop_complete (suc fuel) a d high (suc k) hd hb hf h =
    let regroup : a + suc k * d ≡ a + d + k * d = grind arith in
    subst (In (pos (a + suc k * d))) (sym (step_loop_in fuel a d high (grind arith) hb)) (
      inr (
        subst (λ n. In (pos n) (step_loop fuel (pos (a + d)) (pos d) (pos high))) (sym regroup)
          (step_loop_complete fuel (a + d) d high k hd hb (omega arith) (grind arith))))

-- A field `*/n` stands for min, min + n, min + 2 n, … up to max, for every n that does not come near
-- the end of int64.
pub stepped_iff :
    (step low high : ℕ) (v : ℤ)
    → 0 < step
    → high + step < 2 ^ 63
    → In v (stepped (some (pos step)) low high) ↔ Progression low step high v
unfolding stepped
stepped_iff step low high v hs hb =
    let t : leb_ℤ (pos step) (pos 0) ≡ false = ground arith in
    let run : stepped (some (pos step)) low high
        ≡ step_loop (high + 5) (pos low) (pos step) (pos high) =
      rw (t, stepped) in
    (
      λ m. step_loop_sound (high + 5) low step high v hb (subst (In v) run m),
      λ (k, e, h).
          subst (λ w. In w (stepped (some (pos step)) low high)) (sym e)
            (subst (In (pos (low + k * step))) (sym run)
              (step_loop_complete (high + 5) low step high k hs hb (omega arith) h)),
    )
