-- ===== src/Cron/Next/Every.antt =====
-- The next run of a job that is scheduled every so many milliseconds.
use ocg.Base.{
  ℕ, zero, suc, ◌+◌, ◌-◌, ◌*◌, ◌/◌, ◌%◌, ◌^◌, ◌≤◌, ◌<◌, ◌≡◌, ◌⊎◌, inl, inr, refl, sym, ap, ◌∙◌,
  subst, true, false, some, string_eq, arith, Bool-cases, if_true, if_false,
}
use ocg.Base.Int.{
  ℤ, pos, negsuc, ◌+ℤ◌, ◌-ℤ◌, ◌*ℤ◌, ◌≤ℤ◌, leb_ℤ, ltb_ℤ, pos_part, neg_part, rem_ℤ, wrap64,
  wrap64_id, -ℤ_parts,
}
use ocg.Base.Text.{codes}
use ocg.Cron.{Job}
use ocg.Cron.Fields.Steps.{pos_add}
use ocg.Cron.Next.{
  id_hash, aligned, after_every, every_base, staggered, advance, advance_fuel, next_every,
}
use ocg.Cron.Next.Hash.{digits, signed, id_hash-signed}
use ocg.Cron.Next.Advance.{FirstAfter, plus_zero, advance-FirstAfter}

pos_sub : (a b : ℕ) → b ≤ a → pos a -ℤ pos b ≡ pos (a - b)
unfolding ◌-ℤ◌
pos_sub a b h = ground arith

pos_mul : (a b : ℕ) → pos a *ℤ pos b ≡ pos (a * b)
unfolding ◌*ℤ◌
pos_mul a b = ground arith

wrap_pos : (n : ℕ) → n < 2 ^ 63 → wrap64 (pos n) ≡ pos n
wrap_pos n h = wrap64_id (pos n) h (omega arith)

quotient_bound : (n e : ℕ) → 0 < e → (n / e + 1) * e ≤ n + e
quotient_bound n e h = grind arith

quotient-le : (n e : ℕ) → n / e ≤ n
quotient-le n e = omega arith

-- The instants of an anchored schedule do not wrap while they are below 2^62.
aligned_lem :
    (now e a : ℕ)
    → 0 < e
    → now < 2 ^ 60
    → e < 2 ^ 60
    → a ≤ now
    → aligned now (pos a) (pos e) ≡ pos (a + ((now - a) / e + 1) * e)
unfolding aligned
aligned_lem now e a he hn he' h =
    let q = (now - a) / e in
    let b₁ : q ≤ now - a = quotient-le (now - a) e in
    let b₂ : (q + 1) * e ≤ now - a + e = quotient_bound (now - a) e he in
    rw
      (
        pos_sub now a h,
        wrap_pos (now - a) (omega arith),
        pos_add q 1,
        wrap_pos (q + 1) (omega arith),
        pos_mul (q + 1) e,
        wrap_pos ((q + 1) * e) (omega arith),
        pos_add a ((q + 1) * e),
      )
      (wrap_pos (a + (q + 1) * e) (omega arith))

after_every_lem : (now e : ℕ) → e < 2 ^ 43 → after_every now (pos e) ≡ pos (now + e)
unfolding after_every
after_every_lem now e h =
    rw (pos_mul e 1000000, wrap_pos (e * 1000000) (omega arith))
      (pos_add now (e * 1000000 / 1000000) ∙ ap pos (omega arith))

-- The base of a schedule of interval `e`: the anchor while it lies ahead; else the first instant after
-- now that is a number of intervals from it; with no anchor, one interval from now.
abbrev pub Base : ℕ → ℕ → ℤ → ℕ → Type 0
Base now e anchor b =
    ((anchor ≡ pos b) × (now < b))
    ⊎ ((a : ℕ) × (anchor ≡ pos a) × (0 < a) × (a ≤ now) × (b ≡ a + ((now - a) / e + 1) * e))
    ⊎ ((anchor ≤ℤ pos 0) × (b ≡ now + e))

-- The branches of `every_base`, none of which wraps.
every_base_lem :
    (now e : ℕ) (anchor : ℤ)
    → 0 < e
    → e < 2 ^ 43
    → now < 2 ^ 60
    → ((a : ℕ) × (anchor ≡ pos a) × (now < a) × (every_base now anchor (pos e) ≡ pos a))
      ⊎ ((a : ℕ) × (anchor ≡ pos a)
          × (0 < a)
          × (a ≤ now)
          × (every_base now anchor (pos e) ≡ pos (a + ((now - a) / e + 1) * e)))
      ⊎ ((anchor ≤ℤ pos 0) × (every_base now anchor (pos e) ≡ pos (now + e)))
unfolding every_base
every_base_lem now e (negsuc n) he he' hn =
    inr (inr (omega arith, ground (arith, after_every_lem now e he')))
every_base_lem now e (pos zero) he he' hn =
    inr (inr (omega arith, ground (arith, after_every_lem now e he')))
every_base_lem now e (pos (suc a)) he he' hn = elim (Bool-cases (ltb_ℤ (pos now) (pos (suc a)))) [
  | inl ahead ↦ inl (suc a, refl, ground arith, ground arith)
  | inr begun ↦
      let h : suc a ≤ now = ground arith in
      inr (
        inl (
          suc a,
          refl,
          omega arith,
          h,
          ground (arith, aligned_lem now e (suc a) he hn (omega arith) h),
        ))
]

every_base-Base :
    (now e : ℕ) (anchor : ℤ)
    → 0 < e
    → e < 2 ^ 43
    → now < 2 ^ 60
    → anchor ≤ℤ pos (2 ^ 60)
    → (b : ℕ) × (every_base now anchor (pos e) ≡ pos b) × Base now e anchor b × (b ≤ 2 ^ 61)
every_base-Base now e anchor he he' hn ha = elim (every_base_lem now e anchor he he' hn) [
  | inl (a, eq, h, q) ↦ (a, q, inl (eq, h), omega (arith, subst (λ x. x ≤ℤ pos (2 ^ 60)) eq ha))
  | inr (inl (a, eq, p, h, q)) ↦ (
    a + ((now - a) / e + 1) * e,
    q,
    inr (inl (a, eq, p, h, refl)),
    omega (arith, quotient_bound (now - a) e he),
  )
  | inr (inr (h, q)) ↦ (now + e, q, inr (inr (h, refl)), omega arith)
]

neg_of_pos : (x : ℤ) → ltb_ℤ (pos 0) x ≡ true → neg_part x ≡ 0
neg_of_pos x h = ground arith

shift_bounds :
    (b : ℕ) (d : ℤ)
    → (pos_part (pos b +ℤ d) ≤ b + pos_part d) × (neg_part (pos b +ℤ d) ≤ neg_part d)
unfolding ◌+ℤ◌
shift_bounds b d = ground arith

-- How far the stagger of a job moves its base: not at all, or by the remainder by the stagger of the
-- job's id, read as digits in base 31 and kept in 64 bits with a sign. The remainder has that sign too.
abbrev pub Shift : Job → ℤ → Type 0
Shift job d =
    let h = signed (digits 0 (codes job.id) % 2 ^ 64) in
    ((job.schedule.stagger_ms ≤ℤ pos 0) × (d ≡ pos 0))
    ⊎ ((n : ℕ) × (job.schedule.stagger_ms ≡ pos n)
        × (0 < n)
        × (pos_part d ≡ pos_part h % n)
        × (neg_part d ≡ neg_part h % n))

rem-parts :
    (a : ℤ) (n : ℕ)
    → 0 < n
    → (pos_part (rem_ℤ a n) ≡ pos_part a % n) × (neg_part (rem_ℤ a n) ≡ neg_part a % n)
unfolding rem_ℤ
rem-parts a n h = ground arith

Shift-small :
    (job : Job) (d : ℤ)
    → pos_part job.schedule.stagger_ms < 2 ^ 60
    → Shift job d
    → (pos_part d < 2 ^ 60) × (neg_part d < 2 ^ 60)
Shift-small job d h (inl (off, e)) = (omega (arith, ap pos_part e), omega (arith, ap neg_part e))
Shift-small job d h (inr (n, e, p, a, b)) =
    let s = ap pos_part e in (grind (arith, s, a), grind (arith, s, b))

staggered-Shift :
    (job : Job) (b : ℕ)
    → pos_part job.schedule.stagger_ms < 2 ^ 60
    → b ≤ 2 ^ 61
    → (d : ℤ) × (staggered job (pos b) ≡ pos b +ℤ d) × Shift job d
unfolding staggered
staggered-Shift job b hs hb = elim (Bool-cases (ltb_ℤ (pos 0) job.schedule.stagger_ms)) [
  | inr off ↦ (pos 0, if_false _ _ off ∙ sym (plus_zero (pos b)), inl (ground arith, refl))
  | inl on ↦
      let n = pos_part job.schedule.stagger_ms in
      let d = rem_ℤ (id_hash (pos 0) (codes job.id)) n in
      let (p, q) = rem-parts (id_hash (pos 0) (codes job.id)) n (ground arith) in
      let hash = id_hash-signed 0 (codes job.id) in
      let moved : Shift job d = inr (
        n,
        ground arith,
        ground arith,
        p ∙ ap (λ h. pos_part h % n) hash,
        q ∙ ap (λ h. neg_part h % n) hash,
      ) in
      let (s, t) = Shift-small job d hs moved in
      let (u, l) = shift_bounds b d in
      (d, if_true _ _ on ∙ wrap64_id (pos b +ℤ d) (omega arith) (omega arith), moved)
]

next_every_lem :
    (now : ℕ) (job : Job) (e : ℕ) (base : ℤ)
    → job.schedule.every_ms ≡ pos e
    → 0 < e
    → staggered job (every_base now job.schedule.anchor_ms (pos e)) ≡ base
    → next_every now job ≡ advance (advance_fuel now base) now (pos e) base
unfolding next_every
next_every_lem now job e base ee he eb =
    let t : leb_ℤ job.schedule.every_ms (pos 0) ≡ false = ground arith in
    if_false _ _ t
    ∙ ap
        (λ x.
          advance (advance_fuel now (staggered job (every_base now job.schedule.anchor_ms x))) now x
            (staggered job (every_base now job.schedule.anchor_ms x)))
        ee
    ∙ ap (λ x. advance (advance_fuel now x) now (pos e) x) eb

-- For an interval below 2^43 ms, times and a stagger below 2^60 ms and an anchor up to 2^60 ms, the
-- calculation for a job that runs every so often returns the first instant after now that is a whole
-- number of intervals from the base, once this is moved by the remainder of the hash of the job's id
-- by the job's stagger, or not at all if the job has no positive stagger. The base is the anchor while
-- it lies ahead, else the first instant after now that is a number of intervals from the anchor, and
-- without a positive anchor one interval from now.
pub next_every-FirstAfter :
    (now e : ℕ) (job : Job)
    → job.schedule.every_ms ≡ pos e
    → pos_part job.schedule.stagger_ms < 2 ^ 60
    → job.schedule.anchor_ms ≤ℤ pos (2 ^ 60)
    → 0 < e
    → e < 2 ^ 43
    → now < 2 ^ 60
    → (r : ℤ) × (b : ℕ) × (d : ℤ) × (next_every now job ≡ some r)
      × Base now e job.schedule.anchor_ms b
      × Shift job d
      × FirstAfter now e (pos b +ℤ d) r
next_every-FirstAfter now e job ee hs ha he he' hn =
    let anchor = job.schedule.anchor_ms in
    let (b, eb, is_base, bb) = every_base-Base now e anchor he he' hn ha in
    let (d, ed, moved) = staggered-Shift job b hs bb in
    let (d₁, d₂) = Shift-small job d hs moved in
    let base : ℤ = pos b +ℤ d in
    let (u, l) = shift_bounds b d in
    let (r, run, f) =
      advance-FirstAfter (suc (pos_part (pos now -ℤ base))) now e base he (omega arith)
        (omega arith) (omega arith) (omega (arith, -ℤ_parts (pos now) base)) in
    (
      r,
      b,
      d,
      next_every_lem now job e base ee he (ap (λ x. staggered job x) eb ∙ ed) ∙ run,
      is_base,
      moved,
      f,
    )
