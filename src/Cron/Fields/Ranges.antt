-- ===== src/Cron/Fields/Ranges.antt =====
-- The values of `*` and of `a-b`.
use ocg.Base.{
  ℕ, zero, suc, ◌+◌, ◌≤◌, ◌<◌, ◌≡◌, ◌↔◌, ◌⊎◌, inl, inr, refl, sym, ap, ◌∙◌, subst, true, false, [],
  ◌∷◌, some, if◌then◌else◌, leb, nat_eq, arith, In,
}
use ocg.Base.Int.{ℤ, pos, ◌+ℤ◌, ◌-ℤ◌, leb_ℤ, ltb_ℤ, pos_part}
use ocg.Cron.Fields.{count_up, range_loop, min_ℤ, ranged}
use ocg.Cron.Fields.Steps.{pos_add, le-or-lt}

-- The numbers from `low` on, below `top`.
abbrev pub Between : ℕ → ℕ → ℤ → Type 0
Between low top v = (x : ℕ) × (v ≡ pos x) × (low ≤ x) × (x < top)

pub count_up_sound : (n low : ℕ) (v : ℤ) → In v (count_up low n) → Between low (low + n) v
unfolding count_up
count_up_sound zero low v m = absurd m
count_up_sound (suc n) low v (inl e) = (low, e, omega arith, omega arith)
count_up_sound (suc n) low v (inr m) =
    let (x, e, h, k) = count_up_sound n (suc low) v m in (x, e, omega arith, omega arith)

pub count_up_complete : (n low x : ℕ) → low ≤ x → x < low + n → In (pos x) (count_up low n)
unfolding count_up
count_up_complete zero low x h k = absurd (omega arith)
count_up_complete (suc n) low x h k = elim (le-or-lt (suc low) x) [
  | inl more ↦ inr (count_up_complete n (suc low) x more (omega arith))
  | inr same ↦ inl (ap pos (omega arith))
]

pub pos_suc : (a : ℕ) → pos a +ℤ pos 1 ≡ pos (suc a)
pos_suc a = pos_add a 1 ∙ ap pos (omega arith)

pub range_loop_in :
    (n start low : ℕ)
    → low ≤ start
    → range_loop (suc n) (pos start) low ≡ pos start ∷ range_loop n (pos (suc start)) low
unfolding range_loop
range_loop_in n start low h =
    let t : leb_ℤ (pos low) (pos start) ≡ true = ground arith in rw (t, range_loop, pos_suc start)

pub range_loop_out :
    (n start low : ℕ)
    → start < low
    → range_loop (suc n) (pos start) low ≡ range_loop n (pos (suc start)) low
unfolding range_loop
range_loop_out n start low h =
    let t : leb_ℤ (pos low) (pos start) ≡ false = ground arith in rw (t, range_loop, pos_suc start)

pub range_loop-zero : (start low : ℕ) → range_loop zero (pos start) low ≡ []
unfolding range_loop
range_loop-zero start low = refl

-- The numbers from `start` on for some rounds, those below `low` left out.
abbrev pub InRange : ℕ → ℕ → ℕ → ℤ → Type 0
InRange rounds start low v = (x : ℕ) × (v ≡ pos x) × (start ≤ x) × (x < start + rounds) × (low ≤ x)

pub widen : (n start low : ℕ) (v : ℤ) → InRange n (suc start) low v → InRange (suc n) start low v
widen n start low v (x, e, a, b, c) = (x, e, omega arith, omega arith, c)

pub range_loop_sound :
    (rounds start low : ℕ) (v : ℤ)
    → In v (range_loop rounds (pos start) low)
    → InRange rounds start low v
range_loop_sound zero start low v m = absurd (subst (In v) (range_loop-zero start low) m)
range_loop_sound (suc n) start low v m = elim (le-or-lt low start) [
  | inl h ↦
      first_or_later (range_loop_sound n (suc start) low v) h
        (subst (In v) (range_loop_in n start low h) m)
  | inr h ↦
      widen n start low v
        (range_loop_sound n (suc start) low v (subst (In v) (range_loop_out n start low h) m))
]
  where
    first_or_later :
        (In v (range_loop n (pos (suc start)) low) → InRange n (suc start) low v)
        → low ≤ start
        → (v ≡ pos start) ⊎ In v (range_loop n (pos (suc start)) low)
        → InRange (suc n) start low v
    first_or_later ih h (inl e) = (start, e, omega arith, omega arith, h)
    first_or_later ih h (inr m') = widen n start low v (ih m')

pub range_loop_complete :
    (rounds start low x : ℕ)
    → start ≤ x
    → x < start + rounds
    → low ≤ x
    → In (pos x) (range_loop rounds (pos start) low)
range_loop_complete zero start low x h k l = absurd (omega arith)
range_loop_complete (suc n) start low x h k l = elim (le-or-lt low start) [
  | inr out ↦
      subst (In (pos x)) (sym (range_loop_out n start low out))
        (range_loop_complete n (suc start) low x (omega arith) (omega arith) l)
  | inl into ↦
      subst (In (pos x)) (sym (range_loop_in n start low into)) (elim (le-or-lt (suc start) x) [
        | inl more ↦ inr (range_loop_complete n (suc start) low x more (omega arith) l)
        | inr same ↦ inl (ap pos (omega arith))
      ])
]

pub rounds_of :
    (s e high : ℕ)
    → s ≤ e
    → pos_part (min_ℤ (pos e) (pos high) +ℤ pos 1 -ℤ pos s) + s
      ≡ (if leb (suc high) s then s else if leb e high then suc e else suc high)
unfolding ◌+ℤ◌ ◌-ℤ◌
rounds_of s e high h = ground arith

-- A field `a-b` with a up to b stands for the numbers from a to b that lie between min and max.
ranged_iff :
    (s e low high : ℕ) (v : ℤ)
    → s ≤ e
    → In v (ranged (some (pos s)) (some (pos e)) low high)
      ↔ ((x : ℕ) × (v ≡ pos x) × (s ≤ x) × (x ≤ e) × (low ≤ x) × (x ≤ high))
unfolding ranged
ranged_iff s e low high v h =
    let n = pos_part (min_ℤ (pos e) (pos high) +ℤ pos 1 -ℤ pos s) in
    let t : ltb_ℤ (pos e) (pos s) ≡ false = ground arith in
    let run : ranged (some (pos s)) (some (pos e)) low high ≡ range_loop n (pos s) low =
      rw (t, ranged) in
    (
      λ m.
          let (x, eq, a, b, c) = range_loop_sound n s low v (subst (In v) run m) in
          (x, eq, a, ground (arith, rounds_of s e high h), c, ground (arith, rounds_of s e high h)),
      λ (x, eq, a, b, c, d).
          subst (λ w. In w (ranged (some (pos s)) (some (pos e)) low high)) (sym eq)
            (subst (In (pos x)) (sym run)
              (range_loop_complete n s low x a (ground (arith, rounds_of s e high h)) c)),
    )
