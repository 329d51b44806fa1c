-- ===== src/Cron/Next/Hash.antt =====
-- The hash of a job's id, in unsigned arithmetic.
use ocg.Base.{
  ℕ, ◌+◌, ◌-◌, ◌*◌, ◌%◌, ◌^◌, ◌<◌, ◌≡◌, refl, ap, ◌∙◌, inl, inr, List, [], ◌∷◌, arith, ltb,
  if◌then◌else◌, Bool-cases, if_true, if_false,
}
use ocg.Base.Int.{ℤ, pos, negsuc, ◌+ℤ◌, ◌*ℤ◌, wrap64}
use ocg.Cron.Next.{id_hash}

-- The number whose digits in base 31 are the codes of a text, after those of `h`.
abbrev pub digits : ℕ → List ℕ → ℕ
digits h [] = h
digits h (c ∷ s) = digits (h * 31 + c) s

-- 64 bits read as an int64.
abbrev pub signed : ℕ → ℤ
signed u = if ltb u (2 ^ 63) then pos u else negsuc (2 ^ 64 - u - 1)

step_low :
    (a c : ℕ)
    → a < 2 ^ 63
    → wrap64 (wrap64 (pos a *ℤ pos 31) +ℤ pos c) ≡ signed ((a * 31 + c) % 2 ^ 64)
unfolding wrap64 ◌*ℤ◌ ◌+ℤ◌
step_low a c h = ground arith

step_high :
    (n c : ℕ)
    → n < 2 ^ 63
    → wrap64 (wrap64 (negsuc n *ℤ pos 31) +ℤ pos c) ≡ signed (((2 ^ 64 - n - 1) * 31 + c) % 2 ^ 64)
unfolding wrap64 ◌*ℤ◌ ◌+ℤ◌
step_high n c h = ground arith

step :
    (u c : ℕ)
    → u < 2 ^ 64
    → wrap64 (wrap64 (signed u *ℤ pos 31) +ℤ pos c) ≡ signed ((u * 31 + c) % 2 ^ 64)
step u c h = elim (Bool-cases (ltb u (2 ^ 63))) [
  | inl low ↦
      ap (λ x. wrap64 (wrap64 (x *ℤ pos 31) +ℤ pos c)) (if_true _ _ low)
      ∙ step_low u c (ground arith)
  | inr high ↦
      let back : 2 ^ 64 - (2 ^ 64 - u - 1) - 1 ≡ u = omega arith in
      ap (λ x. wrap64 (wrap64 (x *ℤ pos 31) +ℤ pos c)) (if_false _ _ high)
      ∙ step_high (2 ^ 64 - u - 1) c (ground arith)
      ∙ ap (λ v. signed ((v * 31 + c) % 2 ^ 64)) back
]

-- The hash of the id, an int64 at every step, is its codes as digits in base 31, modulo 2^64.
pub id_hash-signed :
    (h : ℕ) (s : List ℕ) → id_hash (signed (h % 2 ^ 64)) s ≡ signed (digits h s % 2 ^ 64)
unfolding id_hash
id_hash-signed h [] = refl
id_hash-signed h (c ∷ s) =
    let same : (h % 2 ^ 64 * 31 + c) % 2 ^ 64 ≡ (h * 31 + c) % 2 ^ 64 = omega arith in
    ap (λ x. id_hash x s) (step (h % 2 ^ 64) c (omega arith) ∙ ap signed same)
    ∙ id_hash-signed (h * 31 + c) s
