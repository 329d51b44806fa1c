-- ===== src/Base/Equality.antt =====
-- Boolean equality as an instance: numbers, texts, Booleans.
use Prim.Native.Nat.{ℕ, compare, Ordering}
use Prim.Native.String.{String}
use mathlib.Core.Path.{◌≡◌, ap, ◌∙◌}
use mathlib.Core.Logic.{◌↔◌}
use mathlib.Core.Bool.{Bool, true, false, ◌&&◌}
use native.Mathlib.Omega.{arith}
use text.Mathlib.Text.{◌==◌ as str_eq}
use text.Mathlib.TextEquality.{eq_iff}

pub record Comparable {ℓ} (A : Type ℓ) : Type ℓ where
  pub test : A → A → Bool
  pub test_iff : (a b : A) → (test a b ≡ true) ↔ (a ≡ b)

-- Texts are compared whole.
instance abbrev pub string_eq : Comparable String
string_eq = record { test = str_eq; test_iff = eq_iff }

infix 50 ◌==◌
abbrev pub ◌==◌ {ℓ} : {A : Type ℓ} ⦃e : Comparable A⦄ → A → A → Bool
◌==◌ ⦃e⦄ = e.test

abbrev pub nat_beq : ℕ → ℕ → Bool
nat_beq a b = elim (compare a b) [ Ordering.eq ↦ true | _ ↦ false ]

pub nat_beq_iff : (a b : ℕ) → (nat_beq a b ≡ true) ↔ (a ≡ b)
nat_beq_iff a b = ground arith

instance abbrev pub nat_eq : Comparable ℕ
nat_eq = record { test = nat_beq; test_iff = nat_beq_iff }

pub pair_iff {ℓ κ} :
    {A : Type ℓ} {B : Type κ} (e : Comparable A) (f : Comparable B) (p q : A × B)
    → ((e.test p.0 q.0 && f.test p.1 q.1) ≡ true) ↔ (p ≡ q)
pair_iff e f (a, b) (c, d) = (
  λ h.
      let (first, second) = both (e.test a c) (f.test b d) h in
      ap (λ x. (x, b)) ((e.test_iff a c).0 first) ∙ ap (λ y. (c, y)) ((f.test_iff b d).0 second),
  λ h. same ((e.test_iff a c).1 (ap (λ p. p.0) h)) ((f.test_iff b d).1 (ap (λ p. p.1) h)),
)
  where
    both : (x y : Bool) → (x && y) ≡ true → (x ≡ true) × (y ≡ true)
    both x y h = ground arith

    same : {x y : Bool} → x ≡ true → y ≡ true → (x && y) ≡ true
    same p q = ground arith

-- Pairs are compared in both places.
instance abbrev pub pair_eq {ℓ κ} :
    {A : Type ℓ} {B : Type κ} ⦃e : Comparable A⦄ ⦃f : Comparable B⦄ → Comparable (A × B)
pair_eq ⦃e⦄ ⦃f⦄ = record {
  test = λ p q. e.test p.0 q.0 && f.test p.1 q.1;
  test_iff = λ p q. pair_iff e f p q;
}
