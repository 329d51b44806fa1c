-- ===== src/Base/Text.antt =====
-- Go's strings and strconv functions that the program calls, over lists of code points.
use Prim.Native.Char.{code}
use Prim.Native.String.{String}
use Prim.Native.Nat.{ℕ, ◌+◌, ◌-◌, ◌*◌, ◌^◌}
use mathlib.Core.Bool.{Bool, true, false, ◌&&◌, ◌||◌}
use mathlib.Core.Option.{Option, none, some}
use mathlib.Core.List.{List, [], ◌∷◌, reverse}
use ocg.Base.Tests.{if◌then◌else◌, leb, ltb}
use ocg.Base.Equality.{Comparable, ◌==◌, nat_eq}
use mathlib.Core.Path.{◌≡◌}
use mathlib.Core.Logic.{◌↔◌}
use native.Mathlib.Omega.{arith}
use ocg.Base.Int.{ℤ, pos, sub_ℕ}

-- The code points of a text. `String` has its own `[]` and `∷`.
abbrev pub codes : String → List ℕ
codes String.[] = []
codes (String.◌∷◌ c s) = code c ∷ codes s

abbrev pub same_text : List ℕ → List ℕ → Bool
same_text [] [] = true
same_text [] (y ∷ ys) = false
same_text (x ∷ xs) [] = false
same_text (x ∷ xs) (y ∷ ys) = x == y && same_text xs ys

pub same_text_iff : (xs ys : List ℕ) → (same_text xs ys ≡ true) ↔ (xs ≡ ys)
same_text_iff [] [] = ground arith
same_text_iff [] (y ∷ ys) = ground arith
same_text_iff (x ∷ xs) [] = ground arith
same_text_iff (x ∷ xs) (y ∷ ys) = ground (arith, nat_eq.test_iff x y, same_text_iff xs ys)

instance abbrev pub text_eq : Comparable (List ℕ)
text_eq = record { test = same_text; test_iff = same_text_iff }

-- unicode.IsSpace.
unfoldable pub is_space : ℕ → Bool
is_space c =
    (leb 9 c && leb c 13)
    || c == 32
    || c == 0x85
    || c == 0xA0
    || c == 0x1680
    || (leb 0x2000 c && leb c 0x200a)
    || c == 0x2028
    || c == 0x2029
    || c == 0x202f
    || c == 0x205f
    || c == 0x3000

unfoldable pub trim_left : List ℕ → List ℕ
unfolding is_space
trim_left [] = []
trim_left (c ∷ s) = if is_space c then trim_left s else c ∷ s

-- strings.TrimSpace.
unfoldable pub trim_space : List ℕ → List ℕ
unfolding trim_left
trim_space s = reverse (trim_left (reverse (trim_left s)))

abbrev pub has_prefix : List ℕ → List ℕ → Bool
has_prefix s [] = true
has_prefix [] (p ∷ ps) = false
has_prefix (c ∷ s) (p ∷ ps) = c == p && has_prefix s ps

-- strings.Contains with a text of one character.
abbrev pub contains_char : ℕ → List ℕ → Bool
contains_char d [] = false
contains_char d (c ∷ s) = c == d || contains_char d s

abbrev pub cons_first : ℕ → List (List ℕ) → List (List ℕ)
cons_first c [] = (c ∷ []) ∷ []
cons_first c (p ∷ ps) = (c ∷ p) ∷ ps

-- strings.Split at one character; it never gives an empty list.
unfoldable pub split_on : ℕ → List ℕ → List (List ℕ)
split_on d [] = [] ∷ []
split_on d (c ∷ s) = let rest = split_on d s in if c == d then [] ∷ rest else cons_first c rest

abbrev pub drop_empty : List (List ℕ) → List (List ℕ)
drop_empty [] = []
drop_empty ([] ∷ ps) = drop_empty ps
drop_empty ((c ∷ s) ∷ ps) = (c ∷ s) ∷ drop_empty ps

unfoldable pub split_spaces : List ℕ → List (List ℕ)
unfolding is_space
split_spaces [] = [] ∷ []
split_spaces (c ∷ s) =
    let rest = split_spaces s in if is_space c then [] ∷ rest else cons_first c rest

-- strings.Fields.
unfoldable pub fields : List ℕ → List (List ℕ)
unfolding split_spaces
fields s = drop_empty (split_spaces s)

-- The value of a run of digits, counted on from `n`.
unfoldable pub digits_value : ℕ → List ℕ → Option ℕ
digits_value n [] = some n
digits_value n (c ∷ s) =
    let rest = digits_value (n * 10 + (c - b'0')) s in
    if leb b'0' c && leb c b'9' then rest else none

abbrev pub in_range : Bool → Option ℕ → Option ℤ
in_range minus none = none
in_range true (some n) = if leb n (2 ^ 63) then some (sub_ℕ 0 n) else none
in_range false (some n) = if ltb n (2 ^ 63) then some (pos n) else none

unfoldable pub unsigned : Bool → List ℕ → Option ℤ
unfolding digits_value
unsigned minus [] = none
unsigned minus (c ∷ s) = in_range minus (digits_value 0 (c ∷ s))

-- strconv.Atoi, on 64 bits.
unfoldable pub atoi : List ℕ → Option ℤ
unfolding unsigned
atoi [] = none
atoi (c ∷ s) =
    if c == b'-'
    then unsigned true s
    else if c == b'+'
    then unsigned false s
    else unsigned false (c ∷ s)
