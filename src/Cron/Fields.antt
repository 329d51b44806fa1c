-- ===== src/Cron/Fields.antt =====
-- cron/cron.go: `parseField` of a cron expression, and `contains`. Values are int, 64 bits wide.
pub mod Steps
pub mod Ranges
pub mod Values
use ocg.Base.{
  ℕ, zero, suc, ◌+◌, ◌-◌, ◌≡◌, Bool, true, false, ◌&&◌, ◌||◌, List, [], ◌∷◌, Option, none, some,
  if◌then◌else◌, leb, ltb, length, drop, ◌==◌, nat_eq, arith,
}
use ocg.Base.Int.{ℤ, pos, negsuc, ◌+ℤ◌, leb_ℤ, ltb_ℤ, pos_part, neg_part, sub_ℕ, ◌-ℤ◌, wrap64}
use ocg.Base.Text.{codes, same_text, trim_space, has_prefix, contains_char, split_on, atoi}

abbrev pub eq_ℤ : ℤ → ℤ → Bool
eq_ℤ a b = leb_ℤ a b && leb_ℤ b a

unfoldable pub contains : List ℤ → ℤ → Bool
contains [] val = false
contains (v ∷ slice) val = eq_ℤ v val || contains slice val

-- The helper `parseInt` inside `parseField`.
unfoldable pub parse_int : List ℕ → Option ℤ
unfolding atoi trim_space
parse_int val = atoi (trim_space val)

-- `min + i` for `i` below the count.
unfoldable pub count_up : ℕ → ℕ → List ℤ
count_up low zero = []
count_up low (suc n) = pos low ∷ count_up (suc low) n

-- `for i := min; i <= max; i += step`, with at most `fuel` rounds.
unfoldable pub step_loop : ℕ → ℤ → ℤ → ℤ → List ℤ
step_loop zero i step high = []
step_loop (suc fuel) i step high =
    let rest = step_loop fuel (wrap64 (i +ℤ step)) step high in
    if leb_ℤ i high then i ∷ rest else []

-- With `high - low + 1` values and steps of at least 1 the loop is over after that many rounds; a
-- step that overflows int64 makes three rounds more at most.
unfoldable pub stepped : Option ℤ → ℕ → ℕ → List ℤ
unfolding step_loop
stepped none low high = []
stepped (some step) low high =
    if leb_ℤ step (pos 0) then [] else step_loop (high + 5) (pos low) step (pos high)

abbrev pub within : ℕ → ℕ → ℤ → Bool
within low high n = leb_ℤ (pos low) n && leb_ℤ n (pos high)

-- A value that was parsed goes before the others if it lies within the bounds.
abbrev pub add_within : Option ℤ → ℕ → ℕ → List ℤ → List ℤ
add_within none low high rest = rest
add_within (some n) low high rest = if within low high n then n ∷ rest else rest

abbrev pub single : Option ℤ → ℕ → ℕ → List ℤ
single o low high = add_within o low high []

-- The loop over the parts of a list `1,3,5`.
unfoldable pub listed : List (List ℕ) → ℕ → ℕ → List ℤ
listed [] low high = []
listed (v ∷ vs) low high = add_within (parse_int v) low high (listed vs low high)

-- `for i := start; i <= end && i <= max; i++`, with the values below `min` left out.
unfoldable pub range_loop : ℕ → ℤ → ℕ → List ℤ
range_loop zero i low = []
range_loop (suc rounds) i low =
    let rest = range_loop rounds (i +ℤ pos 1) low in if leb_ℤ (pos low) i then i ∷ rest else rest

abbrev pub min_ℤ : ℤ → ℤ → ℤ
min_ℤ a b = if leb_ℤ a b then a else b

unfoldable pub ranged : Option ℤ → Option ℤ → ℕ → ℕ → List ℤ
unfolding range_loop
ranged none b low high = []
ranged (some start) none low high = []
ranged (some start) (some end) low high =
    if ltb_ℤ end start
    then []
    else range_loop (pos_part (min_ℤ end (pos high) +ℤ pos 1 -ℤ start)) start low

abbrev pub range_or_single : List (List ℕ) → List ℕ → ℕ → ℕ → List ℤ
range_or_single (a ∷ b ∷ []) field low high = ranged (parse_int a) (parse_int b) low high
range_or_single [] field low high = single (parse_int field) low high
range_or_single (a ∷ []) field low high = single (parse_int field) low high
range_or_single (a ∷ b ∷ c ∷ r) field low high = single (parse_int field) low high

abbrev pub star : List ℕ
star = b'*' ∷ []

abbrev pub star_slash : List ℕ
star_slash = b'*' ∷ b'/' ∷ []

-- The cases on the trimmed field.
unfoldable pub parse_trimmed : List ℕ → ℕ → ℕ → List ℤ
unfolding count_up stepped listed parse_int ranged split_on
parse_trimmed field low high =
    if same_text field []
    then []
    else if same_text field star
    then count_up low (high + 1 - low)
    else if has_prefix field star_slash
    then stepped (parse_int (drop 2 field)) low high
    else if contains_char b',' field
    then listed (split_on b',' field) low high
    else if contains_char b'-' field
    then range_or_single (split_on b'-' field) field low high
    else single (parse_int field) low high

unfoldable pub parse_field : List ℕ → ℕ → ℕ → List ℤ
unfolding parse_trimmed trim_space
parse_field field low high = parse_trimmed (trim_space field) low high
