-- ===== src/Thinking/Agree.antt =====
-- The reader of a stream against the parser of an answer.
use ocg.Base.{
  ℕ, zero, suc, ◌+◌, ◌-◌, ◌≤◌, ◌<◌, ◌≡◌, refl, sym, ap, ◌∙◌, subst, inl, inr, Bool, true, List, [],
  ◌∷◌, ◌++◌, some, length, take, drop, arith, ltb, if_true, Bool-cases, leb, leb→le, false,
  length-append, length-drop, length-take, drop-append, drop-drop, take-append-drop,
}
use mathlib.Core.List.{append_assoc}
use ocg.Base.Search.{index, Found, index-Found, index-parts, index-append, drop-append_all}
use ocg.Thinking.{
  open_tag, close_tag, add_block, without_block, next_block, from_start, parse_loop,
  parse_thinking_blocks, extract_at, extract_thinking_from_stream,
}
use ocg.Thinking.Blocks.{without_block-length, parse_loop_enough}

abbrev head : List ℕ → ℕ
head [] = 0
head (c ∷ s) = c

-- Inside a start tag no end tag begins.
inside_tag : (k : ℕ) (r : List ℕ) → 1 ≤ k → k ≤ 6 → head (drop k (open_tag ++ r)) ≡ b'<' → ⊥
inside_tag zero r lo hi e = omega arith
inside_tag (suc zero) r lo hi e = omega (arith, e)
inside_tag (suc (suc zero)) r lo hi e = omega (arith, e)
inside_tag (suc (suc (suc zero))) r lo hi e = omega (arith, e)
inside_tag (suc (suc (suc (suc zero)))) r lo hi e = omega (arith, e)
inside_tag (suc (suc (suc (suc (suc zero))))) r lo hi e = omega (arith, e)
inside_tag (suc (suc (suc (suc (suc (suc zero)))))) r lo hi e = omega (arith, e)
inside_tag (suc (suc (suc (suc (suc (suc (suc k))))))) r lo hi e = omega arith

drop-take : (n m : ℕ) (xs : List ℕ) → drop n (take m xs) ≡ take (m - n) (drop n xs)
drop-take zero m xs = ap (λ k. take k xs) (same m)
  where
    same : (m : ℕ) → m ≡ m - 0
    same m = omega arith
drop-take (suc n) zero xs = ap (λ k. take k (drop (suc n) xs)) less
  where
    less : 0 ≡ 0 - suc n
    less = omega arith
drop-take (suc n) (suc m) [] = sym (nothing (suc m - suc n))
  where
    nothing : (k : ℕ) → take {A = ℕ} k [] ≡ []
    nothing zero = refl
    nothing (suc k) = refl
drop-take (suc n) (suc m) (x ∷ xs) = drop-take n m xs ∙ ap (λ k. take k (drop n xs)) less
  where
    less : m - n ≡ suc m - suc n
    less = omega arith

first_round :
    (s : List ℕ) (begin finish : ℕ)
    → index open_tag s ≡ some begin
    → index close_tag (drop (begin + 7) s) ≡ some finish
    → parse_thinking_blocks s
      ≡ add_block
          (take finish (drop (begin + 7) s))
          (parse_loop (length s) (without_block s begin finish))
unfolding parse_thinking_blocks parse_loop
first_round s begin finish o c =
    ap (from_start (parse_loop (length s)) s) o ∙ ap (next_block (parse_loop (length s)) s begin) c

module _ (s : List ℕ) (begin finish : ℕ) (opens : index open_tag s ≡ some begin)
    (closes : index close_tag s ≡ some finish) (after : begin < finish) where
  -- What follows the end tag, and the text after the start tag.
  abbrev rest : List ℕ
  rest = drop (finish + 8) s

  abbrev inner : List ℕ
  inner = drop (begin + 7) s

  at_finish : drop finish s ≡ close_tag ++ rest
  at_finish =
      let (p, l) = index-parts close_tag s finish closes in
      ap (drop finish) (p ∙ append_assoc (take finish s) close_tag rest)
      ∙ ap (λ n. drop n (take finish s ++ (close_tag ++ rest))) (sym l)
      ∙ drop-append_all (take finish s) (close_tag ++ rest)

  at_begin : drop begin s ≡ open_tag ++ inner
  at_begin =
      let (p, l) = index-parts open_tag s begin opens in
      ap (drop begin) (p ∙ append_assoc (take begin s) open_tag inner)
      ∙ ap (λ n. drop n (take begin s ++ (open_tag ++ inner))) (sym l)
      ∙ drop-append_all (take begin s) (open_tag ++ inner)

  behind : begin + 7 ≤ finish
  behind = elim (Bool-cases (leb (begin + 7) finish)) [
    | inl fits ↦ leb→le (begin + 7) finish fits
    | inr short ↦ absurd (
        inside_tag (finish - begin) inner (omega arith) (small short) (
          ap head (
            ap (drop (finish - begin)) (sym at_begin)
            ∙ drop-drop (finish - begin) begin s
            ∙ ap (λ n. drop n s) sum
            ∙ at_finish)))
  ]
    where
      sum : begin + (finish - begin) ≡ finish
      sum = omega arith

      small : leb (begin + 7) finish ≡ false → finish - begin ≤ 6
      small h = ground arith

  -- The first end tag is the first one behind the start tag.
  closes_inner : index close_tag inner ≡ some (finish - (begin + 7))
  closes_inner =
      let (p, l) = index-parts close_tag s finish closes in
      let between = drop (begin + 7) (take finish s) in
      let cut : inner ≡ between ++ close_tag ++ rest =
        ap (drop (begin + 7)) (p ∙ append_assoc (take finish s) close_tag rest)
        ∙ drop-append (begin + 7) (take finish s) (close_tag ++ rest) (omega (arith, l, behind))
        ∙ sym (append_assoc between close_tag rest) in
      let (i, e, early) = index-append close_tag between rest in
      let found : index close_tag inner ≡ some i = ap (index close_tag) cut ∙ e in
      let ((a, b, q, k), _) = subst (Found close_tag inner) found (index-Found close_tag inner) in
      let late =
        (subst (Found close_tag s) closes (index-Found close_tag s)).1 (take (begin + 7) s ++ a) b (
          sym (take-append-drop (begin + 7) s)
          ∙ ap (λ x. take (begin + 7) s ++ x) (q ∙ append_assoc a close_tag b)
          ∙ sym (append_assoc (take (begin + 7) s) a (close_tag ++ b))
          ∙ sym (append_assoc (take (begin + 7) s ++ a) close_tag b)) in
      let place : i ≡ finish - (begin + 7) = omega (
        arith,
        behind,
        early,
        late,
        k,
        length-drop (begin + 7) (take finish s),
        l,
        length-append (take (begin + 7) s) a,
        length-take (begin + 7) s,
      ) in
      found ∙ ap some place

  -- Where the first end tag comes behind the first start tag, the reader of a stream does one round of
  -- the parser: its thinking is the parser's first block, and the other blocks and the rest are what the
  -- parser finds in what it leaves.
  pub extract_thinking_from_stream-parse_thinking_blocks :
      let (thinking, remaining, has_thinking) = extract_thinking_from_stream s in
      (has_thinking ≡ true)
      × (parse_thinking_blocks s ≡ add_block thinking (parse_thinking_blocks remaining))
  unfolding extract_thinking_from_stream
  extract_thinking_from_stream-parse_thinking_blocks = subst Agree (sym read) (refl, parsed)
    where
      more : ℕ
      more = finish - (begin + 7)

      left : List ℕ
      left = take begin s ++ drop (finish + 8) s

      Agree : List ℕ × List ℕ × Bool → Type 0
      Agree o = (o.2 ≡ true) × (parse_thinking_blocks s ≡ add_block o.0 (parse_thinking_blocks o.1))

      read :
          extract_at s (index open_tag s) (index close_tag s)
          ≡ (drop (begin + 7) (take finish s), left, true)
      read =
          ap (λ o. extract_at s o (index close_tag s)) opens
          ∙ ap (extract_at s (some begin)) closes
          ∙ if_true _ _ ahead
        where
          ahead : ltb begin finish ≡ true
          ahead = ground arith

      same_left : without_block s begin more ≡ left
      same_left =
          ap (λ x. take begin s ++ x)
            (drop-drop (more + 8) (begin + 7) s ∙ ap (λ n. drop n s) (sum behind))
        where
          sum : begin + 7 ≤ finish → begin + 7 + (more + 8) ≡ finish + 8
          sum h = omega arith

      shorter : length (without_block s begin more) < length s
      shorter = omega (arith, without_block-length s begin more opens closes_inner)

      parsed :
          parse_thinking_blocks s
          ≡ add_block (drop (begin + 7) (take finish s)) (parse_thinking_blocks left)
      parsed =
          first_round s begin more opens closes_inner
          ∙ ap (add_block (take more inner))
              (parse_loop_enough (length s) (without_block s begin more) shorter)
          ∙ ap (λ b. add_block b (parse_thinking_blocks (without_block s begin more)))
              (sym (drop-take (begin + 7) finish s))
          ∙ ap (λ w. add_block (drop (begin + 7) (take finish s)) (parse_thinking_blocks w))
              same_left
