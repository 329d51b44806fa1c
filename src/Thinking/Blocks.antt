-- ===== src/Thinking/Blocks.antt =====
-- What is left of an answer, and what its blocks are.
use ocg.Base.{
  ℕ, zero, suc, ◌+◌, ◌*◌, ◌≤◌, ◌<◌, ◌≡◌, sym, ap, ◌∙◌, ◌⊎◌, refl, subst, inl, inr, List, [], ◌∷◌,
  ◌++◌, none, some, length, take, drop, arith, All, Option-cases, length-append,
}
use ocg.Base.Search.{index, index-parts, index-take}
use ocg.Thinking.{
  open_tag, close_tag, add_block, without_block, next_block, from_start, parse_loop,
  parse_thinking_blocks,
}

abbrev pub total : List (List ℕ) → ℕ
total [] = 0
total (b ∷ bs) = length b + total bs

-- A round takes at least the two tags out.
pub without_block-length :
    (r : List ℕ) (begin finish : ℕ)
    → index open_tag r ≡ some begin
    → index close_tag (drop (begin + 7) r) ≡ some finish
    → length (without_block r begin finish) + finish + 15 ≡ length r
without_block-length r begin finish o c =
    let (p, l) = index-parts open_tag r begin o in
    let (q, k) = index-parts close_tag (drop (begin + 7) r) finish c in
    omega (
      arith,
      l,
      k,
      ap length p,
      ap length q,
      length-append (take begin r ++ open_tag) (drop (begin + 7) r),
      length-append (take begin r) open_tag,
      length-append (take finish (drop (begin + 7) r) ++ close_tag)
          (drop (finish + 8) (drop (begin + 7) r)),
      length-append (take finish (drop (begin + 7) r)) close_tag,
      length-append (take begin r) (drop (finish + 8) (drop (begin + 7) r)),
    )

-- A block is free of the tag that would end it.
abbrev pub IsClosed : List ℕ → Type 0
IsClosed b = index close_tag b ≡ none

-- Bounds on the blocks and the rest that a text of this length gives.
abbrev pub Bounded : ℕ → List (List ℕ) × List ℕ → Type 0
Bounded n (blocks, rest) =
    (index open_tag rest ≡ none)
    × All IsClosed blocks
    × (length rest + total blocks + 7 * length blocks ≤ n)

parse_loop-Bounded :
    (fuel : ℕ) (r : List ℕ) → length r < fuel → Bounded (length r) (parse_loop fuel r)
unfolding parse_loop
parse_loop-Bounded zero r h = absurd (omega arith)
parse_loop-Bounded (suc fuel) r h = elim (Option-cases (index open_tag r)) [
  | inl gone ↦
      subst (λ o. Bounded (length r) (from_start (parse_loop fuel) r o)) (sym gone)
        (gone, tt, omega arith)
  | inr (begin, o) ↦
      subst (λ k. Bounded (length r) (from_start (parse_loop fuel) r k)) (sym o)
        (elim (Option-cases (index close_tag (drop (begin + 7) r))) [
          | inl unclosed ↦
              let (p, l) = index-parts open_tag r begin o in
              subst (λ k. Bounded (length r) (next_block (parse_loop fuel) r begin k))
                (sym unclosed)
                (
                  index-take open_tag r begin (omega arith) o,
                  (unclosed, tt),
                  omega (
                    arith,
                    ap length p,
                    length-append (take begin r ++ open_tag) (drop (begin + 7) r),
                    length-append (take begin r) open_tag,
                  ),
                )
          | inr (finish, c) ↦
              subst (λ k. Bounded (length r) (next_block (parse_loop fuel) r begin k)) (sym c)
                (added (parse_loop fuel (without_block r begin finish)) begin finish o c (
                  parse_loop-Bounded fuel (without_block r begin finish)
                    (omega (arith, without_block-length r begin finish o c))))
        ])
]
  where
    added :
        (p : List (List ℕ) × List ℕ) (begin finish : ℕ)
        → index open_tag r ≡ some begin
        → index close_tag (drop (begin + 7) r) ≡ some finish
        → Bounded (length (without_block r begin finish)) p
        → Bounded (length r) (add_block (take finish (drop (begin + 7) r)) p)
    added (blocks, rest) begin finish o c (gone, closed, small) = (
      gone,
      (index-take close_tag (drop (begin + 7) r) finish (omega arith) c, closed),
      omega (
        arith,
        small,
        without_block-length r begin finish o c,
        (index-parts close_tag (drop (begin + 7) r) finish c).1,
      ),
    )

-- How a text gives its blocks and the rest. Without a start tag it is the rest itself. Else, with `a`
-- what stands before the first start tag, either the first block and an end tag follow, and the other
-- blocks and the rest are those of `a` joined with what comes after; or no end tag follows, and the
-- block is all that follows.
abbrev pub Rebuilt : List ℕ → List (List ℕ) → List ℕ → Type 0
Rebuilt s [] rest = (index open_tag s ≡ none) × (rest ≡ s)
Rebuilt s (b ∷ bs) rest =
    ((a : List ℕ) × (c : List ℕ) × (s ≡ a ++ open_tag ++ (b ++ close_tag ++ c))
      × (index open_tag s ≡ some (length a))
      × IsClosed b
      × Rebuilt (a ++ c) bs rest)
    ⊎ ((bs ≡ [])
        × (s ≡ rest ++ open_tag ++ b)
        × (index open_tag s ≡ some (length rest))
        × IsClosed b)

parse_loop-Rebuilt :
    (fuel : ℕ) (r : List ℕ)
    → length r < fuel
    → Rebuilt r (parse_loop fuel r).0 (parse_loop fuel r).1
unfolding parse_loop
parse_loop-Rebuilt zero r h = absurd (omega arith)
parse_loop-Rebuilt (suc fuel) r h = elim (Option-cases (index open_tag r)) [
  | inl gone ↦ subst (λ o. Whole (from_start (parse_loop fuel) r o)) (sym gone) (gone, refl)
  | inr (begin, o) ↦
      let (p, l) = index-parts open_tag r begin o in
      let at : index open_tag r ≡ some (length (take begin r)) = o ∙ ap (λ i. some i) (sym l) in
      subst (λ k. Whole (from_start (parse_loop fuel) r k)) (sym o)
        (elim (Option-cases (index close_tag (drop (begin + 7) r))) [
          | inl unclosed ↦
              subst (λ k. Whole (next_block (parse_loop fuel) r begin k)) (sym unclosed)
                (inr (refl, p, at, unclosed))
          | inr (finish, c) ↦
              let d = drop (begin + 7) r in
              subst (λ k. Whole (next_block (parse_loop fuel) r begin k)) (sym c)
                (inl (
                  take begin r,
                  drop (finish + 8) d,
                  p ∙ ap (λ x. take begin r ++ open_tag ++ x) (index-parts close_tag d finish c).0,
                  at,
                  index-take close_tag d finish (omega arith) c,
                  parse_loop-Rebuilt fuel (without_block r begin finish)
                      (omega (arith, without_block-length r begin finish o c)),
                ))
        ])
]
  where
    Whole : List (List ℕ) × List ℕ → Type 0
    Whole x = Rebuilt r x.0 x.1

-- What a text gives: how it is rebuilt from its blocks and the rest, and what these are free of.
abbrev pub Parsed : List ℕ → List (List ℕ) × List ℕ → Type 0
Parsed content (blocks, rest) =
    Rebuilt content blocks rest × Bounded (length content) (blocks, rest)

-- Every text gives its blocks in order and the rest: a block is what stands between the first start
-- tag and the first end tag after it, both of which are taken out with it, then the same of what is
-- left; after a start tag without an end, all that follows is the last block. No start tag is left in
-- the rest, no block has an end tag, and the rest, the blocks and one start tag for each block fit in
-- the text.
pub parse_thinking_blocks-Parsed :
    (content : List ℕ) → Parsed content (parse_thinking_blocks content)
unfolding parse_thinking_blocks
parse_thinking_blocks-Parsed content = (
  parse_loop-Rebuilt (suc (length content)) content (omega arith),
  parse_loop-Bounded (suc (length content)) content (omega arith),
)

-- More rounds than bytes change nothing: the loop ends by itself.
pub parse_loop_enough :
    (fuel : ℕ) (content : List ℕ)
    → length content < fuel
    → parse_loop fuel content ≡ parse_thinking_blocks content
unfolding parse_thinking_blocks parse_loop
parse_loop_enough fuel content h = same fuel (suc (length content)) content h (omega arith)
  where
    same : (a b : ℕ) (r : List ℕ) → length r < a → length r < b → parse_loop a r ≡ parse_loop b r
    same zero b r h k = absurd (omega arith)
    same (suc a) zero r h k = absurd (omega arith)
    same (suc a) (suc b) r h k = elim (Option-cases (index open_tag r)) [
      | inl gone ↦
          ap (from_start (parse_loop a) r) gone ∙ sym (ap (from_start (parse_loop b) r) gone)
      | inr (begin, o) ↦
          ap (from_start (parse_loop a) r) o
          ∙ (elim (Option-cases (index close_tag (drop (begin + 7) r))) [
            | inl unclosed ↦
                ap (next_block (parse_loop a) r begin) unclosed
                ∙ sym (ap (next_block (parse_loop b) r begin) unclosed)
            | inr (finish, c) ↦
                let shorter = without_block-length r begin finish o c in
                ap (next_block (parse_loop a) r begin) c
                ∙ ap (add_block (take finish (drop (begin + 7) r))) (
                    same a b (without_block r begin finish) (omega (arith, shorter))
                      (omega (arith, shorter)))
                ∙ sym (ap (next_block (parse_loop b) r begin) c)
          ])
          ∙ sym (ap (from_start (parse_loop b) r) o)
    ]

-- A second reading of the rest finds no block and leaves it as it is.
parse_thinking_blocks_twice :
    (content : List ℕ)
    → let rest = (parse_thinking_blocks content).1 in parse_thinking_blocks rest ≡ ([], rest)
unfolding parse_thinking_blocks parse_loop
parse_thinking_blocks_twice content =
    let rest = (parse_loop (suc (length content)) content).1 in
    ap (from_start (parse_loop (length rest)) rest)
      (parse_loop-Bounded (suc (length content)) content (omega arith)).0
