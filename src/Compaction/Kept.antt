-- ===== src/Compaction/Kept.antt =====
-- What a compaction keeps of a session, and what it loses.
use ocg.Base.{
  ℕ, zero, suc, ◌-◌, ◌≤◌, ◌≡◌, refl, sym, ap, ◌∙◌, subst, ◌⊎◌, inl, inr, true, List, [], ◌∷◌, ◌++◌,
  map, length, take, arith, In, Bool-cases, false-ne-true, append-In, In-parts,
}
use ocg.Base.Int.{ℤ}
use ocg.Base.Text.{text_eq}
use ocg.Compaction.{
  Text, Message, Storage, rows, upsert_session_meta, is_summary, build_summary, Writes, Conditions,
  maybe_compact,
}
use ocg.Compaction.Order.{InOrder, InOrder-take}
use ocg.Compaction.Compacted.{AllDone, said, said-stamped, summary_said}
use ocg.Compaction.Inserted.{inserted, rows-compacted}
use ocg.Compaction.Reported.{seen, old_ones, kept_ones, counted, counted_store, outcome-cases}
use ocg.Compaction.Shrunk.{IsSound, map-In, stamped-In, old-archived}

-- Every statement succeeds, the session's rows are in the order of their ids and instants, and a
-- compaction is reported: the session then holds the messages that were kept of its first 500, in
-- their order, and after them the summary of those before.
pub maybe_compact-rows :
    (c : Conditions) (w : Writes) (now : ℕ) (threshold : ℤ) (estimate : List Message → ℕ)
    (keep_messages : ℕ) (key : Text) (s : Storage)
    → AllDone w
    → InOrder (rows key s.messages)
    → let o = maybe_compact c w now threshold estimate keep_messages key s in
      o.0 ≡ true
      → map said (rows key o.1.messages)
        ≡ map said (kept_ones keep_messages key s)
          ++ summary_said (build_summary (old_ones keep_messages key s)) ∷ []
unfolding upsert_session_meta
maybe_compact-rows c w now threshold estimate keep_messages key s done order reported =
    elim (outcome-cases c w now threshold estimate keep_messages key s done order) [
      | inl (r, h, e) ↦
          ap (λ (o : Storage). map said (rows key o.messages)) e
          ∙ ap (map said) (
              rows-compacted now key (counted estimate key s) (old_ones keep_messages key s)
                (kept_ones keep_messages key s) (counted_store estimate key s))
          ∙ said-stamped now key s.next_id
              (inserted (old_ones keep_messages key s) (kept_ones keep_messages key s))
      | inr (r, e) ↦ absurd (false-ne-true r reported)
    ]

take_all : (n : ℕ) (xs : List Message) → length xs ≤ n → take n xs ≡ xs
take_all n [] h = nil n
  where
    nil : (n : ℕ) → take {A = Message} n [] ≡ []
    nil zero = refl
    nil (suc n) = refl
take_all zero (x ∷ xs) h = absurd (omega arith)
take_all (suc n) (x ∷ xs) h = ap (◌∷◌ x) (take_all n xs (omega arith))

-- A session of at most 500 messages with sound tables loses none when every statement succeeds and
-- a compaction is reported: each is archived, or stands in the session again with its role and
-- content, or is itself an earlier summary.
pub maybe_compact_keeps :
    (c : Conditions) (w : Writes) (now : ℕ) (threshold : ℤ) (estimate : List Message → ℕ)
    (keep_messages : ℕ) (key : Text) (s : Storage) (m : Message)
    → AllDone w
    → IsSound key s
    → length (rows key s.messages) ≤ 500
    → In m (rows key s.messages)
    → let o = maybe_compact c w now threshold estimate keep_messages key s in
      o.0 ≡ true
      → (is_summary m ≡ true)
        ⊎ In m o.1.archive
        ⊎ ((n : Message) × In n (rows key o.1.messages) × (said n ≡ said m))
unfolding upsert_session_meta
maybe_compact_keeps c w now threshold estimate keep_messages key s m done sound few row reported =
    elim (outcome-cases c w now threshold estimate keep_messages key s done sound.0) [
      | inr (r, e) ↦ absurd (false-ne-true r reported)
      | inl (r, h, e) ↦
          subst Safe (sym e) (elim (In-parts cut m (seen key s) (subst (In m) (sym all) row)) [
            | inl k ↦ elim (Bool-cases (is_summary m)) [
              | inl summary ↦ inl summary
              | inr plain ↦ inr (
                  inl (
                    old-archived now key estimate old kept s m sound
                      (InOrder-take cut (seen key s)
                        (InOrder-take 500 (rows key s.messages) sound.0))
                      row k plain))
            ]
            | inr k ↦
                let (n, l, q) = stamped-In now key s.next_id (said m) (inserted old kept) (
                  append-In (said m) (map said kept) (summary_said (build_summary old) ∷ [])
                    (inl (map-In m kept k))) in
                inr (
                  inr (
                    n,
                    subst (In n)
                        (sym (
                          rows-compacted now key (counted estimate key s) old kept
                            (counted_store estimate key s)))
                        l,
                    q,
                  ))
          ])
    ]
  where
    cut : ℕ
    cut = length (seen key s) - keep_messages

    old : List Message
    old = old_ones keep_messages key s

    kept : List Message
    kept = kept_ones keep_messages key s

    all : seen key s ≡ rows key s.messages
    all = take_all 500 (rows key s.messages) few

    Safe : Storage → Type 0
    Safe o =
        (is_summary m ≡ true)
        ⊎ (In m o.archive ⊎ ((n : Message) × In n (rows key o.messages) × (said n ≡ said m)))
