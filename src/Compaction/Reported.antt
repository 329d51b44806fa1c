-- ===== src/Compaction/Reported.antt =====
-- What it means that a compaction reports true.
use ocg.Base.{
  ℕ, zero, suc, ◌-◌, ◌<◌, ◌≡◌, refl, sym, ap, ◌∙◌, subst, ◌⊎◌, inl, inr, Bool, true, false, ◌&&◌,
  ◌||◌, List, [], ◌∷◌, if◌then◌else◌, leb, length, take, drop, arith, Bool-cases, if_true, if_false,
}
use ocg.Base.Int.{ℤ, pos, ltb_ℤ}
use ocg.Base.Text.{text_eq}
use ocg.Compaction.{
  Text, Message, SessionMeta, Storage, rows, get_messages, get_session_meta, upsert_session_meta,
  Writes, compact_stored, Conditions, compact_from, maybe_compact,
}
use ocg.Compaction.Order.{InOrder, by_age-InOrder}
use ocg.Compaction.Compacted.{AllDone, compacted, compact_stored-compacted}

-- The messages that are looked at, the old ones of them, and the ones that are kept.
abbrev pub seen : Text → Storage → List Message
seen key s = take 500 (rows key s.messages)

abbrev pub old_ones : ℕ → Text → Storage → List Message
old_ones keep_messages key s = take (length (seen key s) - keep_messages) (seen key s)

abbrev pub kept_ones : ℕ → Text → Storage → List Message
kept_ones keep_messages key s = drop (length (seen key s) - keep_messages) (seen key s)

-- The metadata with the tokens counted, and the store once they are written.
abbrev pub counted : (List Message → ℕ) → Text → Storage → SessionMeta
counted estimate key s = record (get_session_meta key s) { total_tokens = estimate (seen key s) }

abbrev pub counted_store : (List Message → ℕ) → Text → Storage → Storage
counted_store estimate key s = upsert_session_meta true key (counted estimate key s) s

take_pos :
    (n : ℕ) (xs : List Message)
    → 0 < n
    → 0 < length xs
    → (m : Message) × (ms : List Message) × (take n xs ≡ m ∷ ms)
take_pos zero xs h k = absurd (omega arith)
take_pos (suc n) [] h k = absurd (omega arith)
take_pos (suc n) (x ∷ xs) h k = (x, take n xs, refl)

module _ (c : Conditions) (w : Writes) (now : ℕ) (threshold : ℤ) (estimate : List Message → ℕ)
    (keep_messages : ℕ) (key : Text) (s : Storage) where
  abbrev pub outcome : Bool × Storage
  outcome = maybe_compact c w now threshold estimate keep_messages key s

  abbrev too_few : Bool
  too_few = ltb_ℤ (pos (estimate (seen key s))) threshold || leb (length (seen key s)) keep_messages

  -- Of the tables only what `compacted` says changes; with a report of false, only the count of tokens.
  pub outcome-cases :
      AllDone w
      → InOrder (rows key s.messages)
      → ((outcome.0 ≡ true)
          × (keep_messages < length (seen key s))
          × (outcome.1
              ≡ compacted now key
                  (counted estimate key s)
                  (old_ones keep_messages key s)
                  (kept_ones keep_messages key s)
                  (counted_store estimate key s)))
        ⊎ ((outcome.0 ≡ false) × ((outcome.1 ≡ s) ⊎ (outcome.1 ≡ counted_store estimate key s)))
  unfolding maybe_compact get_messages
  outcome-cases done order =
      elim (Bool-cases (c.free && c.has_store && c.meta_read && c.messages_read)) [
        | inr skipped ↦ subst Shape (sym (if_false _ _ skipped)) (inr (refl, inl refl))
        | inl begun ↦
            subst Shape
              (sym (
                if_true _ _ begun
                ∙ ap
                    (λ l.
                      compact_from w now threshold estimate keep_messages key
                        (get_session_meta key s) (take 500 l) s)
                    (by_age-InOrder (rows key s.messages) order)
                ∙ ap tokens_written done.0))
              (elim (Bool-cases too_few) [
                | inl few ↦ subst Shape (sym (if_true _ _ few)) (inr (refl, inr refl))
                | inr many ↦
                    subst Shape (sym (if_false _ _ many))
                      (inl (refl, enough many, stored (enough many)))
              ])
      ]
    where
      Shape : Bool × Storage → Type 0
      Shape o =
          ((o.0 ≡ true)
            × (keep_messages < length (seen key s))
            × (o.1
                ≡ compacted now key (counted estimate key s) (old_ones keep_messages key s)
                    (kept_ones keep_messages key s) (counted_store estimate key s)))
          ⊎ ((o.0 ≡ false) × ((o.1 ≡ s) ⊎ (o.1 ≡ counted_store estimate key s)))

      tokens_written : Bool → Bool × Storage
      tokens_written b =
          let s₁ = upsert_session_meta b key (counted estimate key s) s in
          if too_few then (false, s₁) else (
            true,
            compact_stored w now key (counted estimate key s) (old_ones keep_messages key s)
                (kept_ones keep_messages key s) s₁,
          )

      enough : too_few ≡ false → keep_messages < length (seen key s)
      enough many = ground arith

      stored :
          keep_messages < length (seen key s)
          → compact_stored w now key
              (counted estimate key s)
              (old_ones keep_messages key s)
              (kept_ones keep_messages key s)
              (counted_store estimate key s)
            ≡ compacted now key
                (counted estimate key s)
                (old_ones keep_messages key s)
                (kept_ones keep_messages key s)
                (counted_store estimate key s)
      stored h =
          let (m, ms, e) =
            take_pos (length (seen key s) - keep_messages) (seen key s) (omega arith)
              (omega arith) in
          ap
            (λ old.
              compact_stored w now key (counted estimate key s) old (kept_ones keep_messages key s)
                (counted_store estimate key s))
            e
          ∙ compact_stored-compacted w now key (counted estimate key s) m ms
              (kept_ones keep_messages key s) (counted_store estimate key s) done
          ∙ ap
              (λ old.
                compacted now key (counted estimate key s) old (kept_ones keep_messages key s)
                  (counted_store estimate key s))
              (sym e)
