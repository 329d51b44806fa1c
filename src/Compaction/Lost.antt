-- ===== src/Compaction/Lost.antt =====
-- What a compaction loses, what it leaves alone, and that it keeps the tables sound.
use ocg.Base.{
  ℕ, ◌+◌, ◌≤◌, ◌<◌, ◌≡◌, refl, sym, ap, ◌∙◌, subst, inl, inr, true, false, List, [], ◌∷◌, keep,
  length, drop, arith, In, false-ne-true, In-keep, keep-In, In-take, In-drop,
}
use ocg.Base.Int.{ℤ}
use ocg.Base.Map.{lookup-insert_self}
use ocg.Base.Text.{text_eq}
use ocg.Compaction.{
  Text, Message, Storage, of_session, rows, get_session_meta, or_no_meta, upsert_session_meta,
  archive_old, is_archivable, is_archived, clear_messages, last_id, compacted_id, Writes,
  Conditions, maybe_compact,
}
use ocg.Compaction.Order.{InOrder, last_id_attained, take-before-drop}
use ocg.Compaction.Archive.{is_archived_below, In-is_archived}
use ocg.Compaction.Compacted.{AllDone, stamped, compacted_meta, compacted}
use ocg.Compaction.Inserted.{
  stamped-ids, InOrder-stamped, inserted, rows-compacted, next_id-compacted,
}
use ocg.Compaction.Shrunk.{IsSound, counted-last, shrunk-archive_old}
use ocg.Compaction.Reported.{seen, old_ones, kept_ones, counted, counted_store, outcome-cases}

selected-ids :
    (key : Text) (last before : ℕ) (t : List Message) (a : Message)
    → In a (keep (is_archivable key last before) t)
    → In a t × (a.session_key ≡ key) × (a.id ≤ before)
selected-ids key last before t a m =
    let (k, e) = In-keep (is_archivable key last before) a t m in
    (k, (text_eq.test_iff a.session_key key).0 (ours e), small e)
  where
    ours : is_archivable key last before a ≡ true → of_session key a ≡ true
    ours e = ground arith

    small : is_archivable key last before a ≡ true → a.id ≤ before
    small e = ground arith

-- Where a session's tables are sound, every statement succeeds and a compaction is reported, a
-- message beyond the first 500 of its session is then neither in the session nor in the archive.
pub maybe_compact_loses :
    (c : Conditions) (w : Writes) (now : ℕ) (threshold : ℤ) (estimate : List Message → ℕ)
    (keep_messages : ℕ) (key : Text) (s : Storage) (m : Message)
    → AllDone w
    → IsSound key s
    → In m (drop 500 (rows key s.messages))
    → let o = maybe_compact c w now threshold estimate keep_messages key s in
      o.0 ≡ true → (In m (rows key o.1.messages) → ⊥) × (In m o.1.archive → ⊥)
unfolding upsert_session_meta
maybe_compact_loses c w now threshold estimate keep_messages key s m done (order, ids, bound, fresh)
      late reported =
    elim (outcome-cases c w now threshold estimate keep_messages key s done order) [
      | inr (r, e) ↦ absurd (false-ne-true r reported)
      | inl (r, h, e) ↦
          subst (λ (o : Storage). (In m (rows key o.messages) → ⊥) × (In m o.archive → ⊥)) (sym e)
            (gone, unarchived)
    ]
  where
    old : List Message
    old = old_ones keep_messages key s

    kept : List Message
    kept = kept_ones keep_messages key s

    end : Storage
    end = compacted now key (counted estimate key s) old kept (counted_store estimate key s)

    row : In m (rows key s.messages)
    row = In-drop 500 m (rows key s.messages) late

    gone : In m (rows key end.messages) → ⊥
    gone k =
        let new = stamped-ids now key s.next_id (inserted old kept) m (
          subst (In m)
            (rows-compacted now key (counted estimate key s) old kept
              (counted_store estimate key s))
            k) in
        omega (arith, new.0, (ids m row).1)

    before_me : (x : Message) → In x old → x.id < m.id
    before_me x k =
        take-before-drop 500 x m (rows key s.messages) order (In-take _ x (seen key s) k) late

    unarchived : In m end.archive → ⊥
    unarchived k = elim (shrunk-archive_old now key estimate old kept s m k) [
      | inl there ↦ false-ne-true (ids m row).2 (In-is_archived m s.archive there)
      | inr chosen ↦
          beyond old (λ x l. before_me x l)
            (selected-ids key (get_session_meta key s).last_compacted_message_id (last_id old)
              s.messages m chosen).2
    ]
      where
        beyond : (l : List Message) → ((x : Message) → In x l → x.id < m.id) → m.id ≤ last_id l → ⊥
        beyond [] b h = omega (arith, h, (ids m row).0)
        beyond (x ∷ l) b h =
            let (y, k, q) = last_id_attained (x ∷ l) x (inl refl) in omega (arith, b y k, q, h)

-- A compaction keeps the session's tables sound, reported or not, when its statements succeed.
pub maybe_compact-IsSound :
    (c : Conditions) (w : Writes) (now : ℕ) (threshold : ℤ) (estimate : List Message → ℕ)
    (keep_messages : ℕ) (key : Text) (s : Storage)
    → AllDone w
    → IsSound key s
    → IsSound key (maybe_compact c w now threshold estimate keep_messages key s).1
unfolding upsert_session_meta get_session_meta clear_messages
maybe_compact-IsSound c w now threshold estimate keep_messages key s done
      (order, ids, bound, fresh) =
    elim (outcome-cases c w now threshold estimate keep_messages key s done order) [
      | inr (r, inl e) ↦ subst (IsSound key) (sym e) (order, ids, bound, fresh)
      | inr (r, inr e) ↦
          let last = counted-last now key estimate old kept s in
          subst (IsSound key) (sym e) (
            order,
            λ m k.
                let (above, below, new) = ids m k in
                (subst (λ n. n < m.id) (sym last) above, below, new),
            bound,
            subst (λ n. n < s.next_id) (sym last) fresh,
          )
      | inl (r, h, e) ↦ subst (IsSound key) (sym e) (
        subst InOrder (sym new_rows) (InOrder-stamped now key s.next_id (inserted old kept)),
        new_ids,
        new_bound,
        subst (λ n. n < end.next_id) (sym end_last) (omega (arith, old_below, end_next)),
      )
    ]
  where
    old : List Message
    old = old_ones keep_messages key s

    kept : List Message
    kept = kept_ones keep_messages key s

    end : Storage
    end = compacted now key (counted estimate key s) old kept (counted_store estimate key s)

    new_rows : rows key end.messages ≡ stamped now key s.next_id (inserted old kept)
    new_rows =
        rows-compacted now key (counted estimate key s) old kept (counted_store estimate key s)

    end_next : end.next_id ≡ s.next_id + length (inserted old kept)
    end_next =
        next_id-compacted now key (counted estimate key s) old kept (counted_store estimate key s)

    end_last :
        (get_session_meta key end).last_compacted_message_id
        ≡ compacted_id (counted estimate key s) old
    end_last =
        ap (λ o. (or_no_meta o).last_compacted_message_id)
          (lookup-insert_self key (compacted_meta now (counted estimate key s) old)
            (archive_old true key old (counted_store estimate key s)).metas)

    old_row : (x : Message) → In x old → In x (rows key s.messages)
    old_row x k = In-take 500 x (rows key s.messages) (In-take _ x (seen key s) k)

    old_below : compacted_id (counted estimate key s) old < s.next_id
    old_below = below old old_row
      where
        below :
            (l : List Message)
            → ((x : Message) → In x l → In x (rows key s.messages))
            → compacted_id (counted estimate key s) l < s.next_id
        below [] f = fresh
        below (x ∷ l) f =
            let (y, k, q) = last_id_attained (x ∷ l) x (inl refl) in
            omega (arith, (ids y (f y k)).1, q)

    old_bound : (a : Message) → In a end.archive → a.session_key ≡ key → a.id < s.next_id
    old_bound a j ours = elim (shrunk-archive_old now key estimate old kept s a j) [
      | inl there ↦ bound a there ours
      | inr chosen ↦
          let (there, _, _) =
            selected-ids key (get_session_meta key s).last_compacted_message_id (last_id old)
              s.messages a chosen in
          (ids a (
            keep-In (of_session key) a s.messages there
              ((text_eq.test_iff a.session_key key).1 ours))).1
    ]

    new_bound : (a : Message) → In a end.archive → a.session_key ≡ key → a.id < end.next_id
    new_bound a k ours = omega (arith, old_bound a k ours, end_next)

    new_ids :
        (m : Message)
        → In m (rows key end.messages)
        → ((get_session_meta key end).last_compacted_message_id < m.id)
          × (m.id < end.next_id)
          × (is_archived m end.archive ≡ false)
    new_ids m k =
        let (lo, hi, ours, at_now) =
          stamped-ids now key s.next_id (inserted old kept) m (subst (In m) new_rows k) in
        (
          subst (λ n. n < m.id) (sym end_last) (omega (arith, old_below, lo)),
          omega (arith, hi, end_next),
          is_archived_below m s.next_id end.archive (λ a j same. old_bound a j (same ∙ ours)) lo,
        )
