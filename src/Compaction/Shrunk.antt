-- ===== src/Compaction/Shrunk.antt =====
-- The store after a compaction: its archive, and what keeps the tables sound.
use ocg.Base.{
  ℕ, suc, ◌≤◌, ◌<◌, ◌≡◌, refl, sym, ap, ◌∙◌, subst, ◌⊎◌, inl, inr, true, false, List, [], ◌∷◌, map,
  keep, arith, In, In-keep, keep-In,
}
use ocg.Base.Map.{lookup-insert_self}
use ocg.Base.Text.{text_eq}
use ocg.Compaction.{
  Text, Message, Storage, of_session, rows, get_session_meta, or_no_meta, upsert_session_meta,
  archive_messages, archive_old, archive_all, is_archivable, is_archived, is_summary,
  clear_messages, last_id,
}
use ocg.Compaction.Order.{InOrder, InOrder-keep, last_id_max}
use ocg.Compaction.Archive.{In-archive_all, archive_all-In, archivable-rows}
use ocg.Compaction.Compacted.{said, stamp_row, stamped, compacted}
use ocg.Compaction.Reported.{counted, counted_store}

-- What a session's tables keep to: the rows in order, with ids above the last compacted one and below
-- the next of the sequence, none of them archived, and neither an archived id nor the last compacted
-- one from the next of the sequence on.
abbrev pub IsSound : Text → Storage → Type 0
IsSound key s =
    InOrder (rows key s.messages)
    × ((m : Message)
        → In m (rows key s.messages)
        → ((get_session_meta key s).last_compacted_message_id < m.id)
          × (m.id < s.next_id)
          × (is_archived m s.archive ≡ false))
    × ((a : Message) → In a s.archive → a.session_key ≡ key → a.id < s.next_id)
    × ((get_session_meta key s).last_compacted_message_id < s.next_id)

pub map-In : (m : Message) (ms : List Message) → In m ms → In (said m) (map said ms)
map-In m [] k = absurd k
map-In m (x ∷ ms) (inl here) = inl (ap said here)
map-In m (x ∷ ms) (inr there) = inr (map-In m ms there)

pub stamped-In :
    (now : ℕ) (key : Text) (n : ℕ) (x : Text × Text) (xs : List (Text × Text))
    → In x xs
    → (m : Message) × In m (stamped now key n xs) × (said m ≡ x)
stamped-In now key n x [] k = absurd k
stamped-In now key n x (y ∷ xs) (inl here) = (stamp_row now key n y, inl refl, sym here)
stamped-In now key n x (y ∷ xs) (inr there) =
    let (m, k, e) = stamped-In now key (suc n) x xs there in (m, inr k, e)

module _ (now : ℕ) (key : Text) (estimate : List Message → ℕ) (old kept : List Message)
    (s : Storage) where
  abbrev pub shrunk : Storage
  shrunk = compacted now key (counted estimate key s) old kept (counted_store estimate key s)

  pub counted-last :
      (get_session_meta key (counted_store estimate key s)).last_compacted_message_id
      ≡ (get_session_meta key s).last_compacted_message_id
  unfolding get_session_meta upsert_session_meta
  counted-last =
      ap (λ o. (or_no_meta o).last_compacted_message_id)
        (lookup-insert_self key (counted estimate key s) s.metas)

  -- The rows that the statement of the archive selects.
  abbrev pub selected : List Message
  selected =
      keep (is_archivable key (get_session_meta key s).last_compacted_message_id (last_id old))
        s.messages

  archive-shrunk : (x : Message) → In x old → shrunk.archive ≡ archive_all selected s.archive
  unfolding archive_messages clear_messages upsert_session_meta
  archive-shrunk x m = go old m refl
    where
      go : (l : List Message) → In x l → old ≡ l → shrunk.archive ≡ archive_all selected s.archive
      go [] k e = absurd k
      go (y ∷ l) k e =
          ap (λ o. (archive_old true key o (counted_store estimate key s)).archive) e
          ∙ ap
              (λ n. archive_all (keep (is_archivable key n (last_id (y ∷ l))) s.messages) s.archive)
              counted-last
          ∙ ap
              (λ o.
                archive_all
                  (keep
                    (is_archivable key (get_session_meta key s).last_compacted_message_id
                      (last_id o))
                    s.messages)
                  s.archive)
              (sym e)

  pub shrunk-archive_old : (a : Message) → In a shrunk.archive → In a s.archive ⊎ In a selected
  unfolding archive_messages clear_messages upsert_session_meta
  shrunk-archive_old a m = go old refl
    where
      go : (l : List Message) → old ≡ l → In a s.archive ⊎ In a selected
      go [] e =
          inl
            (subst (λ o. In a (archive_old true key o (counted_store estimate key s)).archive) e m)
      go (y ∷ l) e =
          In-archive_all a selected s.archive
            (subst (In a) (archive-shrunk y (subst (In y) (sym e) (inl refl))) m)

  -- An old message that is no summary is archived.
  pub old-archived :
      (m : Message)
      → IsSound key s
      → InOrder old
      → In m (rows key s.messages)
      → In m old
      → is_summary m ≡ false
      → In m shrunk.archive
  old-archived m (order, ids, bound, fresh) old_order row k plain =
      let (above, below, new) = ids m row in
      subst (In m) (sym (archive-shrunk m k)) (
        archive_all-In m selected s.archive
          (subst InOrder (sym (archivable-rows key last (last_id old) s.messages))
            (InOrder-keep _ (rows key s.messages) order))
          (λ x h. (ids x (selected-row x h)).2)
          (keep-In (is_archivable key last (last_id old)) m s.messages
            (In-keep (of_session key) m s.messages row).0
            (chosen (In-keep (of_session key) m s.messages row).1 above
              (last_id_max old m old_order k))))
    where
      last : ℕ
      last = (get_session_meta key s).last_compacted_message_id

      selected-row : (x : Message) → In x selected → In x (rows key s.messages)
      selected-row x h =
          (In-keep _ x (rows key s.messages)
            (subst (In x) (archivable-rows key last (last_id old) s.messages) h)).0

      chosen :
          of_session key m ≡ true
          → last < m.id
          → m.id ≤ last_id old
          → is_archivable key last (last_id old) m ≡ true
      chosen ours above below = ground (arith, ours, plain)
