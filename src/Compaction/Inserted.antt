-- ===== src/Compaction/Inserted.antt =====
-- The rows that a compaction inserts.
use ocg.Base.{
  ℕ, suc, ◌+◌, ◌≤◌, ◌<◌, ◌≡◌, refl, sym, ap, ◌∙◌, inl, inr, true, false, not, List, [], ◌∷◌, ◌++◌,
  map, keep, length, ◌==◌, arith, In, if_true, if_false, keep-append, length-append,
}
use ocg.Base.Text.{text_eq}
use mathlib.Core.List.{append_assoc}
use ocg.Compaction.{
  Text, Message, SessionMeta, Storage, of_session, rows, upsert_session_meta, archive_messages,
  archive_old, clear_messages, build_summary,
}
use ocg.Compaction.Order.{InOrder}
use ocg.Compaction.Compacted.{said, stamp_row, stamped, summary_said, compacted}

stamped-append :
    (now : ℕ) (key : Text) (n : ℕ) (xs ys : List (Text × Text))
    → stamped now key n (xs ++ ys) ≡ stamped now key n xs ++ stamped now key (n + length xs) ys
stamped-append now key n [] ys = let e : n ≡ n + 0 = omega arith in ap (λ k. stamped now key k ys) e
stamped-append now key n (x ∷ xs) ys =
    let e : suc n + length xs ≡ n + suc (length xs) = omega arith in
    ap (◌∷◌ (stamp_row now key n x)) (
      stamped-append now key (suc n) xs ys
      ∙ ap (λ k. stamped now key (suc n) xs ++ stamped now key k ys) e)

pub rows-stamped :
    (now : ℕ) (key : Text) (n : ℕ) (xs : List (Text × Text))
    → rows key (stamped now key n xs) ≡ stamped now key n xs
rows-stamped now key n [] = refl
rows-stamped now key n (x ∷ xs) =
    if_true (stamp_row now key n x ∷ rows key (stamped now key (suc n) xs))
      (rows key (stamped now key (suc n) xs)) ((text_eq.test_iff key key).1 refl)
    ∙ ap (◌∷◌ (stamp_row now key n x)) (rows-stamped now key (suc n) xs)

pub rows-stamped_other :
    (now : ℕ) (key other : Text) (n : ℕ) (xs : List (Text × Text))
    → (key == other) ≡ false
    → rows other (stamped now key n xs) ≡ []
rows-stamped_other now key other n [] ne = refl
rows-stamped_other now key other n (x ∷ xs) ne =
    if_false _ _ ne ∙ rows-stamped_other now key other (suc n) xs ne

rows-cleared :
    (key : Text) (t : List Message) → rows key (keep (λ m. not (of_session key m)) t) ≡ []
rows-cleared key [] = refl
rows-cleared key (x ∷ t) = ground (arith, rows-cleared key t)

pub stamped-ids :
    (now : ℕ) (key : Text) (n : ℕ) (xs : List (Text × Text)) (m : Message)
    → In m (stamped now key n xs)
    → (n ≤ m.id) × (m.id < n + length xs) × (m.session_key ≡ key) × (m.created_at ≡ now)
stamped-ids now key n [] m k = absurd k
stamped-ids now key n (x ∷ xs) m (inl here) =
    let e : m.id ≡ n = ap (λ (w : Message). w.id) here in
    (
      omega arith,
      omega arith,
      ap (λ (w : Message). w.session_key) here,
      ap (λ (w : Message). w.created_at) here,
    )
stamped-ids now key n (x ∷ xs) m (inr there) =
    let (lo, hi, e, t) = stamped-ids now key (suc n) xs m there in (omega arith, omega arith, e, t)

pub InOrder-stamped :
    (now : ℕ) (key : Text) (n : ℕ) (xs : List (Text × Text)) → InOrder (stamped now key n xs)
InOrder-stamped now key n [] = tt
InOrder-stamped now key n (x ∷ xs) = (
  λ y k. let (lo, hi, e, t) = stamped-ids now key (suc n) xs y k in (omega arith, omega (arith, t)),
  InOrder-stamped now key (suc n) xs,
)

-- The rows that a compaction inserts.
abbrev pub inserted : List Message → List Message → List (Text × Text)
inserted old kept = map said kept ++ summary_said (build_summary old) ∷ []

pub archive_old-rest :
    (key : Text) (old : List Message) (s : Storage)
    → ((archive_old true key old s).messages ≡ s.messages)
      × ((archive_old true key old s).next_id ≡ s.next_id)
unfolding archive_messages
archive_old-rest key [] s = (refl, refl)
archive_old-rest key (m ∷ ms) s = (refl, refl)

module _ (now : ℕ) (key : Text) (meta : SessionMeta) (old kept : List Message) (s : Storage) where
  abbrev after : Storage
  after = compacted now key meta old kept s

  pub messages-compacted :
      after.messages
      ≡ keep (λ m. not (of_session key m)) s.messages
        ++ stamped now key s.next_id (inserted old kept)
  unfolding clear_messages upsert_session_meta
  messages-compacted =
      let (e, f) = archive_old-rest key old s in
      let cleared = keep (λ m. not (of_session key m)) s.messages in
      ap
        (λ t.
          (keep (λ m. not (of_session key m)) t
            ++ stamped now key (archive_old true key old s).next_id (map said kept))
          ++ stamped now key ((archive_old true key old s).next_id + length (map said kept))
              (summary_said (build_summary old) ∷ []))
        e
      ∙ ap
          (λ n.
            (cleared ++ stamped now key n (map said kept))
            ++ stamped now key (n + length (map said kept)) (summary_said (build_summary old) ∷ []))
          f
      ∙ append_assoc cleared _ _
      ∙ ap (λ l. cleared ++ l)
          (sym (
            stamped-append now key s.next_id (map said kept)
              (summary_said (build_summary old) ∷ [])))

  pub rows-compacted : rows key after.messages ≡ stamped now key s.next_id (inserted old kept)
  rows-compacted =
      ap (rows key) messages-compacted
      ∙ keep-append (of_session key) _ _
      ∙ ap (λ l. l ++ rows key (stamped now key s.next_id (inserted old kept)))
          (rows-cleared key s.messages)
      ∙ rows-stamped now key s.next_id (inserted old kept)

  pub next_id-compacted : after.next_id ≡ s.next_id + length (inserted old kept)
  unfolding clear_messages upsert_session_meta
  next_id-compacted =
      let (e, f) = archive_old-rest key old s in
      omega (arith, f, length-append (map said kept) (summary_said (build_summary old) ∷ []))
