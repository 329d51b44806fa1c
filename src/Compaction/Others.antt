-- ===== src/Compaction/Others.antt =====
-- A compaction of one session leaves the others alone.
use ocg.Base.{
  ℕ, suc, ◌-◌, ◌≡◌, ◌≢◌, refl, ap, ◌∙◌, inl, inr, Bool, true, false, not, ◌&&◌, ◌||◌, List, [], ◌∷◌,
  ◌++◌, take, drop, length, leb, if◌then◌else◌, keep, keep-append, ◌==◌, arith, Bool-cases,
  if_false,
}
use ocg.Base.Int.{ℤ, pos, ltb_ℤ}
use ocg.Base.Map.{lookup, lookup-insert_ne}
use ocg.Base.Text.{text_eq}
use mathlib.Core.List.{append-nil}
use ocg.Compaction.{
  Text, Message, SessionMeta, Storage, of_session, rows, get_messages, add_message, clear_messages,
  get_session_meta, upsert_session_meta, archive_messages, archive_old, build_summary, Writes,
  add_kept, add_summary, compact_stored, Conditions, compact_from, maybe_compact,
}
use ocg.Compaction.Compacted.{compacted_meta}

module _ (key other : Text) (ne : key ≢ other) where
  -- The rows and the metadata of the other session.
  abbrev pub Same : Storage → Storage → Type 0
  Same s s' =
      (rows other s'.messages ≡ rows other s.messages)
      × (lookup other s'.metas ≡ lookup other s.metas)

  trans : (a b c : Storage) → Same a b → Same b c → Same a c
  trans a b c (p, q) (p', q') = (p' ∙ p, q' ∙ q)

  apart : (key == other) ≡ false
  apart = elim (Bool-cases (key == other)) [
    | inl same ↦ absurd (ne ((text_eq.test_iff key other).0 same))
    | inr differ ↦ differ
  ]

  add_message-Same :
      (ok : Bool) (now : ℕ) (role content : Text) (s : Storage)
      → Same s (add_message ok now key role content s)
  unfolding add_message
  add_message-Same false now role content s = (refl, refl)
  add_message-Same true now role content s = (
    keep-append (of_session other) s.messages _
        ∙ ap (λ l. rows other s.messages ++ l) (if_false _ _ apart)
        ∙ append-nil (rows other s.messages),
    refl,
  )

  add_kept-Same :
      (w : Writes) (now i : ℕ) (ms : List Message) (s : Storage)
      → Same s (add_kept w now key i ms s)
  add_kept-Same w now i [] s = (refl, refl)
  add_kept-Same w now i (m ∷ ms) s =
      trans s (add_message (w.add i) now key m.role m.content s) (add_kept w now key i (m ∷ ms) s)
        (add_message-Same (w.add i) now m.role m.content s)
        (add_kept-Same w now (suc i) ms (add_message (w.add i) now key m.role m.content s))

  add_summary-Same :
      (ok : Bool) (now : ℕ) (summary : Text) (s : Storage)
      → Same s (add_summary ok now key summary s)
  add_summary-Same ok now [] s = (refl, refl)
  add_summary-Same ok now (c ∷ summary) s = add_message-Same ok now _ _ s

  clear_messages-Same : (ok : Bool) (s : Storage) → Same s (clear_messages ok key s)
  unfolding clear_messages
  clear_messages-Same false s = (refl, refl)
  clear_messages-Same true s = (cleared s.messages, refl)
    where
      cleared :
          (t : List Message) → rows other (keep (λ m. not (of_session key m)) t) ≡ rows other t
      cleared [] = refl
      cleared (m ∷ t) = ground (
        arith,
        text_eq.test_iff m.session_key key,
        text_eq.test_iff m.session_key other,
        text_eq.test_iff key other,
        apart,
        cleared t,
      )

  upsert_session_meta-Same :
      (ok : Bool) (meta : SessionMeta) (s : Storage) → Same s (upsert_session_meta ok key meta s)
  unfolding upsert_session_meta
  upsert_session_meta-Same false meta s = (refl, refl)
  upsert_session_meta-Same true meta s = (refl, lookup-insert_ne key other meta s.metas ne)

  archive_old-Same :
      (ok : Bool) (old : List Message) (s : Storage) → Same s (archive_old ok key old s)
  unfolding archive_messages
  archive_old-Same ok [] s = (refl, refl)
  archive_old-Same false (m ∷ ms) s = (refl, refl)
  archive_old-Same true (m ∷ ms) s = (refl, refl)

  compact_stored-Same :
      (w : Writes) (now : ℕ) (meta : SessionMeta) (old kept : List Message) (s : Storage)
      → Same s (compact_stored w now key meta old kept s)
  unfolding compact_stored
  compact_stored-Same w now meta old kept s =
      trans s s₁ (compact_stored w now key meta old kept s) (archive_old-Same w.archived old s) (
        trans s₁ s₂ (compact_stored w now key meta old kept s)
          (upsert_session_meta-Same w.meta meta' s₁)
          (trans s₂ s₃ (compact_stored w now key meta old kept s) (clear_messages-Same w.clear s₂) (
            trans s₃ s₄ (compact_stored w now key meta old kept s) (add_kept-Same w now 0 kept s₃)
              (add_summary-Same (w.add (length kept)) now (build_summary old) s₄))))
    where
      meta' : SessionMeta
      meta' = compacted_meta now meta old

      s₁ : Storage
      s₁ = archive_old w.archived key old s

      s₂ : Storage
      s₂ = upsert_session_meta w.meta key meta' s₁

      s₃ : Storage
      s₃ = clear_messages w.clear key s₂

      s₄ : Storage
      s₄ = add_kept w now key 0 kept s₃

  -- A compaction changes neither the messages nor the metadata of another session, whichever of its
  -- statements fail.
  pub maybe_compact-Same :
      (c : Conditions) (w : Writes) (now : ℕ) (threshold : ℤ) (estimate : List Message → ℕ)
      (keep_messages : ℕ) (s : Storage)
      → Same s (maybe_compact c w now threshold estimate keep_messages key s).1
  unfolding maybe_compact
  maybe_compact-Same c w now threshold estimate keep_messages s =
      begun (c.free && c.has_store && c.meta_read && c.messages_read)
    where
      choice : Bool → Bool × Storage → Bool × Storage → Bool × Storage
      choice b x y = if b then x else y

      stored : List Message
      stored = get_messages key 500 s

      meta₁ : SessionMeta
      meta₁ = record (get_session_meta key s) { total_tokens = estimate stored }

      s₁ : Storage
      s₁ = upsert_session_meta w.tokens key meta₁ s

      cut : ℕ
      cut = length stored - keep_messages

      done :
          (b : Bool)
          → Same s₁
              (choice b
                (false, s₁)
                (true, compact_stored w now key meta₁ (take cut stored) (drop cut stored) s₁)).1
      done true = (refl, refl)
      done false = compact_stored-Same w now meta₁ (take cut stored) (drop cut stored) s₁

      begun :
          (b : Bool)
          → Same s
              (choice b
                (compact_from w now threshold estimate keep_messages key
                  (get_session_meta key s)
                  stored
                  s)
                (false, s)).1
      begun false = (refl, refl)
      begun true =
          trans s s₁
            (compact_from w now threshold estimate keep_messages key (get_session_meta key s) stored
              s).1
            (upsert_session_meta-Same w.tokens meta₁ s)
            (done (ltb_ℤ (pos (estimate stored)) threshold || leb (length stored) keep_messages))
