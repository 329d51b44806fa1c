-- ===== src/Compaction/Compacted.antt =====
-- The messages that a compaction leaves in the table.
use ocg.Base.{ℕ, suc, ◌+◌, ◌≡◌, refl, sym, ap, ◌∙◌, true, List, [], ◌∷◌, ◌++◌, map, length, arith}
use ocg.Base.Text.{codes, text_eq}
use mathlib.Core.List.{append-nil, append_assoc}
use ocg.Compaction.{
  Text, Message, SessionMeta, Storage, add_message, clear_messages, upsert_session_meta, join_lines,
  summary_line, build_summary, Writes, add_kept, add_summary, archive_old, compacted_id,
  compact_stored,
}

-- Every statement of a compaction succeeds.
abbrev pub AllDone : Writes → Type 0
AllDone w =
    (w.tokens ≡ true)
    × (w.archived ≡ true)
    × (w.meta ≡ true)
    × (w.clear ≡ true)
    × ((i : ℕ) → w.add i ≡ true)

-- What a message says, whatever its id and instant.
abbrev pub said : Message → Text × Text
said m = (m.role, m.content)

-- Rows with these roles and contents as they are inserted one after the other.
abbrev pub stamp_row : ℕ → Text → ℕ → Text × Text → Message
stamp_row now key n x = record {
  id = n;
  session_key = key;
  role = x.0;
  content = x.1;
  created_at = now;
}

abbrev pub stamped : ℕ → Text → ℕ → List (Text × Text) → List Message
stamped now key n [] = []
stamped now key n (m ∷ ms) = stamp_row now key n m ∷ stamped now key (suc n) ms

pub said-stamped :
    (now : ℕ) (key : Text) (n : ℕ) (ms : List (Text × Text)) → map said (stamped now key n ms) ≡ ms
said-stamped now key n [] = refl
said-stamped now key n (m ∷ ms) = ap (◌∷◌ m) (said-stamped now key (suc n) ms)

abbrev pub appended : ℕ → Text → List (Text × Text) → Storage → Storage
appended now key ms s = record s {
  messages = s.messages ++ stamped now key s.next_id ms;
  next_id = s.next_id + length ms;
}

added-appended :
    (now : ℕ) (key role content : Text) (s : Storage)
    → add_message true now key role content s ≡ appended now key ((role, content) ∷ []) s
unfolding add_message
added-appended now key role content s =
    let e : suc s.next_id ≡ s.next_id + 1 = omega arith in
    ap (λ n. record (appended now key ((role, content) ∷ []) s) { next_id = n }) e

appended-appended :
    (now : ℕ) (key : Text) (m : Text × Text) (ms : List (Text × Text)) (s : Storage)
    → appended now key ms (appended now key (m ∷ []) s) ≡ appended now key (m ∷ ms) s
appended-appended now key (role, content) ms s =
    let n = s.next_id in
    let x : Message = record {
      id = n;
      session_key = key;
      role = role;
      content = content;
      created_at = now;
    } in
    let one : n + 1 ≡ suc n = omega arith in
    let all : n + 1 + length ms ≡ n + suc (length ms) = omega arith in
    ap (λ l. record s { messages = l; next_id = n + 1 + length ms })
      (append_assoc s.messages (x ∷ []) (stamped now key (n + 1) ms)
        ∙ ap (λ k. s.messages ++ x ∷ stamped now key k ms) one)
    ∙ ap (λ k. record s { messages = s.messages ++ x ∷ stamped now key (suc n) ms; next_id = k })
        all

add_kept-appended :
    (w : Writes) (now : ℕ) (key : Text) (i : ℕ) (ms : List Message) (s : Storage)
    → ((j : ℕ) → w.add j ≡ true)
    → add_kept w now key i ms s ≡ appended now key (map said ms) s
add_kept-appended w now key i [] s adds =
    let e : s.next_id ≡ s.next_id + 0 = omega arith in
    ap (λ l. record s { messages = l }) (sym (append-nil s.messages))
    ∙ ap (λ n. record s { messages = s.messages ++ []; next_id = n }) e
add_kept-appended w now key i (m ∷ ms) s adds =
    ap (λ b. add_kept w now key (suc i) ms (add_message b now key m.role m.content s)) (adds i)
    ∙ ap (add_kept w now key (suc i) ms) (added-appended now key m.role m.content s)
    ∙ add_kept-appended w now key (suc i) ms _ adds
    ∙ appended-appended now key (said m) (map said ms) s

-- A summary of something is not empty.
build_summary-nonempty :
    (m : Message) (ms : List Message) → (c : ℕ) × (l : Text) × (build_summary (m ∷ ms) ≡ c ∷ l)
unfolding build_summary
build_summary-nonempty m ms =
    let (c, l, e) = line m in
    let (k, e') = joined c l (map summary_line ms) in
    (c, k, ap (λ t. join_lines (t ∷ map summary_line ms)) e ∙ e')
  where
    starts : (role rest : Text) → (c : ℕ) × (l : Text) × (role ++ codes ": " ++ rest ≡ c ∷ l)
    starts [] rest = (b':', b' ' ∷ rest, refl)
    starts (c ∷ role) rest = (c, role ++ codes ": " ++ rest, refl)

    line : (x : Message) → (c : ℕ) × (l : Text) × (summary_line x ≡ c ∷ l)
    line x = starts x.role _

    joined : (c : ℕ) (l : Text) (ls : List Text) → (k : Text) × (join_lines ((c ∷ l) ∷ ls) ≡ c ∷ k)
    joined c l [] = (l, refl)
    joined c l (x ∷ ls) = (l ++ b'\n' ∷ join_lines (x ∷ ls), refl)

-- The row of the summary.
abbrev pub summary_said : Text → Text × Text
summary_said summary = (codes "system", codes "[summary]\n" ++ summary)

add_summary-appended :
    (now : ℕ) (key : Text) (m : Message) (ms : List Message) (s : Storage)
    → add_summary true now key (build_summary (m ∷ ms)) s
      ≡ appended now key (summary_said (build_summary (m ∷ ms)) ∷ []) s
add_summary-appended now key m ms s =
    let (c, l, e) = build_summary-nonempty m ms in
    ap (λ t. add_summary true now key t s) e
    ∙ added-appended now key (codes "system") (codes "[summary]\n" ++ c ∷ l) s
    ∙ ap (λ t. appended now key (summary_said t ∷ []) s) (sym e)

-- The metadata that a compaction writes.
abbrev pub compacted_meta : ℕ → SessionMeta → List Message → SessionMeta
compacted_meta now meta old = record meta {
  last_compacted_message_id = compacted_id meta old;
  compaction_count = suc meta.compaction_count;
  last_summary = build_summary old;
  memory_flush_compaction_cnt = suc meta.compaction_count;
  memory_flush_at = now;
}

-- The store when every statement succeeds.
abbrev pub compacted : ℕ → Text → SessionMeta → List Message → List Message → Storage → Storage
compacted now key meta old kept s = appended now key (summary_said (build_summary old) ∷ []) (
    appended now key (map said kept) (
      clear_messages true key
        (upsert_session_meta true key (compacted_meta now meta old) (archive_old true key old s))))

pub compact_stored-compacted :
    (w : Writes) (now : ℕ) (key : Text) (meta : SessionMeta) (m : Message) (ms kept : List Message)
    (s : Storage)
    → AllDone w
    → compact_stored w now key meta (m ∷ ms) kept s ≡ compacted now key meta (m ∷ ms) kept s
unfolding compact_stored
compact_stored-compacted w now key meta m ms kept s (t, a, u, c, adds) =
    ap
      (λ b. add_summary b now key summary (
        add_kept w now key 0 kept (
          clear_messages w.clear key
            (upsert_session_meta w.meta key meta' (archive_old w.archived key (m ∷ ms) s)))))
      (adds (length kept))
    ∙ add_summary-appended now key m ms _
    ∙ ap (appended now key (summary_said summary ∷ [])) (
        add_kept-appended w now key 0 kept _ adds
        ∙ ap
            (λ b. appended now key (map said kept) (
              clear_messages b key
                (upsert_session_meta w.meta key meta' (archive_old w.archived key (m ∷ ms) s))))
            c
        ∙ ap
            (λ b. appended now key (map said kept) (
              clear_messages true key
                (upsert_session_meta b key meta' (archive_old w.archived key (m ∷ ms) s))))
            u
        ∙ ap
            (λ b. appended now key (map said kept) (
              clear_messages true key
                (upsert_session_meta true key meta' (archive_old b key (m ∷ ms) s))))
            a)
  where
    summary : Text
    summary = build_summary (m ∷ ms)

    meta' : SessionMeta
    meta' = compacted_meta now meta (m ∷ ms)
