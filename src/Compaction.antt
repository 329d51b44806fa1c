-- ===== src/Compaction.antt =====
-- agent/agent_compact.go: the compaction of a session, with the tables behind it (storage/storage.go:
-- messages, messages_archive, session_meta). A text is the list of its bytes. The estimate of the
-- tokens, the threshold (a floating-point share of the model's window) and the success of each
-- statement are arguments. KeepMessages is not negative; the provider of a session and the instant of
-- its last use, which a compaction writes back as it read them, are left out.
pub mod Order
pub mod Archive
pub mod Compacted
pub mod Reported
pub mod Inserted
pub mod Kept
pub mod Shrunk
pub mod Lost
pub mod Others
mod Tests
use ocg.Base.{
  ℕ, suc, ◌+◌, ◌-◌, Bool, true, false, not, ◌&&◌, ◌||◌, List, [], ◌∷◌, ◌++◌, map, Option, none,
  some, if◌then◌else◌, ltb, leb, keep, length, take, drop, ◌==◌, nat_eq,
}
use ocg.Base.Int.{ℤ, pos, ltb_ℤ}
use ocg.Base.Map.{Map, lookup, insert}
use ocg.Base.Text.{codes, text_eq, has_prefix}

abbrev pub Text : Type 0
Text = List ℕ

-- A row of `messages`, and of `messages_archive`, where `id` is source_message_id.
pub record Message : Type 0 where
  pub id : ℕ
  pub session_key : Text
  pub role : Text
  pub content : Text
  pub created_at : ℕ

pub record SessionMeta : Type 0 where
  pub total_tokens : ℕ
  pub compaction_count : ℕ
  pub last_summary : Text
  pub last_compacted_message_id : ℕ
  pub memory_flush_at : ℕ
  pub memory_flush_compaction_cnt : ℕ

-- `next_id` is the next of the sequence of `messages`.
pub record Storage : Type 0 where
  pub messages : List Message
  pub next_id : ℕ
  pub archive : List Message
  pub metas : Map Text SessionMeta

abbrev pub of_session : Text → Message → Bool
of_session key m = m.session_key == key

abbrev pub rows : Text → List Message → List Message
rows key t = keep (of_session key) t

-- `ORDER BY created_at ASC`; rows of one instant stay in the order of the table.
abbrev pub place : Message → List Message → List Message
place x [] = x ∷ []
place x (y ∷ ys) = if leb x.created_at y.created_at then x ∷ y ∷ ys else y ∷ place x ys

abbrev pub by_age : List Message → List Message
by_age [] = []
by_age (x ∷ xs) = place x (by_age xs)

unfoldable pub get_messages : Text → ℕ → Storage → List Message
get_messages key limit s = take limit (by_age (rows key s.messages))

unfoldable pub add_message : Bool → ℕ → Text → Text → Text → Storage → Storage
add_message false now key role content s = s
add_message true now key role content s =
    let m : Message = record {
      id = s.next_id;
      session_key = key;
      role = role;
      content = content;
      created_at = now;
    } in
    record s { messages = s.messages ++ m ∷ []; next_id = suc s.next_id }

unfoldable pub clear_messages : Bool → Text → Storage → Storage
clear_messages false key s = s
clear_messages true key s = record s { messages = keep (λ m. not (of_session key m)) s.messages }

abbrev pub no_meta : SessionMeta
no_meta = record {
  total_tokens = 0;
  compaction_count = 0;
  last_summary = [];
  last_compacted_message_id = 0;
  memory_flush_at = 0;
  memory_flush_compaction_cnt = 0;
}

abbrev pub or_no_meta : Option SessionMeta → SessionMeta
or_no_meta none = no_meta
or_no_meta (some meta) = meta

unfoldable pub get_session_meta : Text → Storage → SessionMeta
unfolding lookup
get_session_meta key s = or_no_meta (lookup key s.metas)

unfoldable pub upsert_session_meta : Bool → Text → SessionMeta → Storage → Storage
unfolding insert
upsert_session_meta false key meta s = s
upsert_session_meta true key meta s = record s { metas = insert key meta s.metas }

-- `LIKE` does not tell the case of ASCII letters.
abbrev pub lower : ℕ → ℕ
lower c = if leb b'A' c && leb c b'Z' then c + 32 else c

abbrev pub is_summary : Message → Bool
is_summary m = m.role == codes "system" && has_prefix (map lower m.content) (codes "[summary]")

abbrev pub is_archivable : Text → ℕ → ℕ → Message → Bool
is_archivable key last before m =
    of_session key m && (ltb last m.id && leb m.id before && not (is_summary m))

abbrev pub is_archived : Message → List Message → Bool
is_archived m [] = false
is_archived m (a ∷ as') = (a.session_key == m.session_key && a.id == m.id) || is_archived m as'

-- `INSERT OR IGNORE` under the unique index of session and source id.
abbrev pub archive_all : List Message → List Message → List Message
archive_all [] a = a
archive_all (m ∷ ms) a = archive_all ms (if is_archived m a then a else a ++ m ∷ [])

unfoldable pub archive_messages : Bool → Text → ℕ → Storage → Storage
unfolding get_session_meta
archive_messages false key before s = s
archive_messages true key before s =
    let last = (get_session_meta key s).last_compacted_message_id in
    record s { archive = archive_all (keep (is_archivable key last before) s.messages) s.archive }

abbrev pub join_lines : List Text → Text
join_lines [] = []
join_lines (l ∷ []) = l
join_lines (l ∷ k ∷ ls) = l ++ b'\n' ∷ join_lines (k ∷ ls)

abbrev pub summary_line : Message → Text
summary_line m =
    m.role
    ++ codes ": "
    ++ (if ltb 200 (length m.content) then take 200 m.content ++ codes "..." else m.content)

unfoldable pub build_summary : List Message → Text
build_summary ms = join_lines (map summary_line ms)

-- Which statements succeed: the counts of tokens, the archive, the new metadata, the removal, the
-- i-th insert.
pub record Writes : Type 0 where
  pub tokens : Bool
  pub archived : Bool
  pub meta : Bool
  pub clear : Bool
  pub add : ℕ → Bool

abbrev pub add_kept : Writes → ℕ → Text → ℕ → List Message → Storage → Storage
add_kept w now key i [] s = s
add_kept w now key i (m ∷ ms) s =
    add_kept w now key (suc i) ms (add_message (w.add i) now key m.role m.content s)

abbrev pub add_summary : Bool → ℕ → Text → Text → Storage → Storage
add_summary ok now key [] s = s
add_summary ok now key (c ∷ summary) s =
    add_message ok now key (codes "system") (codes "[summary]\n" ++ c ∷ summary) s

abbrev pub last_id : List Message → ℕ
last_id [] = 0
last_id (m ∷ []) = m.id
last_id (m ∷ n ∷ ms) = last_id (n ∷ ms)

-- The archive of the old messages, if there are any, and the id that the metadata keeps.
abbrev pub archive_old : Bool → Text → List Message → Storage → Storage
archive_old ok key [] s = s
archive_old ok key (m ∷ ms) s = archive_messages ok key (last_id (m ∷ ms)) s

abbrev pub compacted_id : SessionMeta → List Message → ℕ
compacted_id meta [] = meta.last_compacted_message_id
compacted_id meta (m ∷ ms) = last_id (m ∷ ms)

unfoldable pub compact_stored :
    Writes → ℕ → Text → SessionMeta → List Message → List Message → Storage → Storage
unfolding archive_messages upsert_session_meta clear_messages add_message build_summary
compact_stored w now key meta old kept s =
    let summary = build_summary old in
    let count = suc meta.compaction_count in
    let meta' : SessionMeta = record meta {
      last_compacted_message_id = compacted_id meta old;
      compaction_count = count;
      last_summary = summary;
      memory_flush_compaction_cnt = count;
      memory_flush_at = now;
    } in
    let s₁ = upsert_session_meta w.meta key meta' (archive_old w.archived key old s) in
    let s₂ = add_kept w now key 0 kept (clear_messages w.clear key s₁) in
    add_summary (w.add (length kept)) now key summary s₂

-- What a compaction meets: the mutex free, a store, the success of the two queries.
pub record Conditions : Type 0 where
  pub free : Bool
  pub has_store : Bool
  pub meta_read : Bool
  pub messages_read : Bool

abbrev pub compact_from :
    Writes
    → ℕ
    → ℤ
    → (List Message → ℕ)
    → ℕ
    → Text
    → SessionMeta
    → List Message
    → Storage
    → Bool × Storage
compact_from w now threshold estimate keep_messages key meta stored s =
    let tokens = estimate stored in
    let meta₁ : SessionMeta = record meta { total_tokens = tokens } in
    let s₁ = upsert_session_meta w.tokens key meta₁ s in
    let cut = length stored - keep_messages in
    if ltb_ℤ (pos tokens) threshold || leb (length stored) keep_messages
    then (false, s₁)
    else (true, compact_stored w now key meta₁ (take cut stored) (drop cut stored) s₁)

-- `maybeCompact`: what it reports, and the store after it.
unfoldable pub maybe_compact :
    Conditions → Writes → ℕ → ℤ → (List Message → ℕ) → ℕ → Text → Storage → Bool × Storage
unfolding get_session_meta get_messages upsert_session_meta compact_stored
maybe_compact c w now threshold estimate keep_messages key s =
    if c.free && c.has_store && c.meta_read && c.messages_read
    then compact_from w now threshold estimate keep_messages key (get_session_meta key s)
        (get_messages key 500 s) s
    else (false, s)
