-- ===== src/Compaction/Tests.antt =====
-- Compactions of a short conversation and of one that is too long to be read whole.
use ocg.Base.{
  ℕ, zero, suc, ◌<◌, ◌≡◌, ◌≢◌, refl, sym, ◌⊎◌, inl, true, false, List, [], ◌∷◌, ◌++◌, map, length,
  drop, subst, arith, In, nat_eq, string_eq,
}
use ocg.Base.Int.{pos}
use ocg.Base.Map.{lookup, insert}
use ocg.Base.Text.{codes, text_eq}
use ocg.Compaction.{
  Text, Message, Storage, rows, Writes, Conditions, maybe_compact, build_summary, is_summary,
  get_messages, get_session_meta, upsert_session_meta, compact_stored, add_message, clear_messages,
  archive_messages,
}
use ocg.Compaction.Order.{InOrder}
use ocg.Compaction.Compacted.{AllDone, said, summary_said, stamped}
use ocg.Compaction.Inserted.{stamped-ids, InOrder-stamped, rows-stamped}
use ocg.Compaction.Reported.{kept_ones, old_ones}
use ocg.Compaction.Kept.{maybe_compact-rows, maybe_compact_keeps}
use ocg.Compaction.Shrunk.{IsSound}
use ocg.Compaction.Others.{Same, maybe_compact-Same}
use ocg.Compaction.Lost.{maybe_compact_loses, maybe_compact-IsSound}

abbrev main : Text
main = codes "main"

abbrev repeated : ℕ → List (Text × Text)
repeated zero = []
repeated (suc n) = (codes "user", codes "hi") ∷ repeated n

length-repeated : (n : ℕ) → length (repeated n) ≡ n
length-repeated zero = refl
length-repeated (suc n) = omega (arith, length-repeated n)

-- A session with this many messages.
abbrev chat : ℕ → Storage
chat n = record {
  messages = stamped 100 main 1 (repeated n);
  next_id = suc n;
  archive = [];
  metas = [];
}

abbrev ready : Conditions
ready = record { free = true; has_store = true; meta_read = true; messages_read = true }

abbrev all_done : Writes
all_done = record { tokens = true; archived = true; meta = true; clear = true; add = λ i. true }

AllDone-all_done : AllDone all_done
AllDone-all_done = (refl, refl, refl, refl, λ i. refl)

chat-InOrder : (n : ℕ) → InOrder (rows main (chat n).messages)
chat-InOrder n =
    subst InOrder (sym (rows-stamped 100 main 1 (repeated n)))
      (InOrder-stamped 100 main 1 (repeated n))

chat-IsSound : (n : ℕ) → IsSound main (chat n)
unfolding get_session_meta lookup
chat-IsSound n = (chat-InOrder n, ids, λ a m. absurd m, omega arith)
  where
    ids :
        (m : Message)
        → In m (rows main (chat n).messages)
        → (0 < m.id) × (m.id < suc n) × (false ≡ false)
    ids m k =
        let (lo, hi, e, t) =
          stamped-ids 100 main 1 (repeated n) m
            (subst (In m) (rows-stamped 100 main 1 (repeated n)) k) in
        (omega arith, omega (arith, length-repeated n), refl)

-- Three messages with one to keep: two go to the archive, and the summary of them comes last.
three_compacted :
    map said (maybe_compact ready all_done 200 (pos 0) length 1 main (chat 3)).1.messages
    ≡ (codes "user", codes "hi") ∷ (codes "system", codes "[summary]\nuser: hi\nuser: hi") ∷ []
unfolding maybe_compact get_messages get_session_meta upsert_session_meta compact_stored
    archive_messages clear_messages add_message build_summary lookup insert
three_compacted = refl

reported_three : (maybe_compact ready all_done 200 (pos 0) length 1 main (chat 3)).0 ≡ true
unfolding maybe_compact get_messages
reported_three = refl

reported_long : (maybe_compact ready all_done 200 (pos 0) length 10 main (chat 501)).0 ≡ true
unfolding maybe_compact get_messages
reported_long = refl

-- The first and the last message of such a session.
abbrev first : Message
first = record {
  id = 1;
  session_key = main;
  role = codes "user";
  content = codes "hi";
  created_at = 100;
}

abbrev last : Message
last = record first { id = 501 }

last-late : In last (drop 500 (rows main (chat 501).messages))
last-late = inl refl

maybe_compact-rows_example :
    map said
      (rows main (maybe_compact ready all_done 200 (pos 0) length 1 main (chat 3)).1.messages)
    ≡ map said (kept_ones 1 main (chat 3))
      ++ summary_said (build_summary (old_ones 1 main (chat 3))) ∷ []
maybe_compact-rows_example =
    maybe_compact-rows ready all_done 200 (pos 0) length 1 main (chat 3) AllDone-all_done
      (chat-InOrder 3) reported_three

maybe_compact_keeps_example :
    let o = maybe_compact ready all_done 200 (pos 0) length 1 main (chat 3) in
    (is_summary first ≡ true)
    ⊎ In first o.1.archive
    ⊎ ((n : Message) × In n (rows main o.1.messages) × (said n ≡ said first))
maybe_compact_keeps_example =
    maybe_compact_keeps ready all_done 200 (pos 0) length 1 main (chat 3) first AllDone-all_done
      (chat-IsSound 3) (omega arith) (inl refl) reported_three

maybe_compact_loses_example :
    let o = maybe_compact ready all_done 200 (pos 0) length 10 main (chat 501) in
    (In last (rows main o.1.messages) → ⊥) × (In last o.1.archive → ⊥)
maybe_compact_loses_example =
    maybe_compact_loses ready all_done 200 (pos 0) length 10 main (chat 501) last AllDone-all_done
      (chat-IsSound 501) last-late reported_long

maybe_compact-IsSound_example :
    IsSound main (maybe_compact ready all_done 200 (pos 0) length 1 main (chat 3)).1
maybe_compact-IsSound_example =
    maybe_compact-IsSound ready all_done 200 (pos 0) length 1 main (chat 3) AllDone-all_done
      (chat-IsSound 3)

abbrev ops : Text
ops = codes "ops"

apart : main ≢ codes "ops"
apart e = absurd (differ ((text_eq.test_iff main (codes "ops")).1 e))
  where
    differ : false ≡ true → ⊥
    differ q = cc

maybe_compact-Same_example :
    Same main ops apart (chat 3) (maybe_compact ready all_done 200 (pos 0) length 1 main (chat 3)).1
maybe_compact-Same_example =
    maybe_compact-Same main ops apart ready all_done 200 (pos 0) length 1 (chat 3)
