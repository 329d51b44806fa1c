-- ===== src/Compaction/Archive.antt =====
-- What the archive of messages takes in.
use ocg.Base.{
  ℕ, ◌≤◌, ◌<◌, ◌≡◌, refl, sym, ap, subst, ◌⊎◌, inl, inr, Bool, true, false, not, ◌&&◌, ◌||◌, List,
  [], ◌∷◌, ◌++◌, if◌then◌else◌, ltb, leb, keep, ◌==◌, nat_eq, arith, In, In-append, append-In,
  Bool-cases, if_false, keep-keep,
}
use ocg.Base.Text.{text_eq}
use ocg.Compaction.{
  Text, Message, of_session, rows, is_archivable, is_summary, is_archived, archive_all,
}
use ocg.Compaction.Order.{InOrder}

-- The archive keeps what it has.
In-archive_all_old : (m : Message) (ms a : List Message) → In m a → In m (archive_all ms a)
In-archive_all_old m [] a k = k
In-archive_all_old m (x ∷ ms) a k = In-archive_all_old m ms _ (grown (is_archived x a))
  where
    grown : (b : Bool) → In m (if b then a else a ++ x ∷ [])
    grown true = k
    grown false = append-In m a (x ∷ []) (inl k)

-- What it has then was there or is one of the rows.
pub In-archive_all :
    (m : Message) (ms a : List Message) → In m (archive_all ms a) → In m a ⊎ In m ms
In-archive_all m [] a k = inl k
In-archive_all m (x ∷ ms) a k = elim (In-archive_all m ms _ k) [
  | inl there ↦ was (is_archived x a) there
  | inr later ↦ inr (inr later)
]
  where
    was : (b : Bool) → In m (if b then a else a ++ x ∷ []) → In m a ⊎ In m (x ∷ ms)
    was true there = inl there
    was false there = elim (In-append m a (x ∷ []) there) [
      | inl old ↦ inl old
      | inr (inl here) ↦ inr (inl here)
      | inr (inr none_left) ↦ absurd none_left
    ]

is_archived-append :
    (m x : Message) (a : List Message)
    → is_archived m (a ++ x ∷ [])
      ≡ (is_archived m a || (x.session_key == m.session_key && x.id == m.id))
is_archived-append m x [] = ground arith
is_archived-append m x (y ∷ a) = ground (arith, is_archived-append m x a)

-- Rows in order whose ids the archive does not have are all taken in.
pub archive_all-In :
    (m : Message) (ms a : List Message)
    → InOrder ms
    → ((x : Message) → In x ms → is_archived x a ≡ false)
    → In m ms
    → In m (archive_all ms a)
archive_all-In m [] a o new k = absurd k
archive_all-In m (x ∷ ms) a (f, o) new (inl here) = In-archive_all_old m ms _ (
    subst (In m) (sym (if_false a (a ++ x ∷ []) (new x (inl refl))))
      (append-In m a (x ∷ []) (inr (inl here))))
archive_all-In m (x ∷ ms) a (f, o) new (inr there) =
    archive_all-In m ms _ o
      (subst (λ b. (y : Message) → In y ms → is_archived y b ≡ false)
        (sym (if_false a (a ++ x ∷ []) (new x (inl refl)))) still)
      there
  where
    still : (y : Message) → In y ms → is_archived y (a ++ x ∷ []) ≡ false
    still y k =
        let differ : (x.id == y.id) ≡ false = after (f y k).0 in
        ground (arith, is_archived-append y x a, new y (inr k))
      where
        after : x.id < y.id → (x.id == y.id) ≡ false
        after h = ground arith

-- The statement takes its rows from those of the session.
pub archivable-rows :
    (key : Text) (last before : ℕ) (t : List Message)
    → keep (is_archivable key last before) t
      ≡ keep (λ m. ltb last m.id && leb m.id before && not (is_summary m)) (rows key t)
archivable-rows key last before t =
    sym (keep-keep (λ m. ltb last m.id && leb m.id before && not (is_summary m)) (of_session key) t)

-- An archive with no id of this one or above does not have it.
pub is_archived_below :
    (m : Message) (n : ℕ) (a : List Message)
    → ((x : Message) → In x a → x.session_key ≡ m.session_key → x.id < n)
    → n ≤ m.id
    → is_archived m a ≡ false
is_archived_below m n [] b h = refl
is_archived_below m n (x ∷ a) b h =
    ground (arith, first, is_archived_below m n a (λ y k. b y (inr k)) h)
  where
    first : (x.session_key == m.session_key && x.id == m.id) ≡ false
    first = elim (Bool-cases (x.session_key == m.session_key)) [
      | inl same ↦ go (b x (inl refl) ((text_eq.test_iff x.session_key m.session_key).0 same))
      | inr other ↦ rw other refl
    ]
      where
        go : x.id < n → (x.session_key == m.session_key && x.id == m.id) ≡ false
        go k = ground arith

pub In-is_archived : (m : Message) (a : List Message) → In m a → is_archived m a ≡ true
In-is_archived m [] k = absurd k
In-is_archived m (x ∷ a) (inl here) =
    let same_key : (x.session_key == m.session_key) ≡ true =
      (text_eq.test_iff x.session_key m.session_key).1
        (ap (λ (w : Message). w.session_key) (sym here)) in
    let same_id : x.id ≡ m.id = ap (λ (w : Message). w.id) (sym here) in ground arith
In-is_archived m (x ∷ a) (inr there) = ground (arith, In-is_archived m a there)
