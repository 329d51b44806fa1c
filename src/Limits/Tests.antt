-- ===== src/Limits/Tests.antt =====
-- A limit of two requests an hour.
use ocg.Base.{some, true, ◌≡◌, refl, [], ◌∷◌, arith, string_eq, pair_eq, nat_eq}
use ocg.Base.Map.{lookup, insert, delete}
use ocg.Limits.{
  set_rate_limit, delete_rate_limit, allowed, Key, Table, get_rate_limit, check_rate_limit,
}
use ocg.Limits.Windows.{limit, check_all, check_all_within, check_all_after}

abbrev chat : Key
chat = ("/chat", "key")

abbrev table : Table
table = (chat, limit 0 0 2) ∷ []

three_checks : (check_all chat (10 ∷ 20 ∷ 30 ∷ []) table).0 ≡ 2
unfolding check_rate_limit get_rate_limit lookup insert
three_checks = refl

check_all_within_example : (check_all chat (10 ∷ 20 ∷ 30 ∷ []) table).0 ≡ 2
unfolding get_rate_limit lookup
check_all_within_example =
    check_all_within chat 0 2 (omega arith) (10 ∷ 20 ∷ 30 ∷ []) 0 table refl
      (omega arith, (omega arith, (omega arith, tt)))

-- Two hours later three requests are let through within a second.
check_all_after_example : (check_all chat (7200000 ∷ 7200010 ∷ 7200020 ∷ 7200030 ∷ []) table).0 ≡ 3
unfolding get_rate_limit lookup
check_all_after_example =
    check_all_after chat (limit 0 0 2) 7200000 (7200010 ∷ 7200020 ∷ 7200030 ∷ []) table
      (omega arith) refl (omega arith) (omega arith, (omega arith, (omega arith, tt)))

-- A new limit starts its window at the second; a change keeps the count; a removal lifts it.
limit_set : get_rate_limit chat (set_rate_limit 5300 chat 2 []) ≡ some (limit 0 5000 2)
unfolding set_rate_limit get_rate_limit lookup insert
limit_set = refl

limit_changed : get_rate_limit chat (set_rate_limit 5300 chat 9 table) ≡ some (limit 0 0 9)
unfolding set_rate_limit get_rate_limit lookup insert
limit_changed = refl

limit_lifted : (check_rate_limit true true 10 chat (delete_rate_limit chat table)).0 ≡ allowed
unfolding check_rate_limit delete_rate_limit get_rate_limit lookup delete
limit_lifted = refl
