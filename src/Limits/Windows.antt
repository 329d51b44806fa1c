-- ===== src/Limits/Windows.antt =====
-- How many requests a window lets through.
use ocg.Base.{
  ℕ, suc, ◌-◌, ◌≤◌, ◌<◌, ◌≡◌, ap, ◌∙◌, inl, inr, true, false, List, [], ◌∷◌, some, ltb, ◌==◌,
  nat_eq, string_eq, pair_eq, arith, All, length, Bool-cases, if_true, if_false,
}
use ocg.Base.Map.{insert, lookup-insert_self}
use ocg.Limits.{
  Key, RateLimit, Table, second_of, get_rate_limit, Checked, allowed, denied, failed, count_request,
  check_found, check_rate_limit,
}
use Prim.Native.Nat.{min}

-- The requests that a row of checks of one key allows, and the table after them.
abbrev pub one_more : Checked × (ℕ × Table) → ℕ × Table
one_more (allowed, (n, t)) = (suc n, t)
one_more (denied, r) = r
one_more (failed, r) = r

abbrev pub check_all : Key → List ℕ → Table → ℕ × Table
check_all key [] t = (0, t)
check_all key (now ∷ later) t =
    let r = check_rate_limit true true now key t in one_more (r.0, check_all key later r.1)

-- The window that began then is not over at these instants.
abbrev pub InWindow : ℕ → List ℕ → Type 0
InWindow begin ts = All (λ now. now - begin ≤ 3600000) ts

-- The row of the key.
abbrev pub limit : ℕ → ℕ → ℕ → RateLimit
limit requests begin max_requests = record {
  requests = requests;
  window_start = begin;
  max_requests = max_requests;
}

module _ (key : Key) (begin max_requests : ℕ) (limited : 0 < max_requests) where
  not_unlimited : (max_requests == 0) ≡ false
  not_unlimited = ground arith

  counted :
      (requests now : ℕ) (t : Table)
      → get_rate_limit key t ≡ some (limit requests begin max_requests)
      → now - begin ≤ 3600000
      → check_rate_limit true true now key t
        ≡ count_request true key (limit requests begin max_requests) t
  unfolding check_rate_limit
  counted requests now t there early =
      ap (check_found true now key t) there ∙ if_false _ _ not_unlimited ∙ if_false _ _ running
    where
      running : ltb 3600000 (now - begin) ≡ false
      running = ground arith

  -- Under a limit that is not zero, while the window lasts, exactly as many requests are allowed as the
  -- limit leaves.
  pub check_all_within :
      (ts : List ℕ) (requests : ℕ) (t : Table)
      → get_rate_limit key t ≡ some (limit requests begin max_requests)
      → InWindow begin ts
      → (check_all key ts t).0 ≡ min (length ts) (max_requests - requests)
  unfolding get_rate_limit
  check_all_within [] requests t there early = omega arith
  check_all_within (now ∷ ts) requests t there (early, rest) =
      ap (λ r. (one_more (r.0, check_all key ts r.1)).0) (counted requests now t there early)
      ∙ elim (Bool-cases (ltb requests max_requests)) [
        | inl less ↦
            let t' = insert key (limit (suc requests) begin max_requests) t in
            let ih = check_all_within ts (suc requests) t' (lookup-insert_self key _ t) rest in
            ap next (if_true (allowed, t') (denied, t) less) ∙ ap suc ih ∙ room less
        | inr full ↦
            ap next (
              if_false (allowed, insert key (limit (suc requests) begin max_requests) t) (denied, t)
                full)
            ∙ check_all_within ts requests t there rest
            ∙ none_left full
      ]
    where
      next : Checked × Table → ℕ
      next r = (one_more (r.0, check_all key ts r.1)).0

      room :
          ltb requests max_requests ≡ true
          → suc (min (length ts) (max_requests - suc requests))
            ≡ min (suc (length ts)) (max_requests - requests)
      room less = ground arith

      none_left :
          ltb requests max_requests ≡ false
          → min (length ts) (max_requests - requests)
            ≡ min (suc (length ts)) (max_requests - requests)
      none_left full = ground arith

-- Under a limit that is not zero a check that finds the window over begins a new one and is
-- allowed; of the checks after it in that hour as many are allowed as the limit says, so that it is
-- not counted.
pub check_all_after :
    (key : Key) (r : RateLimit) (now : ℕ) (ts : List ℕ) (t : Table)
    → 0 < r.max_requests
    → get_rate_limit key t ≡ some r
    → 3600000 < now - r.window_start
    → InWindow (second_of now) ts
    → (check_all key (now ∷ ts) t).0 ≡ suc (min (length ts) r.max_requests)
unfolding get_rate_limit check_rate_limit
check_all_after key r now ts t limited there over early =
    ap (λ c. (one_more (c.0, check_all key ts c.1)).0)
      (ap (check_found true now key t) there ∙ if_false _ _ not_unlimited ∙ if_true _ _ expired)
    ∙ ap suc (
        check_all_within key (second_of now) r.max_requests limited ts 0
          (insert key (limit 0 (second_of now) r.max_requests) t) (lookup-insert_self key _ t) early
        ∙ whole)
  where
    not_unlimited : (r.max_requests == 0) ≡ false
    not_unlimited = ground arith

    expired : ltb 3600000 (now - r.window_start) ≡ true
    expired = ground arith

    whole : min (length ts) (r.max_requests - 0) ≡ min (length ts) r.max_requests
    whole = omega arith
