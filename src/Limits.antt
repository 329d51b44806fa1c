-- ===== src/Limits.antt =====
-- storage/storage.go: the limits of requests for an endpoint and a key. Instants are milliseconds;
-- CURRENT_TIMESTAMP is cut to the second. The success of the query and of the statement is an argument.
-- Limits are not negative.
pub mod Windows
mod Tests
use ocg.Base.{
  ℕ, suc, ◌+◌, ◌-◌, ◌%◌, Bool, true, false, List, [], ◌∷◌, Option, none, some, String,
  if◌then◌else◌, ltb, ◌==◌, nat_eq, string_eq, pair_eq,
}
use ocg.Base.Map.{Map, lookup, insert, delete}

-- Endpoint and key, which are unique together.
abbrev pub Key : Type 0
Key = String × String

pub record RateLimit : Type 0 where
  pub requests : ℕ
  pub window_start : ℕ
  pub max_requests : ℕ

abbrev pub Table : Type 0
Table = Map Key RateLimit

abbrev pub second_of : ℕ → ℕ
second_of now = now - now % 1000

abbrev pub set_found : ℕ → ℕ → Option RateLimit → RateLimit
set_found now max_requests none = record {
  requests = 0;
  window_start = second_of now;
  max_requests = max_requests;
}
set_found now max_requests (some r) = record r { max_requests = max_requests }

unfoldable pub set_rate_limit : ℕ → Key → ℕ → Table → Table
unfolding lookup insert
set_rate_limit now key max_requests t = insert key (set_found now max_requests (lookup key t)) t

unfoldable pub get_rate_limit : Key → Table → Option RateLimit
unfolding lookup
get_rate_limit key t = lookup key t

unfoldable pub delete_rate_limit : Key → Table → Table
unfolding delete
delete_rate_limit key t = delete key t

pub data Checked : Type 0 where
  allowed : Checked
  denied : Checked
  failed : Checked

abbrev pub is_expired : ℕ → RateLimit → Bool
is_expired now r = ltb 3600000 (now - r.window_start)

-- The two updates; a statement that fails changes nothing.
abbrev pub write : Bool → Key → RateLimit → Table → Checked × Table
write false key r t = (failed, t)
write true key r t = (allowed, insert key r t)

abbrev pub count_request : Bool → Key → RateLimit → Table → Checked × Table
count_request false key r t = (failed, t)
count_request true key r t =
    if ltb r.requests r.max_requests
    then (allowed, insert key (record r { requests = suc r.requests }) t)
    else (denied, t)

abbrev pub check_found : Bool → ℕ → Key → Table → Option RateLimit → Checked × Table
check_found writes now key t none = (allowed, t)
check_found writes now key t (some r) =
    if r.max_requests == 0
    then (allowed, t)
    else if is_expired now r
    then write writes key (record r { requests = 0; window_start = second_of now }) t
    else count_request writes key r t

unfoldable pub check_rate_limit : Bool → Bool → ℕ → Key → Table → Checked × Table
unfolding get_rate_limit insert
check_rate_limit false writes now key t = (failed, t)
check_rate_limit true writes now key t = check_found writes now key t (get_rate_limit key t)
