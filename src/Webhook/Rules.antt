-- ===== src/Webhook/Rules.antt =====
-- Which agents and sessions a request may name.
use ocg.Base.{
  ℕ, ◌≡◌, ◌↔◌, ◌⊎◌, refl, sym, ap, ◌∙◌, inl, inr, Bool, true, false, List, [], ◌∷◌, ◌++◌, String,
  ◌==◌, string_eq, nat_eq, arith, In, Bool-cases, false-ne-true, ◌&&◌,
}
use ocg.Base.Text.{has_prefix}
use ocg.Webhook.{any_agent, is_allowed_agent_id, any_prefix, is_allowed_session_key}

any_agent_iff :
    (allowed : List String) (agent_id : String)
    → (any_agent allowed agent_id ≡ true) ↔ (In "*" allowed ⊎ In agent_id allowed)
any_agent_iff [] agent_id = ground arith
any_agent_iff (a ∷ rest) agent_id =
    ground
      (arith, string_eq.test_iff a "*", string_eq.test_iff a agent_id, any_agent_iff rest agent_id)

-- A request may name an agent exactly when no agents are listed, or the star is, or the agent.
is_allowed_agent_id_iff :
    (allowed : List String) (agent_id : String)
    → (is_allowed_agent_id allowed agent_id ≡ true)
      ↔ ((allowed ≡ []) ⊎ In "*" allowed ⊎ In agent_id allowed)
unfolding is_allowed_agent_id
is_allowed_agent_id_iff [] agent_id = (λ e. inl refl, λ e. refl)
is_allowed_agent_id_iff (a ∷ rest) agent_id =
    let (to, from) = any_agent_iff (a ∷ rest) agent_id in
    (λ e. inr (to e), λ s. elim s [ inl e ↦ absurd (not_nil e) | inr m ↦ from m ])
  where
    not_nil : (a ∷ rest) ≡ [] → ⊥
    not_nil e = cc

-- A text starts with another when it is that text and something after it.
abbrev pub Starts : List ℕ → List ℕ → Type 0
Starts text prefix = (rest : List ℕ) × (text ≡ prefix ++ rest)

has_prefix-Starts : (text prefix : List ℕ) → (has_prefix text prefix ≡ true) ↔ Starts text prefix
has_prefix-Starts text [] = (λ e. (text, refl), λ e. refl)
has_prefix-Starts [] (p ∷ ps) =
    (λ e. absurd (false-ne-true refl e), λ (rest, e). absurd (not_cons e))
  where
    not_cons : {x : ℕ} {xs : List ℕ} → [] ≡ x ∷ xs → ⊥
    not_cons e = cc
has_prefix-Starts (c ∷ text) (p ∷ ps) =
    let (to, from) = has_prefix-Starts text ps in
    (
      λ e.
          let (rest, q) = to (and_right (c == p) (has_prefix text ps) e) in
          (rest, cc (q, (nat_eq.test_iff c p).0 (and_left (c == p) (has_prefix text ps) e))),
      λ (rest, e).
          and_both (c == p) (has_prefix text ps) ((nat_eq.test_iff c p).1 (heads e))
            (from (rest, tails e)),
    )
  where
    and_left : (a b : Bool) → (a && b) ≡ true → a ≡ true
    and_left a b h = ground arith

    and_right : (a b : Bool) → (a && b) ≡ true → b ≡ true
    and_right a b h = ground arith

    and_both : (a b : Bool) → a ≡ true → b ≡ true → (a && b) ≡ true
    and_both a b h k = ground arith

    heads : {x y : ℕ} {xs ys : List ℕ} → x ∷ xs ≡ y ∷ ys → x ≡ y
    heads e = cc

    tails : {x y : ℕ} {xs ys : List ℕ} → x ∷ xs ≡ y ∷ ys → xs ≡ ys
    tails e = cc

any_prefix_sound :
    (prefixes : List (List ℕ)) (key : List ℕ)
    → any_prefix prefixes key ≡ true
    → (prefix : List ℕ) × In prefix prefixes × Starts key prefix
any_prefix_sound [] key e = absurd (false-ne-true refl e)
any_prefix_sound (p ∷ ps) key e = elim (Bool-cases (has_prefix key p)) [
  | inl here ↦ (p, inl refl, (has_prefix-Starts key p).0 here)
  | inr there ↦ let (q, m, s) = any_prefix_sound ps key (ground arith) in (q, inr m, s)
]

any_prefix_complete :
    (prefixes : List (List ℕ)) (key prefix : List ℕ)
    → In prefix prefixes
    → has_prefix key prefix ≡ true
    → any_prefix prefixes key ≡ true
any_prefix_complete [] key prefix m h = absurd m
any_prefix_complete (p ∷ ps) key prefix (inl e) h =
    let here : has_prefix key p ≡ true = ap (has_prefix key) (sym e) ∙ h in ground arith
any_prefix_complete (p ∷ ps) key prefix (inr m) h =
    let there = any_prefix_complete ps key prefix m h in ground arith

-- A request may name a session exactly when the switch is on and no prefixes are listed or the name
-- starts with a listed one.
is_allowed_session_key_iff :
    (switch : Bool) (prefixes : List (List ℕ)) (key : List ℕ)
    → (is_allowed_session_key switch prefixes key ≡ true) ↔ (
        (switch ≡ true)
        × ((prefixes ≡ []) ⊎ ((prefix : List ℕ) × In prefix prefixes × Starts key prefix)))
unfolding is_allowed_session_key
is_allowed_session_key_iff false prefixes key =
    (λ e. absurd (false-ne-true refl e), λ (e, s). absurd (false-ne-true refl e))
is_allowed_session_key_iff true [] key = (λ e. (refl, inl refl), λ s. refl)
is_allowed_session_key_iff true (p ∷ ps) key = (
  λ e. (refl, inr (any_prefix_sound (p ∷ ps) key e)),
  λ (on, s). elim s [
    | inl e ↦ absurd (not_nil e)
    | inr (q, m, starts) ↦ any_prefix_complete (p ∷ ps) key q m ((has_prefix-Starts key q).1 starts)
  ],
)
  where
    not_nil : {x : List ℕ} {xs : List (List ℕ)} → x ∷ xs ≡ [] → ⊥
    not_nil e = cc
