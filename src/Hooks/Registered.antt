-- ===== src/Hooks/Registered.antt =====
-- What the registrations of hooks come to.
use ocg.Base.{
  ℕ, zero, suc, ◌+◌, ◌≤◌, ◌≡◌, refl, sym, ap, ◌∙◌, subst, inl, inr, Bool, true, false, List, [],
  ◌∷◌, ◌++◌, Option, none, some, ◌==◌, nat_eq, arith, In, Bool-cases, if_true, if_false,
}
use mathlib.Core.List.{append-nil, append_assoc}
use ocg.Base.Map.{Map, lookup, lookup-insert}
use ocg.Base.Text.{text_eq}
use ocg.Hooks.{
  EventType, Heap, HookRegistry, new_hook_registry, or_nil, at, parent_of, append_hook,
  register_types, append_parent, register_parents, register, get_hooks, parent_hooks,
}

abbrev pub times : ℕ → ℕ → List ℕ
times zero h = []
times (suc n) h = h ∷ times n h

abbrev pub one_if : Bool → ℕ
one_if true = 1
one_if false = 0

abbrev pub is_parent : EventType → Option EventType → Bool
is_parent e none = false
is_parent e (some p) = p == e

-- How often a list of types names this one, and how often it names one of its family.
abbrev pub named : EventType → List EventType → ℕ
named e [] = 0
named e (x ∷ xs) = one_if (x == e) + named e xs

abbrev pub in_family : EventType → List EventType → ℕ
in_family e [] = 0
in_family e (x ∷ xs) = one_if (is_parent e (parent_of x)) + in_family e xs

at-append_hook :
    (h : ℕ) (x e : EventType) (m : Map EventType (List ℕ))
    → at (append_hook h x m) e ≡ at m e ++ times (one_if (x == e)) h
unfolding append_hook at
at-append_hook h x e m = elim (Bool-cases (x == e)) [
  | inl same ↦
      let is : x ≡ e = (text_eq.test_iff x e).0 same in
      ap or_nil (lookup-insert x e (or_nil (lookup x m) ++ h ∷ []) m ∙ if_true _ _ same)
      ∙ ap (λ k. or_nil (lookup k m) ++ h ∷ []) is
      ∙ sym (ap (λ b. or_nil (lookup e m) ++ times (one_if b) h) same)
  | inr other ↦
      ap or_nil (lookup-insert x e (or_nil (lookup x m) ++ h ∷ []) m ∙ if_false _ _ other)
      ∙ sym (append-nil (or_nil (lookup e m)))
      ∙ sym (ap (λ b. or_nil (lookup e m) ++ times (one_if b) h) other)
]

times_add : (a b h : ℕ) → times (a + b) h ≡ times a h ++ times b h
times_add zero b h = ap (λ n. times n h) (omega arith)
times_add (suc a) b h =
    let s : suc a + b ≡ suc (a + b) = omega arith in rw s (ap (◌∷◌ h) (times_add a b h))

at-register_types :
    (h : ℕ) (xs : List EventType) (e : EventType) (m : Map EventType (List ℕ))
    → at (register_types h xs m) e ≡ at m e ++ times (named e xs) h
at-register_types h [] e m = sym (append-nil (at m e))
at-register_types h (x ∷ xs) e m =
    at-register_types h xs e (append_hook h x m)
    ∙ ap (λ l. l ++ times (named e xs) h) (at-append_hook h x e m)
    ∙ append_assoc (at m e) _ _
    ∙ ap (λ l. at m e ++ l) (sym (times_add (one_if (x == e)) (named e xs) h))

at-append_parent :
    (h : ℕ) (o : Option EventType) (e : EventType) (m : Map EventType (List ℕ))
    → at (append_parent h o m) e ≡ at m e ++ times (one_if (is_parent e o)) h
at-append_parent h none e m = sym (append-nil (at m e))
at-append_parent h (some p) e m = at-append_hook h p e m

at-register_parents :
    (h : ℕ) (xs : List EventType) (e : EventType) (m : Map EventType (List ℕ))
    → at (register_parents h xs m) e ≡ at m e ++ times (in_family e xs) h
at-register_parents h [] e m = sym (append-nil (at m e))
at-register_parents h (x ∷ xs) e m =
    at-register_parents h xs e (append_parent h (parent_of x) m)
    ∙ ap (λ l. l ++ times (in_family e xs) h) (at-append_parent h (parent_of x) e m)
    ∙ append_assoc (at m e) _ _
    ∙ ap (λ l. at m e ++ l)
        (sym (times_add (one_if (is_parent e (parent_of x))) (in_family e xs) h))

at-new : (k : EventType) → at new_hook_registry.hooks k ≡ []
unfolding new_hook_registry at
at-new k = refl

abbrev pub occurrences : ℕ → List ℕ → ℕ
occurrences h [] = 0
occurrences h (x ∷ xs) = one_if (x == h) + occurrences h xs

occurrences-append :
    (h : ℕ) (xs ys : List ℕ) → occurrences h (xs ++ ys) ≡ occurrences h xs + occurrences h ys
occurrences-append h [] ys = omega arith
occurrences-append h (x ∷ xs) ys = omega (arith, occurrences-append h xs ys)

occurrences-times : (n h : ℕ) → occurrences h (times n h) ≡ n
occurrences-times zero h = refl
occurrences-times (suc n) h =
    rw ((nat_eq.test_iff h h).1 refl) (omega (arith, occurrences-times n h))

named_pos : (e : EventType) (xs : List EventType) → In e xs → 1 ≤ named e xs
named_pos e [] m = absurd m
named_pos e (x ∷ xs) (inl here) = rw ((text_eq.test_iff x e).1 (sym here)) (omega arith)
named_pos e (x ∷ xs) (inr later) = omega (arith, named_pos e xs later)

in_family_pos :
    (e q : EventType) (xs : List EventType) → parent_of e ≡ some q → In e xs → 1 ≤ in_family q xs
in_family_pos e q [] p m = absurd m
in_family_pos e q (x ∷ xs) p (inl here) =
    let is : is_parent q (parent_of x) ≡ true =
      ap (is_parent q) (ap parent_of (sym here) ∙ p) ∙ (text_eq.test_iff q q).1 refl in
    rw is (omega arith)
in_family_pos e q (x ∷ xs) p (inr later) = omega (arith, in_family_pos e q xs p later)

module _ (heap : Heap) where
  -- A registry is made by registering hooks in order.
  abbrev pub register_all : List ℕ → HookRegistry → HookRegistry
  register_all [] r = r
  register_all (h ∷ hs) r = register_all hs (register heap h r)

  -- The abstract view: each hook once for each of its types that is this one or of its family.
  abbrev pub listeners : EventType → List ℕ → List ℕ
  listeners e [] = []
  listeners e (h ∷ hs) =
      times (named e (heap h).events + in_family e (heap h).events) h ++ listeners e hs

  at-register :
      (h : ℕ) (r : HookRegistry) (e : EventType)
      → at (register heap h r).hooks e
        ≡ at r.hooks e ++ times (named e (heap h).events + in_family e (heap h).events) h
  unfolding register
  at-register h r e =
      let es = (heap h).events in
      at-register_parents h es e (register_types h es r.hooks)
      ∙ ap (λ l. l ++ times (in_family e es) h) (at-register_types h es e r.hooks)
      ∙ append_assoc (at r.hooks e) _ _
      ∙ ap (λ l. at r.hooks e ++ l) (sym (times_add (named e es) (in_family e es) h))

  at-register_all :
      (hs : List ℕ) (r : HookRegistry) (e : EventType)
      → at (register_all hs r).hooks e ≡ at r.hooks e ++ listeners e hs
  at-register_all [] r e = sym (append-nil (at r.hooks e))
  at-register_all (h ∷ hs) r e =
      at-register_all hs (register heap h r) e
      ∙ ap (λ l. l ++ listeners e hs) (at-register h r e)
      ∙ append_assoc (at r.hooks e) _ _

  abbrev pub parent_listeners : Option EventType → List ℕ → List ℕ
  parent_listeners none hs = []
  parent_listeners (some p) hs = listeners p hs

  -- A registry that was filled by registrations answers `GetHooks` as the abstract view says: each hook,
  -- in order of registration, as often as its types are this one or of its family; then the same for
  -- the family of the type, if it has one.
  pub get_hooks-register_all :
      (hs : List ℕ) (e : EventType)
      → get_hooks (register_all hs new_hook_registry) e
        ≡ listeners e hs ++ parent_listeners (parent_of e) hs
  unfolding get_hooks
  get_hooks-register_all hs e = cc (start e, family (parent_of e))
    where
      start : (k : EventType) → at (register_all hs new_hook_registry).hooks k ≡ listeners k hs
      start k = at-register_all hs new_hook_registry k ∙ ap (λ l. l ++ listeners k hs) (at-new k)

      family :
          (o : Option EventType)
          → parent_hooks (register_all hs new_hook_registry).hooks o ≡ parent_listeners o hs
      family none = refl
      family (some p) = start p

  listeners_occur :
      (hs : List ℕ) (h : ℕ) (e : EventType)
      → In h hs
      → named e (heap h).events + in_family e (heap h).events ≤ occurrences h (listeners e hs)
  listeners_occur [] h e m = absurd m
  listeners_occur (x ∷ hs) h e (inl here) =
      subst
        (λ y.
          named e (heap h).events + in_family e (heap h).events
          ≤ occurrences h
              (times (named e (heap y).events + in_family e (heap y).events) y ++ listeners e hs))
        here
        (omega (
          arith,
          occurrences-append h (times (named e (heap h).events + in_family e (heap h).events) h)
              (listeners e hs),
          occurrences-times (named e (heap h).events + in_family e (heap h).events) h,
        ))
  listeners_occur (x ∷ hs) h e (inr later) = omega (
    arith,
    listeners_occur hs h e later,
    occurrences-append h (times (named e (heap x).events + in_family e (heap x).events) x)
        (listeners e hs),
  )

  -- A hook that is registered for a type of a family, such as `message:received`, gets each event of
  -- that type at least twice: once from the type and once from its family.
  get_hooks-doubles :
      (hs : List ℕ) (h : ℕ) (e family : EventType)
      → In h hs
      → In e (heap h).events
      → parent_of e ≡ some family
      → 2 ≤ occurrences h (get_hooks (register_all hs new_hook_registry) e)
  get_hooks-doubles hs h e family m on p = rw (get_hooks-register_all hs e) (
      omega (
        arith,
        occurrences-append h (listeners e hs) (parent_listeners (parent_of e) hs),
        listeners_occur hs h e m,
        listeners_occur hs h family m,
        named_pos e (heap h).events on,
        in_family_pos e family (heap h).events p on,
        ap (λ o. occurrences h (parent_listeners o hs)) p,
      ))
