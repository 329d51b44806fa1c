-- ===== src/Hooks/Changed.antt =====
-- What the removal of a hook and its switch change.
use ocg.Base.{
  ℕ, ◌≡◌, ◌≢◌, refl, sym, ap, ◌∙◌, ◌⊎◌, inl, inr, Bool, true, false, not, List, [], ◌∷◌, Option,
  none, some, String, keep, keep-append, ◌==◌, string_eq, nat_eq, arith, In, Bool-cases, if_false,
}
use ocg.Base.Map.{Map}
use ocg.Base.Text.{text_eq}
use ocg.Hooks.{
  EventType, Heap, HookRegistry, at, parent_of, unregister_in, unregister, get_hooks, parent_hooks,
  all_hooks, find_named, set_hook, set_found, enable, disable,
}

module _ (heap : Heap) where
  abbrev pub other_name : String → ℕ → Bool
  other_name name h = not ((heap h).name == name)

  at-unregister :
      (name : String) (m : Map EventType (List ℕ)) (e : EventType)
      → at (unregister_in heap name m) e ≡ keep (other_name name) (at m e)
  unfolding at
  at-unregister name [] e = refl
  at-unregister name ((x, hs) ∷ m) e = elim (Bool-cases (x == e)) [
    | inl same ↦ rw same refl
    | inr other ↦ rw other (at-unregister name m e)
  ]

  -- After a removal each type has the hooks it had before, in the same order, less those of that name.
  get_hooks-unregister :
      (name : String) (r : HookRegistry) (e : EventType)
      → get_hooks (unregister heap name r) e ≡ keep (other_name name) (get_hooks r e)
  unfolding get_hooks unregister
  get_hooks-unregister name r e = cc (
    at-unregister name r.hooks e,
    family (parent_of e),
    keep-append (other_name name) (at r.hooks e) (parent_hooks r.hooks (parent_of e)),
  )
    where
      family :
          (o : Option EventType)
          → parent_hooks (unregister_in heap name r.hooks) o
            ≡ keep (other_name name) (parent_hooks r.hooks o)
      family none = refl
      family (some p) = at-unregister name r.hooks p

  -- The hook of a search by name.
  abbrev pub Found : String → List ℕ → Option ℕ → Type 0
  Found name hs none = (h : ℕ) → In h hs → (heap h).name ≢ name
  Found name hs (some h) = In h hs × ((heap h).name ≡ name)

  find_named-Found : (name : String) (hs : List ℕ) → Found name hs (find_named heap name hs)
  find_named-Found name [] = λ h m. absurd m
  find_named-Found name (x ∷ hs) = elim (Bool-cases ((heap x).name == name)) [
    | inl same ↦ rw same (inl refl, (string_eq.test_iff (heap x).name name).0 same)
    | inr other ↦ rw other (later (find_named heap name hs) other (find_named-Found name hs))
  ]
    where
      later :
          (o : Option ℕ) → ((heap x).name == name) ≡ false → Found name hs o → Found name (x ∷ hs) o
      later none other none_there = λ h m. elim m [
        | inl here ↦ λ e.
            ground
              (arith, string_eq.test_iff (heap x).name name, ap (λ k. (heap k).name) (sym here) ∙ e)
        | inr there ↦ none_there h there
      ]
      later (some h) other (m, e) = (inr m, e)

  -- The answer to a switch of the hooks of a name, and the heap after it.
  abbrev pub Switched : HookRegistry → String → Bool → Bool × Heap → Type 0
  Switched r name b (answer, heap') =
      ((answer ≡ false)
        × ((h : ℕ) → In h (all_hooks r.hooks) → (heap h).name ≢ name)
        × (heap' ≡ heap))
      ⊎ ((h : ℕ) × (answer ≡ true)
          × In h (all_hooks r.hooks)
          × ((heap h).name ≡ name)
          × (heap' h ≡ record { name = (heap h).name; events = (heap h).events; enabled = b })
          × ((k : ℕ) → k ≢ h → heap' k ≡ heap k))

  set_found-Switched :
      (r : HookRegistry) (name : String) (b : Bool) (o : Option ℕ)
      → Found name (all_hooks r.hooks) o
      → Switched r name b (set_found heap b o)
  set_found-Switched r name b none f = inl (refl, f, refl)
  set_found-Switched r name b (some h) (m, e) = inr (h, refl, m, e, at_h, elsewhere)
    where
      at_h : set_hook heap h b h ≡ record (heap h) { enabled = b }
      at_h = rw ((nat_eq.test_iff h h).1 refl) refl

      elsewhere : (k : ℕ) → k ≢ h → set_hook heap h b k ≡ heap k
      elsewhere k ne = if_false _ _ (differ k ne)
        where
          differ : (k : ℕ) → k ≢ h → (k == h) ≡ false
          differ k ne = ground arith

  -- `Enable` and `Disable` answer false, and change nothing, exactly where no registered hook has the
  -- name; else they switch one hook of that name, which keeps its name and types, and no other hook.
  pub enable-Switched :
      (r : HookRegistry) (name : String)
      → Switched r name true (enable heap r name) × Switched r name false (disable heap r name)
  unfolding enable disable
  enable-Switched r name =
      let f = find_named-Found name (all_hooks r.hooks) in
      (set_found-Switched r name true _ f, set_found-Switched r name false _ f)
