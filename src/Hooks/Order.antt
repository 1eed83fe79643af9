-- ===== src/Hooks/Order.antt =====
-- Handlers stand in the order of their priorities, those of one priority in the order in which
-- they were registered.
use skrift.Prelude.{
  String, ◌≡◌, refl, sym, ap, ◌∙◌, inl, inr, false, ◌&&◌, List, [], ◌∷◌, ◌++◌, map, arith, ℕ_beq,
  string_beq, Bool-cases, filter, All, filter-append,
}
use mathlib.Core.List.{append-nil, append_assoc}
use skrift.Prelude.Dict
use skrift.Prelude.Dict.{Dict}
use skrift.Prelude.Int.{ℤ, ◌≤ℤ◌, leb_ℤ}
use skrift.Hooks.{HookHandler, HookRegistry, insert, sort_onto, sort, handlers_of, add, add_action}

module _ {C : Type 0} where
  -- The priorities never fall along the list.
  abbrev pub IsSorted : List (HookHandler C) → Type 0
  IsSorted [] = Unit
  IsSorted (x ∷ []) = Unit
  IsSorted (x ∷ y ∷ xs) = (x.priority ≤ℤ y.priority) × IsSorted (y ∷ xs)

  insert-IsSorted :
      (h : HookHandler C) (xs : List (HookHandler C)) → IsSorted xs → IsSorted (insert h xs)
  unfolding insert
  insert-IsSorted h [] s = tt
  insert-IsSorted h (x ∷ []) s = ground arith
  insert-IsSorted h (x ∷ y ∷ xs) s = ground (arith, insert-IsSorted h (y ∷ xs) s.1)

  sort_onto-IsSorted :
      (sorted xs : List (HookHandler C)) → IsSorted sorted → IsSorted (sort_onto sorted xs)
  unfolding sort_onto
  sort_onto-IsSorted sorted [] s = s
  sort_onto-IsSorted sorted (x ∷ xs) s =
      sort_onto-IsSorted (insert x sorted) xs (insert-IsSorted x sorted s)

  sort-IsSorted : (xs : List (HookHandler C)) → IsSorted (sort xs)
  unfolding sort
  sort-IsSorted xs = sort_onto-IsSorted [] xs tt

  -- The handlers of one priority, in their order.
  abbrev pub of_priority : ℤ → List (HookHandler C) → List (HookHandler C)
  of_priority p = filter (λ x. leb_ℤ x.priority p && leb_ℤ p x.priority)

  of_priority_above :
      (p : ℤ) (x : HookHandler C) (xs : List (HookHandler C))
      → IsSorted (x ∷ xs)
      → leb_ℤ x.priority p ≡ false
      → of_priority p (x ∷ xs) ≡ []
  of_priority_above p x [] s above = ground arith
  of_priority_above p x (y ∷ xs) s above = ground (arith, of_priority_above p y xs s.1)

  front-of_priority :
      (p : ℤ) (h : HookHandler C) (x : ℤ) (l : List (HookHandler C))
      → leb_ℤ x h.priority ≡ false
      → (leb_ℤ x p ≡ false → of_priority p l ≡ [])
      → of_priority p (h ∷ l) ≡ of_priority p (l ++ h ∷ [])
  front-of_priority p h x l after above = elim (Bool-cases (leb_ℤ x p)) [
    | inl low ↦ rw (filter-append _ l (h ∷ [])) (ground (arith, append-nil (of_priority p l)))
    | inr high ↦ rw (filter-append _ l (h ∷ [])) (ground (arith, above high))
  ]

  insert-of_priority :
      (p : ℤ) (h : HookHandler C) (xs : List (HookHandler C))
      → IsSorted xs
      → of_priority p (insert h xs) ≡ of_priority p (xs ++ h ∷ [])
  unfolding insert
  insert-of_priority p h [] s = refl
  insert-of_priority p h (x ∷ []) s = ground arith
  insert-of_priority p h (x ∷ y ∷ xs) s = elim (Bool-cases (leb_ℤ x.priority h.priority)) [
    | inl before ↦ rw before (ground (arith, insert-of_priority p h (y ∷ xs) s.1))
    | inr after ↦
        rw after
          (front-of_priority p h x.priority (x ∷ y ∷ xs) after (of_priority_above p x (y ∷ xs) s))
  ]

  sort_onto-of_priority :
      (p : ℤ) (sorted xs : List (HookHandler C))
      → IsSorted sorted
      → of_priority p (sort_onto sorted xs) ≡ of_priority p sorted ++ of_priority p xs
  unfolding sort_onto
  sort_onto-of_priority p sorted [] s = sym (append-nil (of_priority p sorted))
  sort_onto-of_priority p sorted (x ∷ xs) s =
      sort_onto-of_priority p (insert x sorted) xs (insert-IsSorted x sorted s)
      ∙ rw (insert-of_priority p x sorted s, filter-append _ sorted (x ∷ []), append_assoc)
          (ap (λ (l : List (HookHandler C)). of_priority p sorted ++ l) (ground arith))

  -- The sort is stable.
  sort-of_priority :
      (p : ℤ) (xs : List (HookHandler C)) → of_priority p (sort xs) ≡ of_priority p xs
  unfolding sort
  sort-of_priority p xs = sort_onto-of_priority p [] xs tt

  -- A registration, as `add_action` and the `action` decorator receive it.
  abbrev pub handler : ℤ × C → HookHandler C
  handler r = record { priority = r.0; callback = r.1 }

  unfoldable pub register_all : HookRegistry C → String → List (ℤ × C) → HookRegistry C
  unfolding add_action
  register_all r hook_name [] = r
  register_all r hook_name ((priority, callback) ∷ rest) =
      register_all (add_action r hook_name callback priority) hook_name rest

  handlers_of-add_action :
      (r : HookRegistry C) (hook_name : String) (callback : C) (priority : ℤ)
      → handlers_of (add_action r hook_name callback priority).actions hook_name
        ≡ sort (handlers_of r.actions hook_name ++ handler (priority, callback) ∷ [])
  unfolding add_action add
  handlers_of-add_action r hook_name callback priority = rw Dict.get-put_self refl

  -- If the handlers of an action hook stand in the order of their priorities, so they do after any
  -- sequence of registrations, and those of one priority are those that it had before, followed by
  -- those registered with it, in the order of their registration.
  pub register_all-order :
      (r : HookRegistry C) (hook_name : String) (regs : List (ℤ × C))
      → IsSorted (handlers_of r.actions hook_name)
      → IsSorted (handlers_of (register_all r hook_name regs).actions hook_name)
        × ((p : ℤ)
            → of_priority p (handlers_of (register_all r hook_name regs).actions hook_name)
              ≡ of_priority p (handlers_of r.actions hook_name) ++ of_priority p (map handler regs))
  unfolding register_all
  register_all-order r hook_name [] s = (s, λ p. sym (append-nil _))
  register_all-order r hook_name ((priority, callback) ∷ rest) s =
      let r' = add_action r hook_name callback priority in
      let l = handlers_of r.actions hook_name in
      let e = handlers_of-add_action r hook_name callback priority in
      let (sorted, same) =
        register_all-order r' hook_name rest
          (rw e (sort-IsSorted (l ++ handler (priority, callback) ∷ []))) in
      (
        sorted,
        λ p.
            same p
            ∙ rw
                (
                  e,
                  sort-of_priority p (l ++ handler (priority, callback) ∷ []),
                  filter-append _ l (handler (priority, callback) ∷ []),
                  append_assoc,
                )
                (ap (λ (m : List (HookHandler C)). of_priority p l ++ m) (ground arith)),
      )

  -- A list in order is left as it is.
  AllBefore-mid :
      (h : HookHandler C) (xs ys : List (HookHandler C))
      → IsSorted (xs ++ h ∷ ys)
      → All (λ x. x.priority ≤ℤ h.priority) xs
  AllBefore-mid h [] ys s = tt
  AllBefore-mid h (x ∷ []) ys s = (s.0, tt)
  AllBefore-mid h (x ∷ y ∷ xs) ys s =
      let rest = AllBefore-mid h (y ∷ xs) ys s.1 in (omega (arith, s.0, rest.0), rest)

  insert_last :
      (h : HookHandler C) (xs : List (HookHandler C))
      → All (λ x. x.priority ≤ℤ h.priority) xs
      → insert h xs ≡ xs ++ h ∷ []
  unfolding insert
  insert_last h [] b = refl
  insert_last h (x ∷ xs) b = ground (arith, insert_last h xs b.1)

  sort_onto_sorted :
      (sorted xs : List (HookHandler C))
      → IsSorted (sorted ++ xs)
      → sort_onto sorted xs ≡ sorted ++ xs
  unfolding sort_onto
  sort_onto_sorted sorted [] s = sym (append-nil sorted)
  sort_onto_sorted sorted (x ∷ xs) s =
      rw (insert_last x sorted (AllBefore-mid x sorted xs s)) (
        sort_onto_sorted (sorted ++ x ∷ []) xs (rw append_assoc s)
        ∙ append_assoc sorted (x ∷ []) xs)

  pub sort_sorted : (xs : List (HookHandler C)) → IsSorted xs → sort xs ≡ xs
  unfolding sort
  sort_sorted xs s = sort_onto_sorted [] xs s

  pub IsSorted-snoc :
      (xs : List (HookHandler C)) (h : HookHandler C)
      → IsSorted xs
      → All (λ x. x.priority ≤ℤ h.priority) xs
      → IsSorted (xs ++ h ∷ [])
  IsSorted-snoc [] h s b = tt
  IsSorted-snoc (x ∷ []) h s b = (b.0, tt)
  IsSorted-snoc (x ∷ y ∷ xs) h s b = (s.0, IsSorted-snoc (y ∷ xs) h s.1 b.1)
