-- ===== src/Guards/KeyScope.antt =====
-- An API key never grants more than its user and its scope.
use skrift.Prelude.{contains}
use skrift.Prelude.{
  ◌+◌, ◌<◌, String, ◌≡◌, refl, ◌⊎◌, inl, inr, Bool, true, false, List, [], ◌∷◌, ◌++◌, arith, ◌==◌,
  ==_iff, ==_refl, ℕ_beq, string_beq, Bool-cases, or_else, length, filter, if_rule,
}
use skrift.Prelude.Dict
use skrift.Prelude.Dict.{Dict}
use skrift.Guards.{
  UserPermissions, AuthRequirement, ApiKey, check, permissions_of_roles, is_unscoped, scoped_of,
  restricted, scope_permissions,
}
use skrift.Guards.Requirements.{IsWithin, check_monotone}

contains-filter :
    (f : String → Bool) (xs : List String) (s : String)
    → contains (filter f xs) s ≡ true
    → (f s ≡ true) × (contains xs s ≡ true)
contains-filter f [] s h = absurd (cc)
contains-filter f (x ∷ xs) s h = elim (Bool-cases (f x)) [
  | inl kept ↦ elim (Bool-cases (x == s)) [
    | inl same ↦ (cc ((==_iff x s).0 same, kept), rw same refl)
    | inr other ↦
        let (fits, there) = contains-filter f xs s (ground (arith, h)) in (fits, rw other there)
  ]
  | inr gone ↦
      let (fits, there) = contains-filter f xs s (ground (arith, h)) in (fits, ground arith)
]

contains-append :
    (xs ys : List String) (s : String)
    → contains (xs ++ ys) s ≡ true
    → (contains xs s ≡ true) ⊎ (contains ys s ≡ true)
contains-append [] ys s h = inr h
contains-append (x ∷ xs) ys s h = elim (Bool-cases (x == s)) [
  | inl same ↦ inl (rw same refl)
  | inr other ↦ elim (contains-append xs ys s (ground (arith, h))) [
    | inl there ↦ inl (rw other there)
    | inr later ↦ inr later
  ]
]

-- The permission comes with a role that is in the list.
abbrev pub FromRole : Dict String (List String) → List String → String → Type 0
FromRole role_definitions names s =
    (name : String) × (contains names name ≡ true)
    × (contains (or_else (Dict.get role_definitions name) []) s ≡ true)

permissions_of_roles_sound :
    (role_definitions : Dict String (List String)) (names : List String) (s : String)
    → contains (permissions_of_roles role_definitions names) s ≡ true
    → FromRole role_definitions names s
unfolding permissions_of_roles
permissions_of_roles_sound d [] s h = absurd (cc)
permissions_of_roles_sound d (name ∷ names) s h =
    elim (contains-append (or_else (Dict.get d name) []) (permissions_of_roles d names) s h) [
      | inl here ↦ (name, rw (==_refl name) refl, here)
      | inr later ↦
          let (found, there, has) = permissions_of_roles_sound d names s later in
          (found, ground arith, has)
    ]

module _ (role_definitions : Dict String (List String)) (key : ApiKey)
    (user : UserPermissions) where
  scope_permissions-IsWithin : IsWithin (scope_permissions role_definitions key user) user
  unfolding scope_permissions
  scope_permissions-IsWithin =
      if_rule (λ p. IsWithin p user) (is_unscoped key) {x = user}
        {y = restricted role_definitions key user}
        (record { permissions = λ s h. h; roles = λ s h. h })
        (record {
          permissions = λ s h.
              (contains-filter (contains user.permissions) (scoped_of role_definitions key user) s
                h).0;
          roles = λ s h. (contains-filter (contains user.roles) key.scoped_role_list s h).0;
        })

  -- What a key may do its user may do: a requirement that the scoped permissions of a key
  -- satisfy is one that the user's own satisfy. If the key has a scope, each of its permissions
  -- is named by the scope, or comes with a role that both the scope names and the user has.
  pub scope_permissions-no_escalation :
      ((r : AuthRequirement)
        → check r (scope_permissions role_definitions key user) ≡ true
        → check r user ≡ true)
      × (0 < length key.scoped_permission_list + length key.scoped_role_list
          → (s : String)
          → contains (scope_permissions role_definitions key user).permissions s ≡ true
          → (contains key.scoped_permission_list s ≡ true)
            ⊎ FromRole role_definitions (filter (contains user.roles) key.scoped_role_list) s)
  unfolding scope_permissions
  scope_permissions-no_escalation = (
    (λ r. check_monotone _ user r scope_permissions-IsWithin),
    λ some_scope s h.
        let has_scope : is_unscoped key ≡ false = ground arith in
        elim (contains-append _ key.scoped_permission_list s
          (contains-filter (contains user.permissions) (scoped_of role_definitions key user) s
            (rw has_scope at h)).1) [
              | inl from_role ↦ inr (permissions_of_roles_sound role_definitions _ s from_role)
              | inr named ↦ inl named
            ],
  )
