-- ===== src/Permissions/Clearance.antt =====
-- What `strictest_clearance` returns.
use skrift.Prelude.{
  ◌≤◌, ◌<◌, String, ◌≡◌, refl, ap, ◌∙◌, ◌⊎◌, inl, inr, Bool, true, none, some, List, [], ◌∷◌, arith,
  ℕ_beq, string_beq, ltb, eqb, if◌then◌else◌, Bool-cases, Option-cases, any, All,
}
use skrift.Prelude.Dict
use skrift.Prelude.Dict.{Dict}
use skrift.Permissions.{
  PermissionClearance, disallow_api_grants, allow_anonymous_service, clearance_rank, Registry,
  ensure_permission, strictest_from, strictest_clearance,
}

-- The clearance of a permission; one that is not registered is not to be granted.
abbrev pub clearance_of : Registry → String → PermissionClearance
clearance_of registry slug = elim (Dict.get registry slug) [
  | none ↦ disallow_api_grants
  | some definition ↦ definition.service_clearance
]

any-later :
    (p : String → Bool) (slug : String) (permissions : List String)
    → any p permissions ≡ true
    → any p (slug ∷ permissions) ≡ true
any-later p slug permissions h = ground (arith, h)

module _ (humanize_permission : String → String) (registry : Registry) where
  -- The answer is right for the permissions, starting from a clearance that some of those before
  -- asked for.
  pub data IsStrictest (start : PermissionClearance) (permissions : List String)
      : PermissionClearance → Type 0 where
    refused :
        any (λ slug. eqb (clearance_rank (clearance_of registry slug)) 0) permissions ≡ true
        → IsStrictest start permissions disallow_api_grants
    granted :
        (c : PermissionClearance)
        → All
            (λ slug.
              (0 < clearance_rank (clearance_of registry slug))
              × (clearance_rank (clearance_of registry slug) ≤ clearance_rank c))
            permissions
        → clearance_rank start ≤ clearance_rank c
        → (c ≡ start)
          ⊎ (any
                (λ slug. eqb (clearance_rank (clearance_of registry slug)) (clearance_rank c))
                permissions
              ≡ true)
        → IsStrictest start permissions c

  any-here :
      (slug : String) (permissions : List String)
      → clearance_of registry slug ≡ disallow_api_grants
      → any (λ x. eqb (clearance_rank (clearance_of registry x)) 0) (slug ∷ permissions) ≡ true
  any-here slug permissions e = rw (ap (λ c. eqb (clearance_rank c) 0) e) refl

  rank_zero : (c : PermissionClearance) → eqb (clearance_rank c) 0 ≡ true → c ≡ disallow_api_grants
  rank_zero c h = ground (arith, h)

  -- The permission in front asks for a clearance of its own.
  IsStrictest-cons :
      (start c d : PermissionClearance) (slug : String) (permissions : List String)
      → clearance_of registry slug ≡ d
      → 0 < clearance_rank d
      → IsStrictest
          (if ltb (clearance_rank start) (clearance_rank d) then d else start)
          permissions
          c
      → IsStrictest start (slug ∷ permissions) c
  IsStrictest-cons start _ d slug permissions e pos (refused blocked) =
      refused (any-later _ slug permissions blocked)
  IsStrictest-cons start _ d slug permissions e pos (granted c below high from) =
      elim (Bool-cases (ltb (clearance_rank start) (clearance_rank d))) [
        | inl stricter ↦
            let above : clearance_rank d ≤ clearance_rank c = rw stricter at high in
            granted c ((rw e pos, rw e above), below) (ground (arith, stricter, above))
              (inr (elim (rw stricter at from) [
                | inl here ↦ ground (arith, e, here)
                | inr there ↦ any-later _ slug permissions there
              ]))
        | inr same ↦
            let above : clearance_rank start ≤ clearance_rank c = rw same at high in
            granted c ((rw e pos, rw e (ground (arith, same, above))), below) above
              (elim (rw same at from) [
                | inl here ↦ inl here
                | inr there ↦ inr (any-later _ slug permissions there)
              ])
      ]

  strictest_from-IsStrictest :
      (start : PermissionClearance) (permissions : List String)
      → IsStrictest start permissions
          (strictest_from humanize_permission start permissions registry).1
  unfolding strictest_from
  strictest_from-IsStrictest start [] = granted start tt (omega arith) (inl refl)
  strictest_from-IsStrictest start (slug ∷ permissions) =
      elim (Option-cases (Dict.get registry slug)) [
        | inl missing ↦
            rw (missing, ensure_permission)
              (refused (any-here slug permissions (rw (missing, clearance_of) refl)))
        | inr (definition, there) ↦
            let d = definition.service_clearance in
            let e : clearance_of registry slug ≡ d = rw (there, clearance_of) refl in
            rw (there, ensure_permission)
              (elim (Bool-cases (eqb (clearance_rank d) 0)) [
                | inl none_at_all ↦
                    rw none_at_all
                      (refused (any-here slug permissions (e ∙ rank_zero d none_at_all)))
                | inr some_at_all ↦
                    elim (Bool-cases (ltb (clearance_rank start) (clearance_rank d))) [
                      | inl stricter ↦
                          rw (some_at_all, stricter)
                            (IsStrictest-cons start _ d slug permissions e
                              (ground (arith, some_at_all))
                              (rw stricter (strictest_from-IsStrictest d permissions)))
                      | inr same ↦
                          rw (some_at_all, same)
                            (IsStrictest-cons start _ d slug permissions e
                              (ground (arith, some_at_all))
                              (rw same (strictest_from-IsStrictest start permissions)))
                    ]
              ])
      ]

  -- If some of the permissions is not to be granted, or is not registered, the answer of
  -- `strictest_clearance` is `disallow-api-grants`. Otherwise it is not weaker than what any of
  -- the permissions asks for, and it is what some of them asks for or `allow-anonymous-service`.
  pub strictest_clearance-IsStrictest :
      (permissions : List String)
      → IsStrictest allow_anonymous_service permissions
          (strictest_clearance humanize_permission registry permissions).1
  unfolding strictest_clearance
  strictest_clearance-IsStrictest permissions =
      strictest_from-IsStrictest allow_anonymous_service permissions
