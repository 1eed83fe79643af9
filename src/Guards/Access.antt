-- ===== src/Guards/Access.antt =====
-- Who gets past `auth_guard`.
use skrift.Prelude.{
  ◌≡◌, refl, inl, inr, Bool, true, false, ◌||◌, Option, none, some, List, [], ◌∷◌, arith, ℕ_beq,
  string_beq, Bool-cases, Option-cases, is_some, Result, ok, raise, any, All, if_rule, Result-cases,
}
use skrift.Prelude.Text.{Text, starts_with, codes, is_blank}
use skrift.Guards.{
  UserPermissions, AuthRequirement, Guard, AuthError, ApiKey, Backend, Connection, check, check_all,
  scope_permissions, extract_bearer_token, is_jwt_shaped, is_api_key_only, is_api_key_auth,
  jwt_marker, is_jwt_only, auth_requirements, known, by_session, resolve_api_key_permissions,
  by_api_key, by_jwt, key_holder, bearer_of, by_bearer, or_session, auth_guard,
}

module _ (backend : Backend) (guards : List Guard) (connection : Connection) where
  -- How a caller may be known, and with what permissions.
  pub data IsIdentity : Text → UserPermissions → Type 0 where
    api_key :
        (bearer : Text) (key : ApiKey)
        → (any is_api_key_only guards || any is_api_key_auth guards) ≡ true
        → extract_bearer_token connection.authorization ≡ some bearer
        → starts_with (codes "sk_") bearer ≡ true
        → backend.verify_api_key bearer ≡ some key
        → IsIdentity key.user_id (
            scope_permissions backend.role_definitions key
              (backend.get_user_permissions key.user_id))
    jwt :
        (bearer audience : Text) (scopes : List Text) (only : Bool) (user_id : Text)
        (permissions : UserPermissions)
        → jwt_marker guards ≡ some (audience, scopes, only)
        → extract_bearer_token connection.authorization ≡ some bearer
        → is_jwt_shaped bearer ≡ true
        → backend.resolve_bearer_jwt_permissions bearer audience scopes ≡ ok (user_id, permissions)
        → IsIdentity user_id permissions
    session :
        (user_id : Text)
        → any is_api_key_only guards ≡ false
        → is_jwt_only (jwt_marker guards) ≡ false
        → connection.session_user_id ≡ some user_id
        → IsIdentity user_id (backend.get_user_permissions user_id)

  -- Whom the guard takes the caller for, if anyone.
  abbrev Identified : Option (Text × UserPermissions) → Type 0
  Identified none = Unit
  Identified (some (user_id, permissions)) = IsIdentity user_id permissions

  abbrev IdentifiedIfOk : Result AuthError (Option (Text × UserPermissions)) → Type 0
  IdentifiedIfOk (raise err) = Unit
  IdentifiedIfOk (ok who) = Identified who

  by_api_key-Identified :
      (o : Option Text)
      → extract_bearer_token connection.authorization ≡ o
      → (any is_api_key_only guards || any is_api_key_auth guards) ≡ true
      → Identified (by_api_key backend o)
  unfolding by_api_key resolve_api_key_permissions
  by_api_key-Identified none e marked = tt
  by_api_key-Identified (some bearer) e marked =
      elim (Bool-cases (starts_with (codes "sk_") bearer)) [
        | inr other ↦ rw (other, by_api_key) tt
        | inl shaped ↦ elim (Option-cases (backend.verify_api_key bearer)) [
          | inl refused ↦ rw (shaped, by_api_key) (rw (refused, resolve_api_key_permissions) tt)
          | inr (key, verified) ↦
              rw (shaped, by_api_key)
                (rw (verified, resolve_api_key_permissions)
                  (api_key bearer key marked e shaped verified))
        ]
      ]

  by_jwt-Identified :
      (o : Option Text) (marker : Option (Text × List Text × Bool))
      → (is_some o ≡ true → extract_bearer_token connection.authorization ≡ o)
      → jwt_marker guards ≡ marker
      → IdentifiedIfOk (by_jwt backend o marker)
  unfolding by_jwt
  by_jwt-Identified none marker e m = tt
  by_jwt-Identified (some bearer) none e m = tt
  by_jwt-Identified (some bearer) (some (audience, scopes, only)) e m =
      elim (Bool-cases (is_jwt_shaped bearer)) [
        | inr other ↦ rw (other, by_jwt) tt
        | inl shaped ↦
            elim (Result-cases (backend.resolve_bearer_jwt_permissions bearer audience scopes)) [
              | inr (err, refused) ↦ rw (shaped, by_jwt) (rw refused tt)
              | inl ((user_id, permissions), verified) ↦
                  rw (shaped, by_jwt)
                    (rw verified (
                      jwt bearer audience scopes only user_id permissions m (e refl) shaped
                        verified))
            ]
      ]

  session-Identified :
      (o : Option Text)
      → connection.session_user_id ≡ o
      → any is_api_key_only guards ≡ false
      → is_jwt_only (jwt_marker guards) ≡ false
      → Identified (by_session backend o)
  session-Identified none e no_key no_jwt = tt
  session-Identified (some user_id) e no_key no_jwt =
      if_rule Identified (is_blank user_id) tt (session user_id no_key no_jwt e)

  or_session-Identified :
      (who : Option (Text × UserPermissions))
      → Identified who
      → Identified (or_session backend guards connection who)
  unfolding or_session
  or_session-Identified who i =
      if_rule Identified (known who) i
        (elim (Bool-cases (any is_api_key_only guards || is_jwt_only (jwt_marker guards))) [
          | inl closed ↦ rw closed tt
          | inr unlocked ↦
              rw unlocked
                (session-Identified connection.session_user_id refl (ground arith) (ground arith))
        ])

  bearer_of-some :
      is_some (bearer_of guards connection) ≡ true
      → extract_bearer_token connection.authorization ≡ bearer_of guards connection
  bearer_of-some h = ground (arith, h)

  key_holder-Identified : Identified (key_holder backend guards (bearer_of guards connection))
  unfolding key_holder
  key_holder-Identified =
      elim (Bool-cases (any is_api_key_only guards || any is_api_key_auth guards)) [
        | inr no_key ↦ rw (no_key, key_holder) tt
        | inl marked ↦
            rw (marked, key_holder)
              (by_api_key-Identified (extract_bearer_token connection.authorization) refl marked)
      ]

  by_bearer-Identified : IdentifiedIfOk (by_bearer backend guards connection)
  unfolding by_bearer
  by_bearer-Identified =
      if_rule IdentifiedIfOk (is_some (key_holder backend guards (bearer_of guards connection)))
        {x = ok (key_holder backend guards (bearer_of guards connection))} key_holder-Identified
        (by_jwt-Identified (bearer_of guards connection) (jwt_marker guards) bearer_of-some refl)

  check_all-All :
      (rs : List AuthRequirement) (p : UserPermissions)
      → check_all rs p ≡ ok tt
      → All (λ r. check r p ≡ true) rs
  check_all-All [] p h = tt
  check_all-All (r ∷ rs) p h = elim (Bool-cases (check r p)) [
    | inl passed ↦ (passed, check_all-All rs p (rw passed at h))
    | inr failed ↦ absurd (ground (arith, h))
  ]

  -- Whoever gets past `auth_guard` is known: by an API key that was verified, on a route that
  -- takes keys; by a JWT that was verified, on a route that takes JWTs; or by the session, on a
  -- route that is not for bearers only. The permissions are those of that way (for a key, those
  -- that its scope leaves), and they satisfy every requirement of the route.
  pub auth_guard_sound :
      auth_guard backend guards connection ≡ ok tt
      → (user_id : Text) × (permissions : UserPermissions) × IsIdentity user_id permissions
        × All (λ r. check r permissions ≡ true) (auth_requirements guards)
  unfolding auth_guard
  auth_guard_sound h = elim (Result-cases (by_bearer backend guards connection)) [
    | inr (err, failed) ↦ absurd (cc (rw failed at h))
    | inl (who, e) ↦ elim (Option-cases (or_session backend guards connection who)) [
      | inl nobody ↦ absurd (cc (rw (e, nobody) at h))
      | inr ((user_id, permissions), same) ↦ (
        user_id,
        permissions,
        rw same at (or_session-Identified who (rw e at by_bearer-Identified)),
        check_all-All (auth_requirements guards) permissions (rw (e, same) at h),
      )
    ]
  ]
