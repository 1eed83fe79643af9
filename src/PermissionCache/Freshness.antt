-- ===== src/PermissionCache/Freshness.antt =====
-- What the cache serves is never older than its time to live.
use skrift.Prelude.{
  ℕ, zero, suc, ◌+◌, ◌-◌, ◌≤◌, ◌<◌, ◌≡◌, refl, ◌⊎◌, inl, inr, none, some, [], ◌∷◌, arith, ◌==◌,
  ==_iff, ℕ_beq, string_beq, ltb→lt, Bool-cases, Option-cases, length, drop, All, length-append,
  length-drop, All-append, if_rule,
}
use skrift.Prelude.Dict
use skrift.Prelude.Dict.{Dict}
use skrift.Prelude.Text.{Text, text_beq}
use skrift.Guards.{UserPermissions}
use skrift.PermissionCache.{
  PermissionCache, cache_ttl, max_permission_cache_entries, is_live, purge_expired_permissions,
  evict_permissions_over_capacity, put_last, cached, get_user_permissions,
  invalidate_user_permissions_cache,
}

cached-cases :
    (cache : PermissionCache) (user_id : Text) (now : ℕ)
    → (cached cache user_id now ≡ none)
      ⊎ ((entry : ℕ × UserPermissions) × (cached cache user_id now ≡ some entry)
          × (Dict.get cache user_id ≡ some entry)
          × (now < entry.0 + cache_ttl))
cached-cases cache user_id now = elim (Option-cases (Dict.get cache user_id)) [
  | inl missing ↦ inl (rw (missing, cached) refl)
  | inr (entry, there) ↦ elim (Bool-cases (is_live now entry.0)) [
    | inl live ↦ inr (entry, rw (there, cached) (rw live refl), there, ltb→lt now _ live)
    | inr stale ↦ inl (rw (there, cached) (rw stale refl))
  ]
]

length-remove_le :
    (cache : PermissionCache) (user_id : Text) → length (Dict.remove cache user_id) ≤ length cache
unfolding Dict.remove
length-remove_le [] user_id = omega arith
length-remove_le ((j, v) ∷ cache) user_id = ground (arith, length-remove_le cache user_id)

-- An entry that is there goes.
length-remove_lt :
    (cache : PermissionCache) (user_id : Text) {entry : ℕ × UserPermissions}
    → Dict.get cache user_id ≡ some entry
    → length (Dict.remove cache user_id) < length cache
unfolding Dict.remove Dict.get
length-remove_lt [] user_id h = absurd (cc)
length-remove_lt ((j, v) ∷ cache) user_id h = elim (Bool-cases (j == user_id)) [
  | inl same ↦ rw same (omega (arith, length-remove_le cache user_id))
  | inr other ↦ rw other (omega (arith, length-remove_lt cache user_id (rw other at h)))
]

length-evict :
    (cache : PermissionCache)
    → length (evict_permissions_over_capacity cache) ≤ max_permission_cache_entries
unfolding evict_permissions_over_capacity
length-evict cache = omega (arith, length-drop (length cache - max_permission_cache_entries) cache)

module _ (WasTrue : Text → ℕ → UserPermissions → Type 0) where
  -- Each entry was true at the time that it carries.
  abbrev pub IsTrue : PermissionCache → Type 0
  IsTrue cache = All (λ e. WasTrue e.0 e.1.0 e.1.1) cache

  drop-IsTrue : (n : ℕ) (cache : PermissionCache) → IsTrue cache → IsTrue (drop n cache)
  drop-IsTrue zero cache h = h
  drop-IsTrue (suc n) [] h = tt
  drop-IsTrue (suc n) (e ∷ cache) h = drop-IsTrue n cache h.1

  remove-IsTrue :
      (cache : PermissionCache) (user_id : Text) → IsTrue cache → IsTrue (Dict.remove cache user_id)
  unfolding Dict.remove
  remove-IsTrue [] user_id h = tt
  remove-IsTrue ((j, v) ∷ cache) user_id h =
      if_rule IsTrue (j == user_id) (remove-IsTrue cache user_id h.1)
        (h.0, remove-IsTrue cache user_id h.1)

  purge-IsTrue :
      (cache : PermissionCache) (now : ℕ)
      → IsTrue cache
      → IsTrue (purge_expired_permissions cache now)
  unfolding purge_expired_permissions
  purge-IsTrue [] now h = tt
  purge-IsTrue ((j, v) ∷ cache) now h =
      if_rule IsTrue (is_live now v.0) h (purge-IsTrue cache now h.1)

  put_last-IsTrue :
      (cache : PermissionCache) (user_id : Text) (entry : ℕ × UserPermissions)
      → IsTrue cache
      → WasTrue user_id entry.0 entry.1
      → IsTrue (put_last cache user_id entry)
  unfolding put_last
  put_last-IsTrue cache user_id entry h new =
      All-append _ (Dict.remove cache user_id) ((user_id, entry) ∷ [])
        (remove-IsTrue cache user_id h) (new, tt)

  get-IsTrue :
      (cache : PermissionCache) (user_id : Text) (entry : ℕ × UserPermissions)
      → IsTrue cache
      → Dict.get cache user_id ≡ some entry
      → WasTrue user_id entry.0 entry.1
  unfolding Dict.get
  get-IsTrue [] user_id entry h e = absurd (cc)
  get-IsTrue ((j, v) ∷ cache) user_id entry h e = elim (Bool-cases (j == user_id)) [
    | inl same ↦
        let key : j ≡ user_id = (==_iff j user_id).0 same in
        let value : v ≡ entry = cc (rw same at e) in rw (← key, ← value) h.0
    | inr other ↦ get-IsTrue cache user_id entry h.1 (rw other at e)
  ]

  -- Let each entry of the cache have been true of its user at the time that it carries, the
  -- answer of the database be true when the call stamps it, and the cache be within its cap. Then
  -- the permissions that a call returns were true when it stamped them, or at a time that lies
  -- less than the time to live before the call; and the new cache has true entries only and is
  -- within its cap.
  pub get_user_permissions-fresh :
      (query : Text → UserPermissions) (cache : PermissionCache) (user_id : Text) (clock : ℕ → ℕ)
      → IsTrue cache
      → WasTrue user_id (clock 1) (query user_id)
      → length cache ≤ max_permission_cache_entries
      → ((t : ℕ) × WasTrue user_id t (get_user_permissions query cache user_id clock).1
          × ((t ≡ clock 1) ⊎ (clock 0 < t + cache_ttl)))
        × IsTrue (get_user_permissions query cache user_id clock).0
        × (length (get_user_permissions query cache user_id clock).0 ≤ max_permission_cache_entries)
  unfolding get_user_permissions
  get_user_permissions-fresh query cache user_id clock h answer small =
      elim (cached-cases cache user_id (clock 0)) [
        | inl missed ↦
            rw (missed, get_user_permissions)
              (
                (clock 1, answer, inl refl),
                unfold evict_permissions_over_capacity in
                    drop-IsTrue _ _ (
                      put_last-IsTrue (purge_expired_permissions cache (clock 1)) user_id
                        (clock 1, query user_id) (purge-IsTrue cache (clock 1) h) answer),
                length-evict (
                    put_last (purge_expired_permissions cache (clock 1)) user_id
                      (clock 1, query user_id)),
              )
        | inr (entry, hit, there, live) ↦
            let fact = get-IsTrue cache user_id entry h there in
            rw (hit, get_user_permissions)
              (
                (entry.0, fact, inr live),
                put_last-IsTrue cache user_id entry h fact,
                unfold put_last in
                    omega (
                      arith,
                      length-append (Dict.remove cache user_id) ((user_id, entry) ∷ []),
                      length-remove_lt cache user_id there,
                    ),
              )
      ]

removed-cached :
    (cache : PermissionCache) (user_id : Text) (now : ℕ)
    → cached (Dict.remove cache user_id) user_id now ≡ none
removed-cached cache user_id now = rw (Dict.get-remove_self cache user_id, cached) refl

-- After the permissions of a user were invalidated, or all were, the next call for the user
-- returns what the database says.
pub invalidate-get_user_permissions :
    (query : Text → UserPermissions) (cache : PermissionCache) (user_id : Text) (clock : ℕ → ℕ)
    → ((get_user_permissions query
          (invalidate_user_permissions_cache cache (some user_id))
          user_id
          clock).1
        ≡ query user_id)
      × ((get_user_permissions query (invalidate_user_permissions_cache cache none) user_id clock).1
          ≡ query user_id)
unfolding get_user_permissions invalidate_user_permissions_cache Dict.get
invalidate-get_user_permissions query cache user_id clock =
    (rw (removed-cached cache user_id (clock 0), get_user_permissions) refl, refl)
