-- ===== src/PermissionCache/Tests.antt =====
-- A cache with one entry, and the theorems about the cache at it.
use skrift.Prelude.{
  ℕ, ◌+◌, ◌≤◌, ◌<◌, ◌≡◌, refl, ◌⊎◌, [], ◌∷◌, arith, ℕ_beq, string_beq, ltb, if◌then◌else◌, length,
}
use skrift.Prelude.Text.{Text, codes}
use skrift.Guards.{UserPermissions}
use skrift.PermissionCache.{
  PermissionCache, cache_ttl, max_permission_cache_entries, get_user_permissions,
}
use skrift.PermissionCache.Freshness.{IsTrue, get_user_permissions-fresh}

abbrev nothing : UserPermissions
nothing = record { user_id = codes "u1"; roles = []; permissions = [] }

abbrev cache : PermissionCache
cache = (codes "u1", (5, nothing)) ∷ []

abbrev query : Text → UserPermissions
query user_id = record { user_id = user_id; roles = "author" ∷ []; permissions = [] }

-- The user has no role before time 7, and is an author from then on.
abbrev WasTrue : Text → ℕ → UserPermissions → Type 0
WasTrue user_id t p = p.roles ≡ (if ltb t 7 then [] else "author" ∷ [])

get_user_permissions-fresh_example :
    ((t : ℕ) × WasTrue (codes "u1") t (get_user_permissions query cache (codes "u1") (λ n. 10)).1
      × ((t ≡ 10) ⊎ (10 < t + cache_ttl)))
    × IsTrue WasTrue (get_user_permissions query cache (codes "u1") (λ n. 10)).0
    × (length (get_user_permissions query cache (codes "u1") (λ n. 10)).0
        ≤ max_permission_cache_entries)
get_user_permissions-fresh_example =
    get_user_permissions-fresh WasTrue query cache (codes "u1") (λ n. 10) (refl, tt) refl
      (omega arith)
