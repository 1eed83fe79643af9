-- ===== src/PermissionCache.antt =====
-- skrift/auth/services.py: the cache of user permissions, its time to live and its cap.
-- The least recently used entry stands first. The query of the database is a parameter.
pub mod Freshness
mod Tests
use skrift.Prelude.{
  ℕ, ◌+◌, ◌-◌, Bool, Option, none, some, [], ◌∷◌, ◌++◌, ℕ_beq, string_beq, ltb, if◌then◌else◌,
  length, drop,
}
use skrift.Prelude.Dict
use skrift.Prelude.Dict.{Dict}
use skrift.Prelude.Text.{Text, text_beq}
use skrift.Guards.{UserPermissions}

-- Five minutes, in microseconds.
abbrev pub cache_ttl : ℕ
cache_ttl = 300000000

abbrev pub max_permission_cache_entries : ℕ
max_permission_cache_entries = 10000

abbrev pub PermissionCache : Type 0
PermissionCache = Dict Text (ℕ × UserPermissions)

-- `now - cached_time < CACHE_TTL`
abbrev pub is_live : ℕ → ℕ → Bool
is_live now cached_time = ltb now (cached_time + cache_ttl)

unfoldable pub purge_expired_permissions : PermissionCache → ℕ → PermissionCache
purge_expired_permissions [] now = []
purge_expired_permissions ((user_id, entry) ∷ entries) now =
    let rest = purge_expired_permissions entries now in
    if is_live now entry.0 then (user_id, entry) ∷ entries else rest

unfoldable pub evict_permissions_over_capacity : PermissionCache → PermissionCache
evict_permissions_over_capacity cache = drop (length cache - max_permission_cache_entries) cache

-- `cache[user_id] = entry`, then `move_to_end`; or `move_to_end` of an entry that is there
unfoldable pub put_last : PermissionCache → Text → ℕ × UserPermissions → PermissionCache
put_last cache user_id entry = Dict.remove cache user_id ++ (user_id, entry) ∷ []

-- What a read of the cache may use.
abbrev pub cached : PermissionCache → Text → ℕ → Option (ℕ × UserPermissions)
cached cache user_id now = elim (Dict.get cache user_id) [
  | none ↦ none
  | some entry ↦ if is_live now entry.0 then some entry else none
]

-- `clock 0` is read with the cache, `clock 1` after the query.
unfoldable pub get_user_permissions :
    (Text → UserPermissions) → PermissionCache → Text → (ℕ → ℕ) → PermissionCache × UserPermissions
unfolding purge_expired_permissions evict_permissions_over_capacity put_last
get_user_permissions query cache user_id clock = elim (cached cache user_id (clock 0)) [
  | some entry ↦ (put_last cache user_id entry, entry.1)
  | none ↦ (
    evict_permissions_over_capacity
        (put_last (purge_expired_permissions cache (clock 1)) user_id (clock 1, query user_id)),
    query user_id,
  )
]

unfoldable pub invalidate_user_permissions_cache : PermissionCache → Option Text → PermissionCache
invalidate_user_permissions_cache cache none = []
invalidate_user_permissions_cache cache (some user_id) = Dict.remove cache user_id
