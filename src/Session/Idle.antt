-- ===== src/Session/Idle.antt =====
-- skrift/middleware/session_idle.py: sessions that have been idle for too long.
-- `with_message v` is the list under `flash_messages` with the sign-out message appended, where
-- `v` is what stood there. An idle timeout that is not positive is 0.
use skrift.Prelude.{
  ℕ, ◌+◌, ◌/◌, max, String, not, ◌||◌, Option, none, some, [], ◌∷◌, ◌==◌, ℕ_beq, string_beq, ltb,
  leb, eqb, if◌then◌else◌, is_some,
}
use skrift.Prelude.Dict
use skrift.Session.{SessionValue, number, Session, Conversions, real}

abbrev pub stamp_interval : ℕ → ℕ
stamp_interval idle_timeout = if ltb 0 idle_timeout then max 60 (idle_timeout / 20) else 60

module _ {A : Type 0} (py : Conversions A) where
  abbrev pub last_seen : Session A → Option ℕ
  last_seen session = elim (Dict.get session "idle_last_seen") [
    | none ↦ none
    | some value ↦ real py value
  ]

module _ {A : Type 0} (py : Conversions A)
    (with_message : Option (SessionValue A) → SessionValue A) where
  -- `session.clear()`, and the message
  unfoldable pub evict : Session A → Session A
  evict session = ("flash_messages", with_message (Dict.get session "flash_messages")) ∷ []

  unfoldable pub refresh : ℕ → Session A → Option ℕ → ℕ → Session A
  unfolding evict
  refresh idle_timeout session none now = evict session
  refresh idle_timeout session (some seen) now =
      if ltb (seen + idle_timeout) now
      then evict session
      else if leb (seen + stamp_interval idle_timeout) now
      then Dict.put session "idle_last_seen" (number now)
      else session

  -- The session that the app is called with.
  unfoldable pub check_idle : ℕ → String → Option (Session A) → ℕ → Option (Session A)
  unfolding refresh
  check_idle idle_timeout scope_type none now = none
  check_idle idle_timeout scope_type (some session) now =
      if not (scope_type == "http")
        || eqb idle_timeout 0
        || not (is_some (Dict.get session "user_id"))
      then some session
      else some (refresh idle_timeout session (last_seen py session) now)
