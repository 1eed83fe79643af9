-- ===== src/Session/Complete.antt =====
-- `finalize_authenticated_session`, `complete_pending_authentication` and
-- `apply_pending_authentication_transition`, and what they leave in a session.
use skrift.Prelude.{
  ℕ, String, Bool, Option, none, some, [], ◌==◌, ℕ_beq, string_beq, if◌then◌else◌, is_some, Result,
  ok, raise, ◌>>=◌,
}
use skrift.Prelude.Dict
use skrift.Session.{
  SessionValue, null, text, number, Session, Conversions, SessionError, no_pending_authentication,
  not_a_decision, no_next_url, fetch,
}
use skrift.Session.Pending.{
  PendingAuthState, clear_pending_authentication, get_pending_authentication,
  update_pending_authentication,
}

pub record User : Type 0 where
  pub id : String
  pub name : Option String
  pub email : Option String
  pub picture_url : Option String

pub record PendingAuthTransitionDecision : Type 0 where
  pub promote_immediately : Bool
  pub next_url : Option String
  pub stage : Option String

module _ {A : Type 0} where
  abbrev pub nullable : Option String → SessionValue A
  nullable none = null
  nullable (some s) = text s

  -- `session[key] = value`, unless the value is None
  unfoldable pub keep_value : String → Option (SessionValue A) → Session A → Session A
  keep_value key none session = session
  keep_value key (some value) session = Dict.put session key value

  -- The new session; `csrf_token` is what `token_urlsafe` returns.
  unfoldable pub finalize_authenticated_session : Session A → User → String → ℕ → Session A
  unfolding keep_value
  finalize_authenticated_session session user csrf_token now =
      let s1 : Session A = Dict.put [] "user_id" (text user.id) in
      let s2 = Dict.put s1 "user_name" (nullable user.name) in
      let s3 = Dict.put s2 "user_email" (nullable user.email) in
      let s4 = Dict.put s3 "user_picture_url" (nullable user.picture_url) in
      let s5 = Dict.put s4 "idle_last_seen" (number now) in
      let s6 = Dict.put s5 "_csrf_token" (text csrf_token) in
      let s7 = keep_value "flash" (fetch session "flash") s6 in
      let s8 = keep_value "flash_messages" (fetch session "flash_messages") s7 in
      let s9 = keep_value "_nid" (fetch session "_nid") s8 in
      keep_value "auth_next" (fetch session "auth_next") s9

module _ {A : Type 0} (py : Conversions A) where
  abbrev pub promote : Session A → User → String → ℕ → Session A
  promote session user csrf_token now =
      finalize_authenticated_session (clear_pending_authentication session) user csrf_token now

  -- What follows `pending_auth or get_pending_authentication(request)`.
  unfoldable pub promote_found :
      Session A
      → Result SessionError (Option PendingAuthState)
      → User
      → String
      → ℕ
      → Session A × Result SessionError (Unit {0})
  unfolding finalize_authenticated_session
  promote_found session (raise err) user csrf_token now = (session, raise err)
  promote_found session (ok none) user csrf_token now = (session, raise no_pending_authentication)
  promote_found session (ok (some pending)) user csrf_token now =
      (promote session user csrf_token now, ok tt)

  -- The clock is read twice.
  unfoldable pub complete_pending_authentication :
      Session A
      → User
      → Option PendingAuthState
      → String
      → (ℕ → ℕ)
      → Session A × Result SessionError (Unit {0})
  unfolding get_pending_authentication promote_found
  complete_pending_authentication session user (some pending) csrf_token clock =
      promote_found session (ok (some pending)) user csrf_token (clock 1)
  complete_pending_authentication session user none csrf_token clock =
      let (session', found) = get_pending_authentication py session (clock 0) in
      promote_found session' found user csrf_token (clock 1)

  -- `decision.stage is not None and decision.stage != pending_auth.stage`
  abbrev pub new_stage : PendingAuthTransitionDecision → PendingAuthState → Option String
  new_stage decision pending = elim decision.stage [
    | none ↦ none
    | some stage ↦ if stage == pending.stage then none else some stage
  ]

  abbrev pub defer :
      PendingAuthTransitionDecision
      → Session A
      → Result SessionError (Unit {0})
      → Session A × Result SessionError PendingAuthTransitionDecision
  defer decision session (raise err) = (session, raise err)
  defer decision session (ok _) =
      (session, (if is_some decision.next_url then ok decision else raise no_next_url))

  abbrev pub staged :
      Session A → Option String → (ℕ → ℕ) → Session A × Result SessionError (Unit {0})
  staged session none clock = (session, ok tt)
  staged session (some stage) clock =
      let (session', updated) = update_pending_authentication py session (some stage) none clock in
      (session', updated >>= (λ _. ok tt))

  -- `decided` is what the filter `AUTH_PENDING_AUTHENTICATION` gives, and `none` if that is no
  -- decision.
  unfoldable pub apply_pending_authentication_transition :
      Session A
      → User
      → PendingAuthState
      → Option PendingAuthTransitionDecision
      → String
      → (ℕ → ℕ)
      → Session A × Result SessionError PendingAuthTransitionDecision
  unfolding complete_pending_authentication update_pending_authentication
  apply_pending_authentication_transition session user pending none csrf_token clock =
      (session, raise not_a_decision)
  apply_pending_authentication_transition session user pending (some decision) csrf_token clock =
      if decision.promote_immediately
      then (
        (complete_pending_authentication session user (some pending) csrf_token clock).0,
        ok decision,
      )
      else (let (session', outcome) = staged session (new_stage decision pending) clock in
          defer decision session' outcome)
