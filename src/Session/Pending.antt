-- ===== src/Session/Pending.antt =====
-- `PendingAuthState` and the functions that begin, read, update and clear a pending sign-in.
use skrift.Prelude.{
  ℕ, ◌+◌, String, Bool, false, Option, none, some, List, [], ◌∷◌, ℕ_beq, string_beq, leb,
  if◌then◌else◌, Result, ok, raise,
}
use skrift.Prelude.Dict
use skrift.Session.{
  SessionValue, text, number, flag, Session, Conversions, SessionError, not_a_number,
  no_pending_authentication, truth, str, int, fetch, pending_auth_session_keys,
}

pub record PendingAuthState : Type 0 where
  pub pending_auth_id : String
  pub method_key : String
  pub method_type : String
  pub stage : String
  pub user_id : Option String
  pub subject_id : Option String
  pub email : Option String
  pub name : Option String
  pub is_new_user : Bool
  pub expires_at : ℕ

abbrev pub is_expired : PendingAuthState → ℕ → Bool
is_expired pending now = leb pending.expires_at now

module _ {A : Type 0} where
  -- `session[key] = value`, if there is a value
  unfoldable pub put_some : Session A → String → Option String → Session A
  put_some session key none = session
  put_some session key (some value) = Dict.put session key (text value)

  unfoldable pub clear_keys : List String → Session A → Session A
  clear_keys [] session = session
  clear_keys (key ∷ keys) session = clear_keys keys (Dict.remove session key)

  abbrev pub clear_pending_authentication : Session A → Session A
  clear_pending_authentication session = clear_keys pending_auth_session_keys session

  -- The writes of `begin_pending_authentication`, in their order.
  unfoldable pub write_pending : PendingAuthState → Session A → Session A
  unfolding put_some
  write_pending p s =
      let s1 = Dict.put s "pending_auth_id" (text p.pending_auth_id) in
      let s2 = Dict.put s1 "pending_auth_method" (text p.method_key) in
      let s3 = Dict.put s2 "pending_auth_method_type" (text p.method_type) in
      let s4 = Dict.put s3 "pending_auth_stage" (text p.stage) in
      let s5 = Dict.put s4 "pending_auth_expires_at" (number p.expires_at) in
      let s6 = put_some s5 "pending_auth_user_id" p.user_id in
      let s7 = put_some s6 "pending_auth_subject_id" p.subject_id in
      let s8 = put_some s7 "pending_auth_email" p.email in
      let s9 = put_some s8 "pending_auth_name" p.name in
      Dict.put s9 "pending_auth_is_new_user" (flag p.is_new_user)

-- What the primary method found out about the user.
pub record ResolvedPrimaryIdentity : Type 0 where
  pub subject_id : Option String
  pub email : Option String
  pub name : Option String

abbrev pub of_identity :
    (ResolvedPrimaryIdentity → Option String) → Option ResolvedPrimaryIdentity → Option String
of_identity field none = none
of_identity field (some identity) = field identity

pub record BeginArguments : Type 0 where
  pub method_key : String
  pub method_type : String
  pub identity : Option ResolvedPrimaryIdentity
  pub user_id : Option String
  pub is_new_user : Bool
  pub stage : String
  pub ttl_seconds : ℕ

-- `id` is `uuid4().hex`.
abbrev pub begun : BeginArguments → String → ℕ → PendingAuthState
begun b id now = record {
  pending_auth_id = id;
  method_key = b.method_key;
  method_type = b.method_type;
  stage = b.stage;
  user_id = b.user_id;
  subject_id = of_identity (λ i. i.subject_id) b.identity;
  email = of_identity (λ i. i.email) b.identity;
  name = of_identity (λ i. i.name) b.identity;
  is_new_user = b.is_new_user;
  expires_at = now + b.ttl_seconds;
}

unfoldable pub begin_pending_authentication :
    {A : Type 0} → Session A → BeginArguments → String → ℕ → Session A × PendingAuthState
unfolding write_pending
begin_pending_authentication session b id now =
    (write_pending (begun b id now) session, begun b id now)

module _ {A : Type 0} (py : Conversions A) where
  -- `session.get(key)`, if it is truthy, as a text
  abbrev pub required_text : Session A → String → Option String
  required_text session key = elim (Dict.get session key) [
    | none ↦ none
    | some value ↦ if truth py value then some (str py value) else none
  ]

  abbrev pub optional_text : Session A → String → Option String
  optional_text session key = elim (fetch session key) [
    | none ↦ none
    | some value ↦ some (str py value)
  ]

  abbrev pub stored_flag : Session A → String → Bool
  stored_flag session key = elim (Dict.get session key) [
    | none ↦ false
    | some value ↦ truth py value
  ]

  unfoldable pub assemble : Session A → String → String → String → String → ℕ → PendingAuthState
  assemble session id method_key method_type stage expires_at = record {
    pending_auth_id = id;
    method_key = method_key;
    method_type = method_type;
    stage = stage;
    user_id = optional_text session "pending_auth_user_id";
    subject_id = optional_text session "pending_auth_subject_id";
    email = optional_text session "pending_auth_email";
    name = optional_text session "pending_auth_name";
    is_new_user = stored_flag session "pending_auth_is_new_user";
    expires_at = expires_at;
  }

  -- An expired state is cleared.
  unfoldable pub unless_expired :
      Session A → PendingAuthState → ℕ → Session A × Result SessionError (Option PendingAuthState)
  unless_expired session pending now =
      if is_expired pending now
      then (clear_pending_authentication session, ok none)
      else (session, ok (some pending))

  -- What follows once the keys are read: four texts and the expiry, or something is missing.
  unfoldable pub read_pending :
      Session A
      → Option String
      → Option String
      → Option String
      → Option String
      → Option (SessionValue A)
      → ℕ
      → Session A × Result SessionError (Option PendingAuthState)
  unfolding assemble unless_expired
  read_pending session (some id) (some method_key) (some method_type) (some stage) (some value)
        now =
      elim (int py value) [
        | none ↦ (session, raise not_a_number)
        | some expires_at ↦
            unless_expired session (assemble session id method_key method_type stage expires_at) now
      ]
  read_pending session _ _ _ _ _ now = (session, ok none)

  unfoldable pub get_pending_authentication :
      Session A → ℕ → Session A × Result SessionError (Option PendingAuthState)
  unfolding read_pending
  get_pending_authentication session now =
      read_pending session (required_text session "pending_auth_id")
        (required_text session "pending_auth_method")
        (required_text session "pending_auth_method_type")
        (required_text session "pending_auth_stage") (fetch session "pending_auth_expires_at") now

  abbrev pub with_stage :
      Option String → Session A × PendingAuthState → Session A × PendingAuthState
  with_stage none (session, pending) = (session, pending)
  with_stage (some stage) (session, pending) =
      (Dict.put session "pending_auth_stage" (text stage), record pending { stage = stage })

  abbrev pub with_ttl : Option ℕ → ℕ → Session A × PendingAuthState → Session A × PendingAuthState
  with_ttl none now (session, pending) = (session, pending)
  with_ttl (some ttl_seconds) now (session, pending) = (
    Dict.put session "pending_auth_expires_at" (number (now + ttl_seconds)),
    record pending { expires_at = now + ttl_seconds },
  )

  -- Both readings of the clock are given.
  unfoldable pub update_pending_authentication :
      Session A
      → Option String
      → Option ℕ
      → (ℕ → ℕ)
      → Session A × Result SessionError PendingAuthState
  unfolding get_pending_authentication
  update_pending_authentication session stage ttl_seconds clock =
      let (session', found) = get_pending_authentication session (clock 0) in
      elim found [
        | raise err ↦ (session', raise err)
        | ok o ↦ elim o [
          | none ↦ (session', raise no_pending_authentication)
          | some pending ↦
              let (session'', pending') =
                with_ttl ttl_seconds (clock 1) (with_stage stage (session', pending)) in
              (session'', ok pending')
        ]
      ]
