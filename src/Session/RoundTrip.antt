-- ===== src/Session/RoundTrip.antt =====
-- What is read back of a pending sign-in.
use skrift.Prelude.{
  ℕ, ◌+◌, ◌<◌, String, ◌≡◌, refl, ◌∙◌, false, Option, none, some, [], ◌∷◌, arith, ◌==◌, ℕ_beq,
  string_beq, if◌then◌else◌, option_or, ok, All,
}
use skrift.Prelude.Dict
use skrift.Session.{SessionValue, text, number, flag, Session, Conversions, fetch}
use skrift.Session.Pending.{
  PendingAuthState, put_some, write_pending, BeginArguments, begun, begin_pending_authentication,
  required_text, optional_text, stored_flag, assemble, unless_expired, get_pending_authentication,
}

module _ {A : Type 0} where
  abbrev as_text : Option String → Option (SessionValue A)
  as_text none = none
  as_text (some s) = some (text s)

  get-put_some :
      (s : Session A) (key : String) (o : Option String) (j : String)
      → Dict.get (put_some s key o) j
        ≡ (if key == j then option_or (as_text o) (Dict.get s j) else Dict.get s j)
  unfolding put_some
  get-put_some s key none j = ground arith
  get-put_some s key (some v) j = Dict.get-put s key (text v) j

  module _ (p : PendingAuthState) (s : Session A) where
    get-id : Dict.get (write_pending p s) "pending_auth_id" ≡ some (text p.pending_auth_id)
    unfolding write_pending
    get-id = simp (Dict.get-put, get-put_some)

    get-method : Dict.get (write_pending p s) "pending_auth_method" ≡ some (text p.method_key)
    unfolding write_pending
    get-method = simp (Dict.get-put, get-put_some)

    get-method_type :
        Dict.get (write_pending p s) "pending_auth_method_type" ≡ some (text p.method_type)
    unfolding write_pending
    get-method_type = simp (Dict.get-put, get-put_some)

    get-stage : Dict.get (write_pending p s) "pending_auth_stage" ≡ some (text p.stage)
    unfolding write_pending
    get-stage = simp (Dict.get-put, get-put_some)

    get-expires_at :
        Dict.get (write_pending p s) "pending_auth_expires_at" ≡ some (number p.expires_at)
    unfolding write_pending
    get-expires_at = simp (Dict.get-put, get-put_some)

    get-is_new_user :
        Dict.get (write_pending p s) "pending_auth_is_new_user" ≡ some (flag p.is_new_user)
    unfolding write_pending
    get-is_new_user = simp (Dict.get-put)

    get-user_id :
        Dict.get (write_pending p s) "pending_auth_user_id"
        ≡ option_or (as_text p.user_id) (Dict.get s "pending_auth_user_id")
    unfolding write_pending
    get-user_id = simp (Dict.get-put, get-put_some)

    get-subject_id :
        Dict.get (write_pending p s) "pending_auth_subject_id"
        ≡ option_or (as_text p.subject_id) (Dict.get s "pending_auth_subject_id")
    unfolding write_pending
    get-subject_id = simp (Dict.get-put, get-put_some)

    get-email :
        Dict.get (write_pending p s) "pending_auth_email"
        ≡ option_or (as_text p.email) (Dict.get s "pending_auth_email")
    unfolding write_pending
    get-email = simp (Dict.get-put, get-put_some)

    get-name :
        Dict.get (write_pending p s) "pending_auth_name"
        ≡ option_or (as_text p.name) (Dict.get s "pending_auth_name")
    unfolding write_pending
    get-name = simp (Dict.get-put, get-put_some)

module _ {A : Type 0} (py : Conversions A) where
  optional_text-or :
      (s t : Session A) (key : String) (o : Option String)
      → Dict.get t key ≡ option_or (as_text o) (Dict.get s key)
      → optional_text py t key ≡ option_or o (optional_text py s key)
  optional_text-or s t key none e = rw (e, optional_text, fetch) refl
  optional_text-or s t key (some v) e = rw (e, optional_text, fetch) refl

  required_text-some :
      (t : Session A) (key v : String)
      → Dict.get t key ≡ some (text v)
      → (v == "") ≡ false
      → required_text py t key ≡ some v
  required_text-some t key v e ne = rw (e, required_text, ne) refl

  -- The state that a session holds after a sign-in has begun: what the call does not give is what
  -- the session held before.
  abbrev pub stored_state : Session A → PendingAuthState → PendingAuthState
  stored_state s p = record p {
    user_id = option_or p.user_id (optional_text py s "pending_auth_user_id");
    subject_id = option_or p.subject_id (optional_text py s "pending_auth_subject_id");
    email = option_or p.email (optional_text py s "pending_auth_email");
    name = option_or p.name (optional_text py s "pending_auth_name");
  }

  assemble-written :
      (s : Session A) (p : PendingAuthState)
      → assemble py
          (write_pending p s)
          p.pending_auth_id
          p.method_key
          p.method_type
          p.stage
          p.expires_at
        ≡ stored_state s p
  unfolding assemble
  assemble-written s p =
      rw
        (
          optional_text-or s (write_pending p s) "pending_auth_user_id" p.user_id (get-user_id p s),
          optional_text-or s (write_pending p s) "pending_auth_subject_id" p.subject_id
              (get-subject_id p s),
          optional_text-or s (write_pending p s) "pending_auth_email" p.email (get-email p s),
          optional_text-or s (write_pending p s) "pending_auth_name" p.name (get-name p s),
        )
        (rw (get-is_new_user p s, stored_flag) refl)

  read_pending-written :
      (s : Session A) (p : PendingAuthState) (later : ℕ)
      → All
          (λ v. (v == "") ≡ false)
          (p.pending_auth_id ∷ p.method_key ∷ p.method_type ∷ p.stage ∷ [])
      → get_pending_authentication py (write_pending p s) later
        ≡ unless_expired py (write_pending p s) (stored_state s p) later
  unfolding get_pending_authentication
  read_pending-written s p later h =
      let t = write_pending p s in
      rw
        (
          required_text-some t "pending_auth_id" p.pending_auth_id (get-id p s) h.0,
          required_text-some t "pending_auth_method" p.method_key (get-method p s) h.1.0,
          required_text-some t "pending_auth_method_type" p.method_type (get-method_type p s)
              h.1.1.0,
          required_text-some t "pending_auth_stage" p.stage (get-stage p s) h.1.1.1.0,
          get-expires_at p s,
        )
        (rw (assemble-written s p) refl)

  -- Let a sign-in begin with a method, its type, a stage and an id that are not empty, and be read
  -- at a time before it expires. Then the session is unchanged by the read, and the state that is
  -- read is the one that the call returned, but that a user id, subject, email or name that the
  -- call left out is the one that the session held before, if it held one.
  pub get-begin_pending :
      (s : Session A) (b : BeginArguments) (id : String) (now later : ℕ)
      → All (λ v. (v == "") ≡ false) (id ∷ b.method_key ∷ b.method_type ∷ b.stage ∷ [])
      → later < now + b.ttl_seconds
      → get_pending_authentication py (begin_pending_authentication s b id now).0 later ≡ (
        (begin_pending_authentication s b id now).0,
        ok (some (stored_state s (begin_pending_authentication s b id now).1)),
      )
  unfolding begin_pending_authentication unless_expired
  get-begin_pending s b id now later h early =
      read_pending-written s (begun b id now) later h ∙ ground arith
