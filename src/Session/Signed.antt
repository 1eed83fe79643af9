-- ===== src/Session/Signed.antt =====
-- What a session holds once a sign-in is complete.
use skrift.Session.{pending_auth_session_keys}
use skrift.Session.{SessionError}
use skrift.Session.Complete.{promote_found}
use skrift.Session.Pending.{unless_expired}
use skrift.Prelude.{
  ℕ, String, ◌≡◌, refl, ap, ◌∙◌, false, Option, none, some, List, [], ◌∷◌, arith, ◌==◌, ℕ_beq,
  string_beq, if◌then◌else◌, option_or, Result, ok, raise, any, All,
}
use skrift.Prelude.Dict
use skrift.Session.{SessionValue, text, Session, Conversions, fetch, not_null}
use skrift.Session.Pending.{
  PendingAuthState, clear_pending_authentication, clear_keys, required_text, read_pending,
  get_pending_authentication,
}
use skrift.Session.Complete.{
  User, keep_value, finalize_authenticated_session, promote, complete_pending_authentication,
}

-- The keys that a fresh session may have.
abbrev pub carried_keys : List String
carried_keys = "flash" ∷ "flash_messages" ∷ "_nid" ∷ "auth_next" ∷ []

abbrev pub signed_in_keys : List String
signed_in_keys =
    "user_id" ∷ "user_name" ∷ "user_email" ∷ "user_picture_url" ∷ "idle_last_seen" ∷ "_csrf_token"
    ∷ carried_keys

module _ {A : Type 0} where
  get-keep_value :
      (key : String) (o : Option (SessionValue A)) (s : Session A) (j : String)
      → Dict.get (keep_value key o s) j
        ≡ (if key == j then option_or o (Dict.get s j) else Dict.get s j)
  unfolding keep_value
  get-keep_value key none s j = ground arith
  get-keep_value key (some v) s j = Dict.get-put s key v j

  option_or-none : (o : Option (SessionValue A)) → option_or o none ≡ o
  option_or-none none = refl
  option_or-none (some v) = refl

  module _ (s : Session A) (user : User) (csrf_token : String) (now : ℕ) where
    get-user_id :
        Dict.get (finalize_authenticated_session s user csrf_token now) "user_id"
        ≡ some (text user.id)
    unfolding finalize_authenticated_session
    get-user_id = simp (Dict.get-put, get-keep_value)

    get-csrf_token :
        Dict.get (finalize_authenticated_session s user csrf_token now) "_csrf_token"
        ≡ some (text csrf_token)
    unfolding finalize_authenticated_session
    get-csrf_token = simp (Dict.get-put, get-keep_value)

    get-carried :
        All
          (λ k. Dict.get (finalize_authenticated_session s user csrf_token now) k ≡ fetch s k)
          carried_keys
    unfolding finalize_authenticated_session Dict.get
    get-carried = (
      simp (Dict.get-put, get-keep_value) (option_or-none (fetch s "flash")),
      (
        simp (Dict.get-put, get-keep_value) (option_or-none (fetch s "flash_messages")),
        (
          simp (Dict.get-put, get-keep_value) (option_or-none (fetch s "_nid")),
          (simp (Dict.get-put, get-keep_value) (option_or-none (fetch s "auth_next")), tt),
        ),
      ),
    )

    get_other :
        (key : String)
        → All (λ k. (k == key) ≡ false) signed_in_keys
        → Dict.get (finalize_authenticated_session s user csrf_token now) key ≡ none
    unfolding finalize_authenticated_session Dict.get
    get_other key (a, (b, (c, (d, (e, (f, (g, (h, (i, (j, _)))))))))) =
        simp (Dict.get-put, get-keep_value, a, b, c, d, e, f, g, h, i, j)

  pub get-clear_keys :
      (keys : List String) (s : Session A) (j : String)
      → Dict.get (clear_keys keys s) j ≡ (if any (λ key. key == j) keys then none else Dict.get s j)
  unfolding clear_keys
  get-clear_keys [] s j = refl
  get-clear_keys (key ∷ keys) s j =
      ground (arith, get-clear_keys keys (Dict.remove s key) j, Dict.get-remove s key j)

fetch-clear :
    {A : Type 0} (s : Session A) (key : String)
    → any (λ k. k == key) pending_auth_session_keys ≡ false
    → fetch (clear_pending_authentication s) key ≡ fetch s key
fetch-clear s key h = ap not_null (get-clear_keys pending_auth_session_keys s key ∙ rw h refl)

none_of :
    (key : String) (keys : List String)
    → any (λ k. k == key) keys ≡ false
    → All (λ k. (k == key) ≡ false) keys
none_of key [] h = tt
none_of key (k ∷ keys) h = ground (arith, none_of key keys)

module _ {A : Type 0} (py : Conversions A) where
  read_pending-keeps :
      (s : Session A) (i m t g : Option String) (v : Option (SessionValue A)) (now : ℕ)
      (p : PendingAuthState)
      → (read_pending py s i m t g v now).1 ≡ ok (some p)
      → (read_pending py s i m t g v now).0 ≡ s
  unfolding read_pending unless_expired
  read_pending-keeps s none m t g v now p e = ground arith
  read_pending-keeps s (some i) none t g v now p e = ground arith
  read_pending-keeps s (some i) (some m) none g v now p e = ground arith
  read_pending-keeps s (some i) (some m) (some t) none v now p e = ground arith
  read_pending-keeps s (some i) (some m) (some t) (some g) none now p e = ground arith
  read_pending-keeps s (some i) (some m) (some t) (some g) (some v) now p e = ground arith

  nothing_pending :
      (t : Session A) (now : ℕ)
      → Dict.get t "pending_auth_id" ≡ none
      → get_pending_authentication py t now ≡ (t, ok none)
  unfolding get_pending_authentication read_pending
  nothing_pending t now e = rw (e, required_text) refl

  promote_found-promotes :
      (found : Result SessionError (Option PendingAuthState)) (s s' : Session A) (user : User)
      (csrf_token : String) (now : ℕ)
      → ((p : PendingAuthState) → found ≡ ok (some p) → s' ≡ s)
      → (promote_found py s' found user csrf_token now).1 ≡ ok tt
      → (promote_found py s' found user csrf_token now).0 ≡ promote py s user csrf_token now
  unfolding promote_found
  promote_found-promotes (raise err) s s' user csrf_token now keeps e = ground arith
  promote_found-promotes (ok none) s s' user csrf_token now keeps e = ground arith
  promote_found-promotes (ok (some p)) s s' user csrf_token now keeps e = rw (keeps p refl) refl

  complete-promotes :
      (s : Session A) (user : User) (given : Option PendingAuthState) (csrf_token : String)
      (clock : ℕ → ℕ)
      → (complete_pending_authentication py s user given csrf_token clock).1 ≡ ok tt
      → (complete_pending_authentication py s user given csrf_token clock).0
        ≡ promote py s user csrf_token (clock 1)
  unfolding complete_pending_authentication get_pending_authentication promote_found
  complete-promotes s user (some p) csrf_token clock e = refl
  complete-promotes s user none csrf_token clock e =
      promote_found-promotes _ s _ user csrf_token (clock 1)
        (read_pending-keeps s _ _ _ _ _ (clock 0)) e

  -- Let the completion of a sign-in succeed. Then the session that is left holds the user's id and
  -- the new token, under each carried key what the session held there before (None counting as
  -- nothing), and nothing under a key that is not among those of a signed-in session; and no
  -- pending sign-in is found in it at any time.
  pub complete-finalized :
      (s : Session A) (user : User) (given : Option PendingAuthState) (csrf_token : String)
      (clock : ℕ → ℕ)
      → (complete_pending_authentication py s user given csrf_token clock).1 ≡ ok tt
      → let s' = (complete_pending_authentication py s user given csrf_token clock).0 in
        (Dict.get s' "user_id" ≡ some (text user.id))
        × (Dict.get s' "_csrf_token" ≡ some (text csrf_token))
        × All (λ k. Dict.get s' k ≡ fetch s k) carried_keys
        × ((key : String) → any (λ k. k == key) signed_in_keys ≡ false → Dict.get s' key ≡ none)
        × ((now : ℕ) → get_pending_authentication py s' now ≡ (s', ok none))
  complete-finalized s user given csrf_token clock e =
      let cleared = clear_pending_authentication s in
      let now = clock 1 in
      let other = get_other cleared user csrf_token now in
      let c = get-carried cleared user csrf_token now in
      rw (complete-promotes s user given csrf_token clock e) (
        get-user_id cleared user csrf_token now,
        get-csrf_token cleared user csrf_token now,
        (
          c.0 ∙ fetch-clear s "flash" refl,
          (
            c.1.0 ∙ fetch-clear s "flash_messages" refl,
            (c.1.1.0 ∙ fetch-clear s "_nid" refl, (c.1.1.1.0 ∙ fetch-clear s "auth_next" refl, tt)),
          ),
        ),
        λ key absent. other key (none_of key signed_in_keys absent),
        λ later.
            nothing_pending (finalize_authenticated_session cleared user csrf_token now) later
              (other "pending_auth_id" (none_of "pending_auth_id" signed_in_keys refl)),
      )
