-- ===== src/Session/Expiry.antt =====
-- What a read of a pending sign-in finds and leaves, its expiry included.
use skrift.Prelude.{◌&&◌}
use skrift.Session.{fetch}
use skrift.Prelude.{◌≤◌}
use skrift.Prelude.{leb→le}
use skrift.Prelude.{is_some}
use skrift.Prelude.{Bool}
use skrift.Prelude.{
  ℕ, ◌<◌, String, ◌≡◌, refl, ◌∙◌, ◌⊎◌, inl, inr, true, false, Option, none, some, ◌==◌, ℕ_beq,
  string_beq, leb, leb→lt, Bool-cases, Option-cases, Result, ok, raise, any,
}
use skrift.Prelude.Dict
use skrift.Session.{
  SessionValue, Session, Conversions, SessionError, not_a_number, pending_auth_session_keys, int,
}
use skrift.Session.Pending.{
  PendingAuthState, clear_pending_authentication, required_text, read_pending, unless_expired,
  assemble, get_pending_authentication,
}
use skrift.Session.Signed.{get-clear_keys}

module _ {A : Type 0} where
  -- No pending key holds anything.
  abbrev pub HasNoPending : Session A → Type 0
  HasNoPending s =
      (key : String) → any (λ k. k == key) pending_auth_session_keys ≡ true → Dict.get s key ≡ none

  abbrev pub IsSameElsewhere : Session A → Session A → Type 0
  IsSameElsewhere s s' =
      (key : String)
      → any (λ k. k == key) pending_auth_session_keys ≡ false
      → Dict.get s' key ≡ Dict.get s key

  clear-HasNoPending : (s : Session A) → HasNoPending (clear_pending_authentication s)
  clear-HasNoPending s key h = get-clear_keys pending_auth_session_keys s key ∙ rw h refl

  clear-IsSameElsewhere : (s : Session A) → IsSameElsewhere s (clear_pending_authentication s)
  clear-IsSameElsewhere s key h = get-clear_keys pending_auth_session_keys s key ∙ rw h refl

module _ {A : Type 0} (py : Conversions A) where
  -- The four texts that a pending sign-in needs.
  abbrev pub has_required : Session A → Bool
  has_required s =
      is_some (required_text py s "pending_auth_id")
      && is_some (required_text py s "pending_auth_method")
      && is_some (required_text py s "pending_auth_method_type")
      && is_some (required_text py s "pending_auth_stage")

  -- What is read where the expiry is a number, or none.
  abbrev pub IsReadUntil :
      Option ℕ → Session A → ℕ → Session A × Result SessionError (Option PendingAuthState) → Type 0
  IsReadUntil none s now r = r ≡ (s, raise not_a_number)
  IsReadUntil (some expires_at) s now r =
      ((expires_at ≤ now) × (r.1 ≡ ok none) × HasNoPending r.0 × IsSameElsewhere s r.0)
      ⊎ ((now < expires_at)
          × ((p : PendingAuthState) × (r ≡ (s, ok (some p))) × (p.expires_at ≡ expires_at)))

  -- What is read of the texts that are there or not, and of the value of the expiry.
  abbrev pub IsReadOf :
      Bool
      → Option (SessionValue A)
      → Session A
      → ℕ
      → Session A × Result SessionError (Option PendingAuthState)
      → Type 0
  IsReadOf complete found s now r =
      (((complete ≡ false) ⊎ (found ≡ none)) × (r ≡ (s, ok none)))
      ⊎ ((complete ≡ true)
          × ((v : SessionValue A) × (found ≡ some v) × IsReadUntil (int py v) s now r))

  abbrev pub IsRead :
      Session A → ℕ → Session A × Result SessionError (Option PendingAuthState) → Type 0
  IsRead s now r = IsReadOf (has_required s) (fetch s "pending_auth_expires_at") s now r

  unless_expired-IsReadUntil :
      (s : Session A) (p : PendingAuthState) (now : ℕ)
      → IsReadUntil (some p.expires_at) s now (unless_expired py s p now)
  unfolding unless_expired
  unless_expired-IsReadUntil s p now = elim (Bool-cases (leb p.expires_at now)) [
    | inl expired ↦
        rw expired (
          inl
            (leb→le p.expires_at now expired, refl, clear-HasNoPending s, clear-IsSameElsewhere s))
    | inr valid ↦ rw valid (inr (leb→lt _ _ valid, (p, refl, refl)))
  ]

  read_pending-IsReadUntil :
      (s : Session A) (i m t g : String) (v : SessionValue A) (now : ℕ)
      → IsReadUntil
          (int py v)
          s
          now
          (read_pending py s (some i) (some m) (some t) (some g) (some v) now)
  unfolding read_pending assemble
  read_pending-IsReadUntil s i m t g v now = elim (Option-cases (int py v)) [
    | inl e ↦ rw (e, read_pending) refl
    | inr (n, e) ↦ rw (e, read_pending) (unless_expired-IsReadUntil s (assemble py s i m t g n) now)
  ]

  read_pending-IsReadOf :
      (s : Session A) (i m t g : Option String) (v : Option (SessionValue A)) (now : ℕ)
      → IsReadOf
          (is_some i && is_some m && is_some t && is_some g)
          v
          s
          now
          (read_pending py s i m t g v now)
  unfolding read_pending
  read_pending-IsReadOf s none m t g v now = inl (inl refl, refl)
  read_pending-IsReadOf s (some i) none t g v now = inl (inl refl, refl)
  read_pending-IsReadOf s (some i) (some m) none g v now = inl (inl refl, refl)
  read_pending-IsReadOf s (some i) (some m) (some t) none v now = inl (inl refl, refl)
  read_pending-IsReadOf s (some i) (some m) (some t) (some g) none now = inl (inr refl, refl)
  read_pending-IsReadOf s (some i) (some m) (some t) (some g) (some v) now =
      inr (refl, (v, refl, read_pending-IsReadUntil s i m t g v now))

  -- Reading the pending sign-in of any session at any time, by what the session holds. If one of
  -- its four texts or its expiry is missing, the answer is none and the session stays as it is.
  -- If the expiry is no number, the read fails and the session stays. If the expiry is not after
  -- the time of the read, the answer is none, nothing is left under any of the keys of a pending
  -- sign-in, and every other key keeps its value. If it is after that time, a state with this
  -- expiry is returned and the session stays.
  pub get_pending-IsRead :
      (s : Session A) (now : ℕ) → IsRead s now (get_pending_authentication py s now)
  unfolding get_pending_authentication
  get_pending-IsRead s now =
      read_pending-IsReadOf s (required_text py s "pending_auth_id") _ _ _ _ now
