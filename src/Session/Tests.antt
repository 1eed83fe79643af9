-- ===== src/Session/Tests.antt =====
-- Sessions with a few keys, and the theorems about sign-in and idle timeouts at them.
use skrift.Session.Complete.{promote_found}
use skrift.Prelude.{
  ℕ, ◌+◌, ◌≤◌, ◌<◌, String, ◌≡◌, refl, ◌⊎◌, true, false, Option, none, some, [], ◌∷◌, arith, ◌==◌,
  ℕ_beq, string_beq, if◌then◌else◌, is_some, ok, any, All,
}
use skrift.Prelude.Dict
use skrift.Session.{SessionValue, text, number, Session, Conversions, fetch}
use skrift.Session.Pending.{
  PendingAuthState, BeginArguments, begun, begin_pending_authentication, get_pending_authentication,
}
use skrift.Session.RoundTrip.{stored_state, get-begin_pending}
use skrift.Session.Complete.{User, complete_pending_authentication}
use skrift.Session.Signed.{carried_keys, signed_in_keys, complete-finalized}
use skrift.Session.Expiry.{IsRead, get_pending-IsRead}
use skrift.Session.Idle.{stamp_interval, last_seen, evict, check_idle}
use skrift.Session.Active.{
  IsStamped, IsSameBut, after_requests, active_session-kept, short_timeout-unrefreshed,
  idle_session-evicted,
}

abbrev py : Conversions ℕ
py = record {
  number_text = λ n. "0";
  flag_text = λ b. if b then "True" else "False";
  other_text = λ n. "other";
  other_truth = λ n. true;
  text_number = λ s. none;
  other_number = λ n. none;
  other_real = λ n. none;
}

abbrev arguments : BeginArguments
arguments = record {
  method_key = "github";
  method_type = "oauth";
  identity = none;
  user_id = none;
  is_new_user = false;
  stage = "second_factor";
  ttl_seconds = 600;
}

-- A session that a sign-in of another user was begun in.
abbrev stale : Session ℕ
stale = ("pending_auth_user_id", text "u7") ∷ ("flash", text "hello") ∷ []

get-begin_pending_example :
    get_pending_authentication py (begin_pending_authentication stale arguments "p1" 1_000).0 1_599
    ≡ (
      (begin_pending_authentication stale arguments "p1" 1_000).0,
      ok (some (stored_state py stale (begin_pending_authentication stale arguments "p1" 1_000).1)),
    )
get-begin_pending_example =
    get-begin_pending py stale arguments "p1" 1_000 1_599 (refl, (refl, (refl, (refl, tt))))
      (omega arith)

-- The stale user id is read back.
stale_user_id : (stored_state py stale (begun arguments "p1" 1_000)).user_id ≡ some "u7"
unfolding Dict.get
stale_user_id = refl

get_pending-IsRead_example :
    IsRead py (begin_pending_authentication stale arguments "p1" 1_000).0 1_601 (
      get_pending_authentication py
        (begin_pending_authentication stale arguments "p1" 1_000).0
        1_601)
get_pending-IsRead_example =
    get_pending-IsRead py (begin_pending_authentication stale arguments "p1" 1_000).0 1_601

abbrev user : User
user = record { id = "u1"; name = some "Ann"; email = none; picture_url = none }

abbrev given : PendingAuthState
given = begun arguments "p1" 1_000

completed : (complete_pending_authentication py stale user (some given) "t" (λ n. 1_100)).1 ≡ ok tt
unfolding complete_pending_authentication promote_found
completed = refl

complete-finalized_example :
    let s' = (complete_pending_authentication py stale user (some given) "t" (λ n. 1_100)).0 in
    (Dict.get s' "user_id" ≡ some (text "u1"))
    × (Dict.get s' "_csrf_token" ≡ some (text "t"))
    × All (λ k. Dict.get s' k ≡ fetch stale k) carried_keys
    × ((key : String) → any (λ k. k == key) signed_in_keys ≡ false → Dict.get s' key ≡ none)
    × ((now : ℕ) → get_pending_authentication py s' now ≡ (s', ok none))
complete-finalized_example =
    complete-finalized py stale user (some given) "t" (λ n. 1_100) completed

abbrev message : Option (SessionValue ℕ) → SessionValue ℕ
message found = text "signed out"

abbrev signed_in : Session ℕ
signed_in = ("user_id", text "u1") ∷ ("idle_last_seen", number 1_000) ∷ []

signed_in-IsStamped :
    (timeout now : ℕ)
    → 1_000 ≤ now
    → now < 1_000 + stamp_interval timeout
    → IsStamped py timeout signed_in now
unfolding Dict.get
signed_in-IsStamped timeout now past recent = (refl, 1_000, refl, past, recent)

has_user : is_some (Dict.get signed_in "user_id") ≡ true
unfolding Dict.get
has_user = refl

active_session-kept_example :
    (s' : Session ℕ) × (after_requests py message 3_600
        (some signed_in)
        (1_100 ∷ 4_000 ∷ 7_400 ∷ [])
      ≡ some s')
    × IsStamped py 3_600 s' 7_400
    × IsSameBut "idle_last_seen" signed_in s'
active_session-kept_example =
    active_session-kept py message 3_600 signed_in 1_000 (1_100 ∷ 4_000 ∷ 7_400 ∷ []) (omega arith)
      (signed_in-IsStamped 3_600 1_000 (omega arith) (omega arith))
      (omega arith, omega arith, (omega arith, omega arith, (omega arith, omega arith, tt)))

short_timeout-unrefreshed_example :
    (after_requests py message 30 (some signed_in) (1_010 ∷ 1_020 ∷ 1_031 ∷ []) ≡ some signed_in)
    ⊎ (after_requests py message 30 (some signed_in) (1_010 ∷ 1_020 ∷ 1_031 ∷ [])
        ≡ some (evict py message signed_in))
short_timeout-unrefreshed_example =
    short_timeout-unrefreshed py message 30 signed_in (1_010 ∷ 1_020 ∷ 1_031 ∷ []) (omega arith)
      (omega arith) has_user

-- Requests every ten seconds, and the session is lost.
busy_session :
    after_requests py message 30 (some signed_in) (1_010 ∷ 1_020 ∷ 1_031 ∷ [])
    ≡ some (evict py message signed_in)
unfolding after_requests check_idle Dict.get
busy_session = refl

old_stamp : (seen : ℕ) → last_seen py signed_in ≡ some seen → seen + 3_600 < 5_000
unfolding Dict.get
old_stamp seen e = ground arith

idle_session-evicted_example :
    (s' : Session ℕ) × (after_requests py message 3_600 (some signed_in) (5_000 ∷ 5_001 ∷ [])
      ≡ some s')
    × ((key : String)
        → Dict.get s' key ≡ (
            if "flash_messages" == key
            then some (message (Dict.get signed_in "flash_messages"))
            else none))
idle_session-evicted_example =
    idle_session-evicted py message 3_600 signed_in 5_000 (5_001 ∷ []) (omega arith) has_user
      old_stamp
