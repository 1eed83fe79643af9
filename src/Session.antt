-- ===== src/Session.antt =====
-- skrift/auth/session_service.py and skrift/middleware/session_idle.py: what a session holds while
-- a sign-in is pending, once it is complete, and when it has been idle for too long.
-- A session is a dictionary of values. The clock `int(time())` and the random ids are arguments.
pub mod Pending
pub mod Idle
pub mod RoundTrip
pub mod Complete
pub mod Signed
pub mod Active
pub mod Expiry
mod Tests
use skrift.Prelude.{
  ℕ, String, Bool, false, not, Option, none, some, List, [], ◌∷◌, ◌==◌, ℕ_beq, string_beq, eqb,
  if◌then◌else◌,
}
use skrift.Prelude.Dict
use skrift.Prelude.Dict.{Dict}

-- A value under a key: None, a text, a number, a truth value, or something else.
pub data SessionValue (A : Type 0) : Type 0 where
  null : SessionValue A
  text : String → SessionValue A
  number : ℕ → SessionValue A
  flag : Bool → SessionValue A
  other : A → SessionValue A

abbrev pub Session : Type 0 → Type 0
Session A = Dict String (SessionValue A)

abbrev pub not_null : {A : Type 0} → Option (SessionValue A) → Option (SessionValue A)
not_null none = none
not_null (some null) = none
not_null (some v) = some v

-- Python's `bool`, `str` and `int` of values, where the code does not fix them.
pub record Conversions (A : Type 0) : Type 0 where
  pub number_text : ℕ → String
  pub flag_text : Bool → String
  pub other_text : A → String
  pub other_truth : A → Bool
  pub text_number : String → Option ℕ
  pub other_number : A → Option ℕ
  pub other_real : A → Option ℕ

-- Why a call may raise: `int` of something that is no number, and the code's own exceptions.
pub data SessionError : Type 0 where
  not_a_number no_pending_authentication not_a_decision no_next_url : SessionError

module _ {A : Type 0} (py : Conversions A) where
  abbrev pub truth : SessionValue A → Bool
  truth null = false
  truth (text s) = not (s == "")
  truth (number n) = not (eqb n 0)
  truth (flag b) = b
  truth (other a) = py.other_truth a

  abbrev pub str : SessionValue A → String
  str null = "None"
  str (text s) = s
  str (number n) = py.number_text n
  str (flag b) = py.flag_text b
  str (other a) = py.other_text a

  abbrev pub int : SessionValue A → Option ℕ
  int null = none
  int (text s) = py.text_number s
  int (number n) = some n
  int (flag b) = some (if b then 1 else 0)
  int (other a) = py.other_number a

  -- `int(v)` where `isinstance(v, (int, float))`
  abbrev pub real : SessionValue A → Option ℕ
  real null = none
  real (text s) = none
  real (number n) = some n
  real (flag b) = some (if b then 1 else 0)
  real (other a) = py.other_real a

-- `session.get(key)`, where None counts as missing
abbrev pub fetch : {A : Type 0} → Session A → String → Option (SessionValue A)
fetch session key = not_null (Dict.get session key)

-- The keys of a pending sign-in.
abbrev pub pending_auth_session_keys : List String
pending_auth_session_keys =
    "pending_auth_id" ∷ "pending_auth_user_id" ∷ "pending_auth_method" ∷ "pending_auth_method_type"
    ∷ "pending_auth_stage" ∷ "pending_auth_subject_id" ∷ "pending_auth_email" ∷ "pending_auth_name"
    ∷ "pending_auth_is_new_user" ∷ "pending_auth_expires_at" ∷ []
