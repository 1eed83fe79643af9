-- ===== src/Session/Active.antt =====
-- Runs of requests against the idle timeout of skrift/middleware/session_idle.py.
use skrift.Prelude.{
  if◌then◌else◌, ℕ, ◌+◌, ◌-◌, ◌≤◌, ◌<◌, String, ◌≡◌, refl, ◌∙◌, ◌⊎◌, inl, inr, true, false, Option,
  none, some, List, [], ◌∷◌, arith, ◌==◌, ℕ_beq, string_beq, ltb, leb, lt→ltb, ltb→le, leb→lt,
  Bool-cases, is_some,
}
use skrift.Prelude.Dict
use skrift.Session.{SessionValue, number, Session, Conversions}
use skrift.Session.Idle.{stamp_interval, last_seen, evict, refresh, check_idle}

-- Each request comes no earlier than the one before, and at most `gap` seconds after it.
abbrev pub IsSteady : ℕ → ℕ → List ℕ → Type 0
IsSteady gap last [] = Unit
IsSteady gap last (t ∷ times) = (last ≤ t) × (t ≤ last + gap) × IsSteady gap t times

abbrev pub last_of : ℕ → List ℕ → ℕ
last_of last [] = last
last_of last (t ∷ times) = last_of t times

ltb_of_le : (a b : ℕ) → b ≤ a → ltb a b ≡ false
ltb_of_le a b h = ground arith

stamp_interval-pos : (idle_timeout : ℕ) → 0 < stamp_interval idle_timeout
stamp_interval-pos idle_timeout = ground arith

leb_of_lt : (a b : ℕ) → b < a → leb a b ≡ false
leb_of_lt a b h = ground arith

module _ {A : Type 0} where
  abbrev pub IsSameBut : String → Session A → Session A → Type 0
  IsSameBut stamp s s' = (key : String) → (stamp == key) ≡ false → Dict.get s' key ≡ Dict.get s key

  -- A signed-in session that was stamped less than one interval ago.
  abbrev pub IsStamped : Conversions A → ℕ → Session A → ℕ → Type 0
  IsStamped py idle_timeout s now =
      (is_some (Dict.get s "user_id") ≡ true)
      × (seen : ℕ) × (last_seen py s ≡ some seen)
      × (seen ≤ now)
      × (now < seen + stamp_interval idle_timeout)

module _ {A : Type 0} (py : Conversions A) where
  put-IsStamped :
      (idle_timeout : ℕ) (s : Session A) (last now : ℕ)
      → IsStamped py idle_timeout s last
      → IsStamped py idle_timeout (Dict.put s "idle_last_seen" (number now)) now
  put-IsStamped idle_timeout s last now h = (
    rw (Dict.get-put s "idle_last_seen" (number now) "user_id") h.0,
    now,
    rw (Dict.get-put_self s "idle_last_seen" (number now), last_seen) refl,
    omega arith,
    omega (arith, stamp_interval-pos idle_timeout),
  )

module _ {A : Type 0} (py : Conversions A)
    (with_message : Option (SessionValue A) → SessionValue A) where
  -- The session after requests at these times.
  unfoldable pub after_requests : ℕ → Option (Session A) → List ℕ → Option (Session A)
  after_requests idle_timeout session [] = session
  after_requests idle_timeout session (now ∷ times) =
      after_requests idle_timeout (check_idle py with_message idle_timeout "http" session now) times

  check_signed_in :
      (idle_timeout : ℕ) (s : Session A) (now : ℕ)
      → 0 < idle_timeout
      → is_some (Dict.get s "user_id") ≡ true
      → check_idle py with_message idle_timeout "http" (some s) now
        ≡ some (refresh py with_message idle_timeout s (last_seen py s) now)
  unfolding check_idle
  check_signed_in idle_timeout s now pos user = rw user (ground arith)

  check_idle-IsStamped :
      (idle_timeout : ℕ) (s : Session A) (last now : ℕ)
      → stamp_interval idle_timeout ≤ idle_timeout
      → IsStamped py idle_timeout s last
      → last ≤ now
      → now ≤ last + (idle_timeout - stamp_interval idle_timeout)
      → (s' : Session A) × (check_idle py with_message idle_timeout "http" (some s) now ≡ some s')
        × IsStamped py idle_timeout s' now
        × IsSameBut "idle_last_seen" s s'
  unfolding refresh
  check_idle-IsStamped idle_timeout s last now long h after near =
      let (user, seen, stamp, past, recent) = h in
      let kept : ltb (seen + idle_timeout) now ≡ false =
        ltb_of_le (seen + idle_timeout) now (omega arith) in
      let e =
        check_signed_in idle_timeout s now (omega (arith, stamp_interval-pos idle_timeout)) user in
      elim (Bool-cases (leb (seen + stamp_interval idle_timeout) now)) [
        | inl due ↦
            let s' = Dict.put s "idle_last_seen" (number now) in
            (
              s',
              e ∙ rw (stamp, kept, due) refl,
              put-IsStamped py idle_timeout s last now h,
              λ key other. Dict.get-put s "idle_last_seen" (number now) key ∙ rw other refl,
            )
        | inr fresh ↦ (
          s,
          e ∙ rw (stamp, kept, fresh) refl,
          (user, seen, stamp, omega arith, leb→lt _ _ fresh),
          λ key other. refl,
        )
      ]

  -- Let a session be signed in and have been stamped less than one stamp interval before the time
  -- `last`, let an interval be no longer than the timeout, and let requests come in order, none
  -- more than the timeout less one interval after the one before. Then the session after all of
  -- them is still signed in and was stamped less than one interval before the last request, and
  -- what it holds under every other key is as before.
  pub active_session-kept :
      (idle_timeout : ℕ) (s : Session A) (last : ℕ) (times : List ℕ)
      → stamp_interval idle_timeout ≤ idle_timeout
      → IsStamped py idle_timeout s last
      → IsSteady (idle_timeout - stamp_interval idle_timeout) last times
      → (s' : Session A) × (after_requests idle_timeout (some s) times ≡ some s')
        × IsStamped py idle_timeout s' (last_of last times)
        × IsSameBut "idle_last_seen" s s'
  unfolding after_requests
  active_session-kept idle_timeout s last [] long h steady = (s, refl, h, λ key other. refl)
  active_session-kept idle_timeout s last (t ∷ times) long h (after, near, steady) =
      let (s', e, h', same) = check_idle-IsStamped idle_timeout s last t long h after near in
      let (s'', e', h'', same') = active_session-kept idle_timeout s' t times long h' steady in
      (s'', rw e e', h'', λ key other. same' key other ∙ same key other)

  unrefreshed :
      (idle_timeout : ℕ) (s : Session A) (stamp : Option ℕ) (now : ℕ)
      → idle_timeout < stamp_interval idle_timeout
      → (refresh py with_message idle_timeout s stamp now ≡ s)
        ⊎ (refresh py with_message idle_timeout s stamp now ≡ evict py with_message s)
  unfolding refresh
  unrefreshed idle_timeout s none now short = inr refl
  unrefreshed idle_timeout s (some seen) now short =
      elim (Bool-cases (ltb (seen + idle_timeout) now)) [
        | inl old ↦ inr (rw old refl)
        | inr recent ↦ inl (
            rw
              (
                recent,
                leb_of_lt (seen + stamp_interval idle_timeout) now
                    (omega (arith, ltb→le (seen + idle_timeout) now recent)),
              )
              refl)
      ]

  too_old :
      (idle_timeout : ℕ) (s : Session A) (stamp : Option ℕ) (now : ℕ)
      → ((seen : ℕ) → stamp ≡ some seen → seen + idle_timeout < now)
      → refresh py with_message idle_timeout s stamp now ≡ evict py with_message s
  unfolding refresh
  too_old idle_timeout s none now old = refl
  too_old idle_timeout s (some seen) now old = rw (lt→ltb _ _ (old seen refl)) refl

  check_evicted :
      (idle_timeout : ℕ) (s : Session A) (now : ℕ)
      → check_idle py with_message idle_timeout "http" (some (evict py with_message s)) now
        ≡ some (evict py with_message s)
  unfolding check_idle evict Dict.get
  check_evicted idle_timeout s now = ground arith

  evict-stays :
      (idle_timeout : ℕ) (s : Session A) (times : List ℕ)
      → after_requests idle_timeout (some (evict py with_message s)) times
        ≡ some (evict py with_message s)
  unfolding after_requests
  evict-stays idle_timeout s [] = refl
  evict-stays idle_timeout s (t ∷ times) =
      rw (check_evicted idle_timeout s t) (evict-stays idle_timeout s times)

  -- Under a timeout shorter than the interval between two stamps, requests never renew a
  -- session's stamp: after requests at any times, a signed-in session is as it was before them, or
  -- it was replaced by the sign-out message.
  pub short_timeout-unrefreshed :
      (idle_timeout : ℕ) (s : Session A) (times : List ℕ)
      → 0 < idle_timeout
      → idle_timeout < stamp_interval idle_timeout
      → is_some (Dict.get s "user_id") ≡ true
      → (after_requests idle_timeout (some s) times ≡ some s)
        ⊎ (after_requests idle_timeout (some s) times ≡ some (evict py with_message s))
  unfolding after_requests
  short_timeout-unrefreshed idle_timeout s [] pos short user = inl refl
  short_timeout-unrefreshed idle_timeout s (t ∷ times) pos short user =
      elim (unrefreshed idle_timeout s (last_seen py s) t short) [
        | inl same ↦
            rw (check_signed_in idle_timeout s t pos user, same)
              (short_timeout-unrefreshed idle_timeout s times pos short user)
        | inr evicted ↦ inr (
            rw (check_signed_in idle_timeout s t pos user, evicted)
              (evict-stays idle_timeout s times))
      ]

  -- A signed-in session that has no stamp, or one older than the timeout at the time of a request,
  -- holds after that request its flash messages with the sign-out message put to them, and
  -- nothing under any other key; further requests at any times, if nothing else writes to the
  -- session, leave it so.
  pub idle_session-evicted :
      (idle_timeout : ℕ) (s : Session A) (now : ℕ) (times : List ℕ)
      → 0 < idle_timeout
      → is_some (Dict.get s "user_id") ≡ true
      → ((seen : ℕ) → last_seen py s ≡ some seen → seen + idle_timeout < now)
      → (s' : Session A) × (after_requests idle_timeout (some s) (now ∷ times) ≡ some s')
        × ((key : String)
            → Dict.get s' key ≡ (
                if "flash_messages" == key
                then some (with_message (Dict.get s "flash_messages"))
                else none))
  unfolding after_requests evict Dict.get
  idle_session-evicted idle_timeout s now times pos user old = (
    evict py with_message s,
    rw
        (
          check_signed_in idle_timeout s now pos user,
          too_old idle_timeout s (last_seen py s) now old,
        )
        (evict-stays idle_timeout s times),
    λ key. refl,
  )
