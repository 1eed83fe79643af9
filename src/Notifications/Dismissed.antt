-- ===== src/Notifications/Dismissed.antt =====
-- What a subscriber has dismissed is not shown to them again.
use skrift.Notifications.Sending.{dismissed}
use skrift.Prelude.{
  ℕ, String, ◌≡◌, refl, ap, ◌∙◌, inl, inr, Bool, true, false, Option, none, some, List, [], ◌∷◌,
  map, arith, ◌==◌, ==_iff, ==_refl, ℕ_beq, string_beq, Bool-cases, Option-cases, is_some, Result,
  ok, raise, contains, contains-filter_eq, filter,
}
use skrift.Notifications.{under}
use skrift.Notifications.Mirror.{under-add_under}
use skrift.Notifications.Backend.{Notification, store, get_mode}
use skrift.Notifications.Retention.{source_of, dismiss_for_subscriber}
use skrift.Notifications.Service.{
  present, subscriber_key_for, NotificationService, undismissed, get_queued,
}
use skrift.Notifications.Sending.{
  DismissError, not_dismissible, mark_dismissed, announce_dismissed, push_to_user, found_id,
  dismiss, is_timeseries_mode,
}

module _ {A : Type 0} where
  abbrev pub ids_of : List (Notification A) → List ℕ
  ids_of ns = map (λ (n : Notification A). n.id) ns

  filter_hides :
      (p : Notification A → Bool) (id : ℕ) (ns : List (Notification A))
      → ((n : Notification A) → (n.id == id) ≡ true → p n ≡ false)
      → contains (ids_of (filter p ns)) id ≡ false
  filter_hides p id [] h = refl
  filter_hides p id (n ∷ ns) h = elim (Bool-cases (n.id == id)) [
    | inl same ↦ rw (h n same) (filter_hides p id ns h)
    | inr other ↦ ground (arith, filter_hides p id ns h, other)
  ]

  filter_adds_none :
      (p : Notification A → Bool) (id : ℕ) (ns : List (Notification A))
      → contains (ids_of ns) id ≡ false
      → contains (ids_of (filter p ns)) id ≡ false
  filter_adds_none p id [] h = refl
  filter_adds_none p id (n ∷ ns) h = ground (arith, filter_adds_none p id ns, h)

  undismissed_hides :
      (service : NotificationService A) (subscriber : String) (results : List (Notification A))
      (id : ℕ)
      → contains (under service.backend.dismissed subscriber) id ≡ true
      → contains (ids_of (undismissed service subscriber results)) id ≡ false
  undismissed_hides service subscriber results id h =
      elim (Bool-cases (contains (ids_of results) id)) [
        | inl listed ↦ filter_hides _ id results λ n same.
            let e : n.id ≡ id = (==_iff n.id id).0 same in
            let hidden =
              contains-filter_eq (contains (ids_of results))
                (under service.backend.dismissed subscriber) id in
            rw e (rw hidden (rw (h, listed) refl))
        | inr unlisted ↦ filter_adds_none _ id results unlisted
      ]

  push_to_user-dismissed :
      (service : NotificationService A) (user_id : Option String) (n : Notification A)
      → (push_to_user service user_id n).backend.dismissed ≡ service.backend.dismissed
  push_to_user-dismissed service none n = refl
  push_to_user-dismissed service (some user_id) n = refl

  mark-under :
      (service : NotificationService A) (subscriber : String) (id : ℕ) (key : String)
      → (mark_dismissed service subscriber id).1 ≡ some key
      → contains (under (mark_dismissed service subscriber id).0.backend.dismissed subscriber) id
        ≡ true
  unfolding dismiss_for_subscriber
  mark-under service subscriber id key e =
      elim (Option-cases (source_of service.backend.queues id)) [
        | inl missing ↦
            let bad : ◌≡◌ {A = Option String} none (some key) =
              rw (missing, dismiss_for_subscriber) at e in
            ground arith
        | inr (source, there) ↦
            rw (there, dismiss_for_subscriber)
              (under-add_under service.backend.dismissed subscriber id subscriber id
                ∙ ground (arith, ==_refl subscriber, ==_refl id))
      ]

module _ {A : Type 0} (payload : ℕ → A) where
  announce-dismissed :
      (service : NotificationService A) (nid : String) (user_id : Option String) (found : Option ℕ)
      (fresh now : ℕ)
      → (announce_dismissed payload service nid user_id found fresh now).0.backend.dismissed
        ≡ service.backend.dismissed
  unfolding store
  announce-dismissed service nid user_id none fresh now = refl
  announce-dismissed service nid user_id (some id) fresh now =
      push_to_user-dismissed _ (present user_id) (dismissed payload id fresh now)

  announced_found :
      (service : NotificationService A) (nid : String) (user_id : Option String) (found : Option ℕ)
      (fresh now : ℕ)
      → (announce_dismissed payload service nid user_id found fresh now).1 ≡ is_some found
  announced_found service nid user_id none fresh now = refl
  announced_found service nid user_id (some id) fresh now = refl

  announced_hides :
      (service : NotificationService A) (nid : String) (user_id : Option String) (found : Option ℕ)
      (fresh now id : ℕ)
      → contains (under service.backend.dismissed (subscriber_key_for nid user_id)) id ≡ true
      → contains
          (ids_of (
            get_queued
              (announce_dismissed payload service nid user_id found fresh now).0
              nid
              user_id))
          id
        ≡ false
  unfolding get_queued
  announced_hides service nid user_id found fresh now id h =
      undismissed_hides (announce_dismissed payload service nid user_id found fresh now).0
        (subscriber_key_for nid user_id) _ id
        (ap (λ dismissals. contains (under dismissals (subscriber_key_for nid user_id)) id)
            (announce-dismissed service nid user_id found fresh now)
          ∙ h)

  -- Let the dismissal of a notification by its id report success. Then the subscriber's queued
  -- notifications, as they are read after it, have none with that id.
  pub dismiss-get_queued :
      (service : NotificationService A) (nid : String) (user_id : Option String) (id : ℕ)
      (group : Option String) (fresh now : ℕ)
      → (dismiss payload service nid user_id (some id) group fresh now).1 ≡ ok true
      → contains
          (ids_of (
            get_queued
              (dismiss payload service nid user_id (some id) group fresh now).0
              nid
              user_id))
          id
        ≡ false
  unfolding get_queued dismiss
  dismiss-get_queued service nid user_id id group fresh now found =
      elim (Bool-cases (is_timeseries_mode (get_mode service.backend id))) [
        | inl timeless ↦
            let bad : ◌≡◌ {A = Result DismissError Bool} (raise not_dismissible) (ok true) =
              rw (timeless, dismiss) at found in
            ground arith
        | inr queueing ↦
            elim (Option-cases (mark_dismissed service (subscriber_key_for nid user_id) id).1) [
              | inl e ↦
                  let bad : ◌≡◌ {A = Result DismissError Bool} (ok false) (ok true) =
                    rw (queueing, e, dismiss) at found in
                  ground arith
              | inr (key, e) ↦
                  rw (queueing, dismiss)
                    (announced_hides _ nid user_id
                      (found_id id (mark_dismissed service (subscriber_key_for nid user_id) id).1)
                      fresh now id (mark-under service (subscriber_key_for nid user_id) id key e))
            ]
      ]
