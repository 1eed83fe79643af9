-- ===== src/Notifications/Sent.antt =====
-- What is sent is stored, and read back by those whom it concerns.
use skrift.Notifications.Service.{sent}
use skrift.Notifications.Service.{pushed}
use skrift.Notifications.Service.{publish}
use skrift.Prelude.{
  ℕ, String, ◌≡◌, refl, ap, ◌∙◌, true, false, Option, none, some, [], arith, ◌==◌, ℕ_beq,
  string_beq, contains,
}
use skrift.Prelude.Dict
use skrift.Notifications.{under}
use skrift.Notifications.Backend.{
  Notification, NotificationMode, queued, timeseries, ephemeral, is_queued, is_ephemeral,
  InMemoryBackend, queue_of, stored_of, dismiss_earlier, store, merge_queues, get_queued_multi,
}
use skrift.Notifications.Service.{
  subscriber_key_for, NotificationService, storage_keys_for, get_queued,
}
use skrift.Notifications.Sending.{
  parse_source_key, dismissed, stored_in, announce, store_unless_ephemeral, send_filtered, send,
}
use skrift.Notifications.Dismissed.{ids_of}
use skrift.Notifications.Merged.{
  merge_queues_adds, merge_queues-IsKeyed, values_id, sort_oldest_id, undismissed_keeps,
}

module _ {A : Type 0} where
  store-queue_of :
      (backend : InMemoryBackend A) (key : String) (n : Notification A)
      → queue_of (store backend key n).0 key
        ≡ Dict.put (dismiss_earlier (queue_of backend key) n.group).0 n.id n
  unfolding store
  store-queue_of backend key n = ap stored_of (
      Dict.get-put_self backend.queues key
        (Dict.put (dismiss_earlier (queue_of backend key) n.group).0 n.id n))

  get-store :
      (backend : InMemoryBackend A) (key : String) (n : Notification A)
      → Dict.get (queue_of (store backend key n).0 key) n.id ≡ some n
  get-store backend key n =
      ap (λ queue. Dict.get queue n.id) (store-queue_of backend key n)
      ∙ Dict.get-put_self (dismiss_earlier (queue_of backend key) n.group).0 n.id n

  -- A notification of no group leaves those with other ids.
  get-store_other :
      (backend : InMemoryBackend A) (key : String) (n : Notification A) (id : ℕ)
      → n.group ≡ none
      → (n.id == id) ≡ false
      → Dict.get (queue_of (store backend key n).0 key) id ≡ Dict.get (queue_of backend key) id
  get-store_other backend key n id alone other =
      ap (λ queue. Dict.get queue id) (store-queue_of backend key n)
      ∙ Dict.get-put (dismiss_earlier (queue_of backend key) n.group).0 n.id n id
      ∙ rw (other, alone) refl

  found-get_queued :
      (service : NotificationService A) (nid : String) (user_id : Option String) (key : String)
      (n : Notification A)
      → contains (storage_keys_for service nid user_id) key ≡ true
      → Dict.get (queue_of service.backend key) n.id ≡ some n
      → is_queued n.mode ≡ true
      → contains (under service.backend.dismissed (subscriber_key_for nid user_id)) n.id ≡ false
      → contains (ids_of (get_queued service nid user_id)) n.id ≡ true
  unfolding get_queued get_queued_multi
  found-get_queued service nid user_id key n concerned there mode shown =
      let keys = storage_keys_for service nid user_id in
      let wanted = λ (m : Notification A). is_queued m.mode in
      let merged = merge_queues wanted service.backend keys [] in
      undismissed_keeps service (subscriber_key_for nid user_id) _ n.id shown (
        sort_oldest_id (Dict.values merged) n.id
        ∙ values_id merged n.id (merge_queues-IsKeyed wanted service.backend keys [] tt)
            (merge_queues_adds wanted service.backend keys [] key n.id n concerned there mode))

not_ephemeral : (mode : NotificationMode) → is_queued mode ≡ true → is_ephemeral mode ≡ false
not_ephemeral queued e = refl
not_ephemeral timeseries e = refl
not_ephemeral ephemeral e = ground arith

module _ {A : Type 0} (payload : ℕ → A) where
  announce_keeps :
      (service : NotificationService A) (key : String) (old : Option ℕ) (fresh now : ℕ)
      (n : Notification A)
      → (fresh == n.id) ≡ false
      → Dict.get (queue_of service.backend key) n.id ≡ some n
      → Dict.get (queue_of (announce payload service key old fresh now).backend key) n.id ≡ some n
  announce_keeps service key none fresh now n other h = h
  announce_keeps service key (some old) fresh now n other h =
      get-store_other service.backend key (dismissed payload old fresh now) n.id refl other ∙ h

  announce_shows :
      (service : NotificationService A) (key : String) (old : Option ℕ) (fresh now : ℕ)
      → (announce payload service key old fresh now).backend.dismissed ≡ service.backend.dismissed
  unfolding store
  announce_shows service key none fresh now = refl
  announce_shows service key (some old) fresh now = refl

  announce-registry :
      (service : NotificationService A) (key : String) (old : Option ℕ) (fresh now : ℕ)
      → (announce payload service key old fresh now).registry ≡ service.registry
  announce-registry service key none fresh now = refl
  announce-registry service key (some old) fresh now = refl

  send_filtered-get_queued :
      (service : NotificationService A) (nid : String) (user_id : Option String) (key : String)
      (n : Notification A) (fresh now : ℕ)
      → contains (storage_keys_for service nid user_id) key ≡ true
      → is_queued n.mode ≡ true
      → contains (under service.backend.dismissed (subscriber_key_for nid user_id)) n.id ≡ false
      → (fresh == n.id) ≡ false
      → contains
          (ids_of (get_queued (send_filtered payload service key (some n) fresh now) nid user_id))
          n.id
        ≡ true
  unfolding storage_keys_for store
  send_filtered-get_queued service nid user_id key n fresh now concerned mode shown other =
      let old = (store service.backend key n).1 in
      let stored = stored_in service key n in
      let announced = announce payload stored key old fresh now in
      let after = publish (pushed announced key n) (sent key service.publisher_id n) in
      let keys : contains (storage_keys_for after nid user_id) key ≡ true =
        ap
          (λ registry.
            contains (storage_keys_for (record service { registry = registry }) nid user_id) key)
          (announce-registry stored key old fresh now)
        ∙ concerned in
      let visible : contains (under after.backend.dismissed (subscriber_key_for nid user_id)) n.id
          ≡ false =
        ap (λ dismissals. contains (under dismissals (subscriber_key_for nid user_id)) n.id)
          (announce_shows stored key old fresh now)
        ∙ shown in
      rw (not_ephemeral n.mode mode, store_unless_ephemeral)
        (found-get_queued after nid user_id key n keys
          (announce_keeps stored key old fresh now n other (get-store service.backend key n)) mode
          visible)

module _ {A : Type 0} (pre_send : Notification A → String → Option String → Option (Notification A))
    (payload : ℕ → A) where
  -- Let the filter turn what is sent to a source into a notification of mode queued, let the source
  -- be among those whose stored notifications concern a session, let the subscriber not have
  -- dismissed its id, and let the id not be the fresh one for an announced dismissal. Then the id is
  -- among those of the queued notifications that are read for the session after the call.
  pub send-get_queued :
      (service : NotificationService A) (nid : String) (user_id : Option String) (key : String)
      (given n : Notification A) (fresh now : ℕ)
      → pre_send given (parse_source_key key).0 (parse_source_key key).1 ≡ some n
      → contains (storage_keys_for service nid user_id) key ≡ true
      → is_queued n.mode ≡ true
      → contains (under service.backend.dismissed (subscriber_key_for nid user_id)) n.id ≡ false
      → (fresh == n.id) ≡ false
      → contains
          (ids_of (get_queued (send pre_send payload service key given fresh now) nid user_id))
          n.id
        ≡ true
  unfolding send
  send-get_queued service nid user_id key given n fresh now filtered concerned mode shown other =
      rw filtered (
        send_filtered-get_queued payload service nid user_id key n fresh now concerned mode shown
          other)
