-- ===== src/Notifications/Sending.antt =====
-- NotificationService of skrift/notifications.py: sending, dismissing, and the messages of other
-- replicas.
use skrift.Prelude.{or_else}
use skrift.Prelude.{
  ℕ, String, Bool, true, false, Option, none, some, List, [], ◌∷◌, ◌==◌, ℕ_beq, string_beq, eqb,
  if◌then◌else◌, Result, ok, raise,
}
use Prim.Native.Char.{code}
use skrift.Notifications.Backend.{
  NotificationMode, timeseries, is_ephemeral, is_timeseries, Notification, store, get_mode,
  find_by_group,
}
use skrift.Notifications.Retention.{dismiss_for_subscriber}
use skrift.Notifications.Service.{
  session_key, user_key, present, subscriber_key_for, Message, sent, dismissed_by,
  NotificationService, pushed, publish, storage_keys_for,
}

-- `source_key.split(":", 1)`, if there is a colon
unfoldable pub split_colon : String → Option (String × String)
split_colon String.[] = none
split_colon (String.◌∷◌ c s) =
    let rest = split_colon s in
    if eqb (code c) 58
    then some ("", s)
    else elim rest [ none ↦ none | some (scope, scope_id) ↦ some (String.◌∷◌ c scope, scope_id) ]

unfoldable pub parse_source_key : String → String × Option String
unfolding split_colon
parse_source_key source_key =
    if source_key == "global" then ("broadcast", none) else elim (split_colon source_key) [
      | none ↦ (source_key, none)
      | some (scope, scope_id) ↦ (scope, some scope_id)
    ]

pub data DismissError : Type 0 where
  not_dismissible : DismissError

abbrev pub is_timeseries_mode : Option NotificationMode → Bool
is_timeseries_mode none = false
is_timeseries_mode (some mode) = is_timeseries mode

abbrev pub found_id : ℕ → Option String → Option ℕ
found_id id none = none
found_id id (some source_key) = some id

module _ {A : Type 0} where
  abbrev pub stored_in : NotificationService A → String → Notification A → NotificationService A
  stored_in service source_key n = record service {
    backend = (store service.backend source_key n).0;
  }

  abbrev pub broadcast_filtered :
      NotificationService A → Option (Notification A) → NotificationService A
  broadcast_filtered service none = service
  broadcast_filtered service (some n) =
      publish (pushed service "global" n) (sent "global" service.publisher_id n)

  abbrev pub mark_dismissed :
      NotificationService A → String → ℕ → NotificationService A × Option String
  mark_dismissed service subscriber id =
      let (backend, source_key) = dismiss_for_subscriber service.backend subscriber id in
      (record service { backend = backend }, source_key)

  -- `for key in self._storage_keys_for(...)`: the last id that is found
  unfoldable pub dismiss_group :
      List String
      → String
      → String
      → NotificationService A
      → Option ℕ
      → NotificationService A × Option ℕ
  unfolding dismiss_for_subscriber find_by_group
  dismiss_group [] subscriber group service found = (service, found)
  dismiss_group (key ∷ keys) subscriber group service found =
      elim (find_by_group service.backend key group) [
        | none ↦ dismiss_group keys subscriber group service found
        | some id ↦
            dismiss_group keys subscriber group (mark_dismissed service subscriber id).0 (some id)
      ]

  abbrev pub push_to_user :
      NotificationService A → Option String → Notification A → NotificationService A
  push_to_user service none n = service
  push_to_user service (some user_id) n = pushed service (user_key user_id) n

  abbrev pub finish :
      NotificationService A × Bool → NotificationService A × Result DismissError Bool
  finish (service, found) = (service, ok found)

module _ {A : Type 0} (dismissal_payload : ℕ → A) where
  -- `Notification.dismissed(id)`, with the id and the time that its defaults give
  abbrev pub dismissed : ℕ → ℕ → ℕ → Notification A
  dismissed id fresh now = record {
    kind = "dismissed";
    id = fresh;
    created_at = now;
    payload = dismissal_payload id;
    group = none;
    mode = timeseries;
  }

  -- The notification that the new one replaces is announced as dismissed.
  abbrev pub announce : NotificationService A → String → Option ℕ → ℕ → ℕ → NotificationService A
  announce service source_key none fresh now = service
  announce service source_key (some old_id) fresh now =
      pushed (stored_in service source_key (dismissed old_id fresh now)) source_key
        (dismissed old_id fresh now)

  abbrev pub store_unless_ephemeral :
      NotificationService A → String → Notification A → ℕ → ℕ → NotificationService A
  store_unless_ephemeral service source_key n fresh now =
      if is_ephemeral n.mode
      then service
      else announce (stored_in service source_key n) source_key
          (store service.backend source_key n).1 fresh now

  -- `none` is a notification that the filter dropped.
  abbrev pub send_filtered :
      NotificationService A → String → Option (Notification A) → ℕ → ℕ → NotificationService A
  send_filtered service source_key none fresh now = service
  send_filtered service source_key (some n) fresh now =
      publish (pushed (store_unless_ephemeral service source_key n fresh now) source_key n)
        (sent source_key service.publisher_id n)

  unfoldable pub handle_remote : NotificationService A → Message A → ℕ → ℕ → NotificationService A
  handle_remote service (sent source_key publisher n) fresh now =
      if publisher == service.publisher_id then service else pushed service source_key n
  handle_remote service (dismissed_by subscriber source_key publisher id) fresh now =
      if publisher == service.publisher_id
      then service
      else pushed service (or_else (present subscriber) source_key) (dismissed id fresh now)

  abbrev pub announce_dismissed :
      NotificationService A
      → String
      → Option String
      → Option ℕ
      → ℕ
      → ℕ
      → NotificationService A × Bool
  announce_dismissed service nid user_id none fresh now = (service, false)
  announce_dismissed service nid user_id (some id) fresh now =
      let n = dismissed id fresh now in
      let subscriber = subscriber_key_for nid user_id in
      let kept = pushed (stored_in service subscriber n) (session_key nid) n in
      (
        publish (push_to_user kept (present user_id) n)
            (dismissed_by (some subscriber) "" service.publisher_id id),
        true,
      )

  unfoldable pub dismiss :
      NotificationService A
      → String
      → Option String
      → Option ℕ
      → Option String
      → ℕ
      → ℕ
      → NotificationService A × Result DismissError Bool
  unfolding store get_mode dismiss_for_subscriber dismiss_group storage_keys_for
  dismiss service nid user_id (some id) group fresh now =
      if is_timeseries_mode (get_mode service.backend id)
      then (service, raise not_dismissible)
      else (let (marked, source_key) = mark_dismissed service (subscriber_key_for nid user_id) id in
          finish (announce_dismissed marked nid user_id (found_id id source_key) fresh now))
  dismiss service nid user_id none (some group) fresh now =
      let keys = storage_keys_for service nid user_id in
      let (marked, found) =
        dismiss_group keys (subscriber_key_for nid user_id) group service none in
      finish (announce_dismissed marked nid user_id found fresh now)
  dismiss service nid user_id none none fresh now = (service, ok false)

-- `pre_send` is the filter NOTIFICATION_PRE_SEND.
module _ {A : Type 0}
    (pre_send : Notification A → String → Option String → Option (Notification A)) where
  unfoldable pub broadcast : NotificationService A → Notification A → NotificationService A
  broadcast service n = broadcast_filtered service (pre_send n "broadcast" none)

  unfoldable pub send :
      (ℕ → A) → NotificationService A → String → Notification A → ℕ → ℕ → NotificationService A
  unfolding store parse_source_key
  send dismissal_payload service source_key n fresh now =
      let (scope, scope_id) = parse_source_key source_key in
      send_filtered dismissal_payload service source_key (pre_send n scope scope_id) fresh now
