-- ===== src/Notifications/Service.antt =====
-- NotificationService of skrift/notifications.py over the in-memory backend: connections, sending,
-- dismissing, and the messages of other replicas.
-- What the filter NOTIFICATION_PRE_SEND makes of a notification is a parameter, and so is the
-- payload that names a dismissed id. Fresh ids and times are arguments. A message carries the
-- notification itself in place of its dictionary.
use skrift.Prelude.{
  ℕ, String, not, ◌&&◌, Option, none, some, List, [], ◌∷◌, ◌++◌, map, ◌==◌, ℕ_beq, string_beq,
  if◌then◌else◌, contains, filter,
}
use Prim.Native.String.{◌++◌ as ◌^◌}
use skrift.Notifications.{
  set_add, SourceRegistry, add_listener, remove_listener, has_listeners, has_subscribers, subscribe,
  unsubscribe, unsubscribe_all,
}
use skrift.Notifications.Search.{resolve_upstream}
use skrift.Notifications.Delivery.{Queues, push}
use skrift.Notifications.Backend.{Notification, InMemoryBackend, get_queued_multi, get_since_multi}
use skrift.Notifications.Retention.{
  get_persistent_subscriptions, get_dismissed_ids, add_subscription, remove_subscription,
}
use skrift.Prelude.Dict
use skrift.Prelude.Dict.{Dict}

abbrev pub session_key : String → String
session_key nid = "session:" ^ nid

abbrev pub user_key : String → String
user_key user_id = "user:" ^ user_id

-- `if user_id:`
abbrev pub present : Option String → Option String
present none = none
present (some user_id) = if user_id == "" then none else some user_id

abbrev pub subscriber_key_for : String → Option String → String
subscriber_key_for nid user_id = elim (present user_id) [
  | none ↦ session_key nid
  | some user ↦ user_key user
]

-- What is published to the other replicas, with the publisher's id. A dismissal names its
-- subscriber (`sub`); one of an older replica names a source instead (`sk`), the empty text if it
-- is missing.
pub data Message (A : Type 0) : Type 0 where
  sent : String → String → Notification A → Message A
  dismissed_by : Option String → String → String → ℕ → Message A

pub record NotificationService (A : Type 0) : Type 0 where
  pub registry : SourceRegistry
  pub queues : Queues (Notification A)
  pub backend : InMemoryBackend A
  pub publisher_id : String
  pub loaded_user_subs : List String
  pub session_users : Dict String String
  pub published : List (Message A)

-- `for source in persistent: ...`
unfoldable pub subscribe_each : List String → String → SourceRegistry → SourceRegistry
unfolding subscribe
subscribe_each [] child registry = registry
subscribe_each (source ∷ sources) child registry =
    subscribe_each sources child (subscribe registry child source)

-- `upstream.add(f"user:{user_id}")`
abbrev pub with_user : List String → Option String → List String
with_user upstream none = upstream
with_user upstream (some user_id) = set_add upstream (user_key user_id)

module _ {A : Type 0} where
  abbrev pub load_subscriptions : NotificationService A → String → NotificationService A
  load_subscriptions service user =
      if contains service.loaded_user_subs user then service else record service {
        loaded_user_subs = user ∷ service.loaded_user_subs;
        registry =
            subscribe_each (get_persistent_subscriptions service.backend user) user
              service.registry;
      }

  abbrev pub connect_user : NotificationService A → String → Option String → NotificationService A
  connect_user service session none = service
  connect_user service session (some user_id) =
      load_subscriptions
        (record service {
          session_users = Dict.put service.session_users session (user_key user_id);
          registry =
              subscribe (subscribe service.registry session (user_key user_id)) (user_key user_id)
                "global";
        })
        (user_key user_id)

  -- `queue` is the new queue.
  unfoldable pub register_connection :
      NotificationService A → String → Option String → ℕ → NotificationService A
  unfolding subscribe subscribe_each add_listener
  register_connection service nid user_id queue =
      let session = session_key nid in
      let to_global = record service { registry = subscribe service.registry session "global" } in
      let connected = connect_user to_global session (present user_id) in
      record connected {
        registry = add_listener connected.registry session queue;
        queues = λ q. if queue == q then [] else connected.queues q;
      }

  -- `user_key` is what `_session_users.pop(session_key, None)` gives.
  abbrev pub leave_user : NotificationService A → Option String → NotificationService A
  leave_user service none = service
  leave_user service (some user) =
      if not (user == "") && not (has_subscribers service.registry user)
      then record service {
        registry = unsubscribe_all service.registry user;
        loaded_user_subs = filter (λ other. not (user == other)) service.loaded_user_subs;
      }
      else service

  unfoldable pub unregister_connection : NotificationService A → String → ℕ → NotificationService A
  unfolding remove_listener unsubscribe_all
  unregister_connection service nid queue =
      let session = session_key nid in
      let silent = record service { registry = remove_listener service.registry session queue } in
      if has_listeners silent.registry session
      then silent
      else leave_user
          (record silent {
            registry = unsubscribe_all silent.registry session;
            session_users = Dict.remove silent.session_users session;
          })
          (Dict.get silent.session_users session)

  unfoldable pub subscribe_to : NotificationService A → String → String → NotificationService A
  unfolding subscribe add_subscription
  subscribe_to service subscriber source = record service {
    backend = add_subscription service.backend subscriber source;
    registry = subscribe service.registry subscriber source;
  }

  unfoldable pub unsubscribe_from : NotificationService A → String → String → NotificationService A
  unfolding unsubscribe remove_subscription
  unsubscribe_from service subscriber source = record service {
    backend = remove_subscription service.backend subscriber source;
    registry = unsubscribe service.registry subscriber source;
  }

  abbrev pub pushed : NotificationService A → String → Notification A → NotificationService A
  pushed service source_key n = record service {
    queues = push service.registry source_key n service.queues;
  }

  abbrev pub publish : NotificationService A → Message A → NotificationService A
  publish service message = record service { published = service.published ++ message ∷ [] }

  -- The sources whose stored notifications concern a session.
  unfoldable pub storage_keys_for : NotificationService A → String → Option String → List String
  storage_keys_for service nid user_id =
      let upstream =
        set_add (resolve_upstream service.registry (session_key nid)) (session_key nid) in
      filter (λ key. not (key == "global")) (with_user upstream (present user_id))

  abbrev pub undismissed :
      NotificationService A → String → List (Notification A) → List (Notification A)
  undismissed service subscriber results =
      filter
        (λ n. not (
          contains
            (get_dismissed_ids service.backend subscriber
              (map (λ (m : Notification A). m.id) results))
            n.id))
        results

  unfoldable pub get_queued : NotificationService A → String → Option String → List (Notification A)
  unfolding get_queued_multi storage_keys_for
  get_queued service nid user_id =
      undismissed service (subscriber_key_for nid user_id)
        (get_queued_multi service.backend (storage_keys_for service nid user_id))

  unfoldable pub get_since :
      NotificationService A → String → Option String → ℕ → List (Notification A)
  unfolding get_since_multi storage_keys_for
  get_since service nid user_id since =
      undismissed service (subscriber_key_for nid user_id)
        (get_since_multi service.backend (storage_keys_for service nid user_id) since)
