-- ===== src/Notifications/Tests.antt =====
-- A service with one user, and the theorems about sources, connections and dismissals at it.
use skrift.Notifications.{add_listener}
use skrift.Notifications.{subscribe}
use skrift.Prelude.{
  ℕ, suc, ◌≤◌, String, ◌≡◌, refl, ◌↔◌, true, false, Option, none, some, List, [], ◌∷◌, ℕ_beq,
  string_beq, ok, contains, length, get_last?,
}
use skrift.Prelude.Dict
use skrift.Notifications.{under, SourceRegistry, no_sources}
use skrift.Notifications.Retention.{dismiss_for_subscriber, source_of}
use skrift.Notifications.Backend.{get_mode, find_by_id}
use skrift.Notifications.{add_under}
use skrift.Notifications.Service.{subscribe_each}
use skrift.Notifications.Delivery.{push_to, put_in_all, put_in, put_dropping_oldest}
use skrift.Notifications.Search.{
  search, count_edges, resolve, resolve_downstream, resolve_upstream, Reaches,
}
use skrift.Notifications.Reach.{resolve-returns, resolve_lem}
use skrift.Notifications.Mirror.{
  RegistryCall, subscribes, leaves, run_registry, downstream_iff_upstream,
}
use skrift.Notifications.Delivery.{sse_queue_maxsize, Queues, push}
use skrift.Notifications.Pushed.{push_lem}
use skrift.Notifications.Backend.{Notification, queued, InMemoryBackend}
use skrift.Notifications.Service.{
  NotificationService, pushed, register_connection, get_queued, storage_keys_for,
  subscriber_key_for,
}
use skrift.Notifications.Sending.{parse_source_key, send, dismiss, split_colon}
use skrift.Notifications.Connected.{IsFeed, persistent, register-pushed}
use skrift.Notifications.Dismissed.{ids_of, dismiss-get_queued}
use skrift.Notifications.Sent.{send-get_queued}

abbrev graph : List (String × List String)
graph =
    ("global", "user:a" ∷ "session:1" ∷ [])
    ∷ ("user:a", "session:1" ∷ [])
    ∷ ("session:1", "global" ∷ [])
    ∷ []

-- A cycle: the search visits each source once.
cycle : resolve graph "user:a" ≡ "global" ∷ "session:1" ∷ "user:a" ∷ []
unfolding resolve search Dict.get
cycle = refl

resolve-returns_example :
    (found : List String) × (search (suc (count_edges graph)) graph [] ("user:a" ∷ []) ≡ some found)
    × (resolve graph "user:a" ≡ found)
resolve-returns_example = resolve-returns graph "user:a"

resolve_lem_example :
    (contains (resolve graph "user:a") "session:1" ≡ true) ↔ Reaches graph "user:a" "session:1"
resolve_lem_example = resolve_lem graph "user:a" "session:1"

abbrev calls : List RegistryCall
calls =
    subscribes "session:1" "global"
    ∷ subscribes "session:1" "user:a"
    ∷ subscribes "user:a" "global"
    ∷ leaves "session:2"
    ∷ []

downstream_iff_upstream_example :
    let registry = run_registry no_sources calls in
    (contains (resolve_downstream registry "global") "session:1" ≡ true)
    ↔ (contains (resolve_upstream registry "session:1") "global" ≡ true)
downstream_iff_upstream_example = downstream_iff_upstream calls "global" "session:1"

abbrev registry : SourceRegistry
registry = record {
  listeners = ("session:1", 4 ∷ []) ∷ [];
  subscriptions = ("session:1", "global" ∷ []) ∷ [];
  subscribers = ("global", "session:1" ∷ []) ∷ [];
}

abbrev queues : Queues ℕ
queues q = 7 ∷ []

push_lem_example :
    ((v : String)
      → Reaches registry.subscribers "global" v
      → contains (under registry.listeners v) 4 ≡ true
      → get_last? (push registry "global" 9 queues 4) ≡ some 9)
    × (((v : String)
          → Reaches registry.subscribers "global" v
          → contains (under registry.listeners v) 4 ≡ false)
        → push registry "global" 9 queues 4 ≡ queues 4)
    × (length (queues 4) ≤ sse_queue_maxsize
        → length (push registry "global" 9 queues 4) ≤ sse_queue_maxsize)
push_lem_example = push_lem registry "global" 9 queues 4

abbrev backend : InMemoryBackend ℕ
backend = record { queues = []; subscriptions = ("user:a", "blog:tech" ∷ []) ∷ []; dismissed = [] }

abbrev service : NotificationService ℕ
service = record {
  registry = no_sources;
  queues = λ q. [];
  backend = backend;
  publisher_id = "p";
  loaded_user_subs = [];
  session_users = [];
  published = [];
}

abbrev notice : Notification ℕ
notice = record {
  kind = "generic";
  id = 11;
  created_at = 100;
  payload = 0;
  group = some "g";
  mode = queued;
}

feed : IsFeed service "1" (some "a") "blog:tech"
unfolding Dict.get
feed = persistent "a" "blog:tech" refl refl refl

register-pushed_example :
    get_last? ((pushed (register_connection service "1" (some "a") 4) "blog:tech" notice).queues 4)
    ≡ some notice
register-pushed_example = register-pushed service "1" (some "a") 4 "blog:tech" notice feed

abbrev pass_on : Notification ℕ → String → Option String → Option (Notification ℕ)
pass_on n scope scope_id = some n

concerned : contains (storage_keys_for service "1" (some "a")) "user:a" ≡ true
unfolding storage_keys_for resolve search Dict.get
concerned = refl

not_dismissed :
    contains (under service.backend.dismissed (subscriber_key_for "1" (some "a"))) 11 ≡ false
unfolding Dict.get
not_dismissed = refl

send-get_queued_example :
    contains
      (ids_of (get_queued (send pass_on (λ id. id) service "user:a" notice 12 100) "1" (some "a")))
      11
    ≡ true
send-get_queued_example =
    send-get_queued pass_on (λ id. id) service "1" (some "a") "user:a" notice notice 12 100 refl
      concerned refl not_dismissed refl

abbrev holding : NotificationService ℕ
holding = record service {
  backend = record backend { queues = ("user:a", (11, notice) ∷ []) ∷ [] };
}

dismissed_once : (dismiss (λ id. id) holding "1" (some "a") (some 11) none 12 100).1 ≡ ok true
unfolding dismiss dismiss_for_subscriber source_of get_mode find_by_id Dict.get
dismissed_once = refl

dismiss-get_queued_example :
    contains
      (ids_of (
        get_queued
          (dismiss (λ id. id) holding "1" (some "a") (some 11) none 12 100).0
          "1"
          (some "a")))
      11
    ≡ false
dismiss-get_queued_example =
    dismiss-get_queued (λ id. id) holding "1" (some "a") 11 none 12 100 dismissed_once

parsed : parse_source_key "blog:tech:eu" ≡ ("blog", some "tech:eu")
unfolding parse_source_key split_colon
parsed = refl

-- A session that is connected as one user and then as another: the new connection still hears
-- what is sent to the first.
abbrev twice : NotificationService ℕ
twice = register_connection (register_connection service "1" (some "a") 4) "1" (some "b") 5

first_user_heard : (pushed twice "user:a" notice).queues 5 ≡ notice ∷ []
unfolding register_connection subscribe subscribe_each add_listener add_under push push_to
    put_in_all put_in put_dropping_oldest resolve search Dict.get Dict.put
first_user_heard = refl
