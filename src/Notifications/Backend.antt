-- ===== src/Notifications/Backend.antt =====
-- `Notification` of skrift/notifications.py, and InMemoryBackend of
-- skrift/lib/notification_backends.py.
-- An id is a number, and a payload is anything.
use skrift.Prelude.{
  ℕ, ◌*◌, String, Bool, true, false, ◌&&◌, Option, none, some, List, [], ◌∷◌, ◌==◌, ℕ_beq,
  string_beq, ltb, leb, if◌then◌else◌, is_some, option_or,
}
use skrift.Prelude.Dict
use skrift.Prelude.Dict.{Dict}
use skrift.Notifications.{Index}

pub data NotificationMode : Type 0 where
  queued timeseries ephemeral : NotificationMode

abbrev pub is_queued : NotificationMode → Bool
is_queued queued = true
is_queued timeseries = false
is_queued ephemeral = false

abbrev pub is_timeseries : NotificationMode → Bool
is_timeseries queued = false
is_timeseries timeseries = true
is_timeseries ephemeral = false

abbrev pub is_ephemeral : NotificationMode → Bool
is_ephemeral queued = false
is_ephemeral timeseries = false
is_ephemeral ephemeral = true

pub record Notification (A : Type 0) : Type 0 where
  pub kind : String
  pub id : ℕ
  pub created_at : ℕ
  pub payload : A
  pub group : Option String
  pub mode : NotificationMode

-- `_queues[source_key]`
abbrev pub Stored : Type 0 → Type 0
Stored A = Dict ℕ (Notification A)

pub record InMemoryBackend (A : Type 0) : Type 0 where
  pub queues : Dict String (Stored A)
  pub subscriptions : Index String
  pub dismissed : Index ℕ

-- QUEUED_TTL_HOURS and TIMESERIES_TTL_DAYS
abbrev pub queued_ttl : ℕ
queued_ttl = 24 * 3_600 * 1_000_000

abbrev pub timeseries_ttl : ℕ
timeseries_ttl = 7 * 86_400 * 1_000_000

-- `notification.group == group`
abbrev pub has_group : Option String → String → Bool
has_group none group = false
has_group (some name) group = name == group

module _ {A : Type 0} where
  abbrev pub stored_of : Option (Stored A) → Stored A
  stored_of none = []
  stored_of (some queue) = queue

  -- `self._queues.get(source_key, {})`
  abbrev pub queue_of : InMemoryBackend A → String → Stored A
  queue_of backend source_key = stored_of (Dict.get backend.queues source_key)

  unfoldable pub dismiss_by_group : Stored A → String → Stored A × Option (Notification A)
  dismiss_by_group [] group = ([], none)
  dismiss_by_group ((id, n) ∷ queue) group =
      let (rest, found) = dismiss_by_group queue group in
      if has_group n.group group then (queue, some n) else ((id, n) ∷ rest, found)

  -- `if notification.group:`, the earlier one of the group is taken out
  abbrev pub dismiss_earlier : Stored A → Option String → Stored A × Option (Notification A)
  dismiss_earlier queue none = (queue, none)
  dismiss_earlier queue (some group) =
      if group == "" then (queue, none) else dismiss_by_group queue group

  abbrev pub id_of : Option (Notification A) → Option ℕ
  id_of none = none
  id_of (some n) = some n.id

  unfoldable pub store : InMemoryBackend A → String → Notification A → InMemoryBackend A × Option ℕ
  unfolding dismiss_by_group
  store backend source_key n =
      let (queue, old) = dismiss_earlier (queue_of backend source_key) n.group in
      (
        record backend { queues = Dict.put backend.queues source_key (Dict.put queue n.id n) },
        id_of old,
      )

  -- The first queue that holds the id.
  unfoldable pub remove_from : Dict String (Stored A) → ℕ → Dict String (Stored A) × Option String
  remove_from [] id = ([], none)
  remove_from ((key, queue) ∷ queues) id =
      let (rest, found) = remove_from queues id in
      if is_some (Dict.get queue id)
      then ((key, Dict.remove queue id) ∷ queues, some key)
      else ((key, queue) ∷ rest, found)

  unfoldable pub remove : InMemoryBackend A → ℕ → InMemoryBackend A × Option String
  unfolding remove_from
  remove backend id =
      let (queues, found) = remove_from backend.queues id in
      (record backend { queues = queues }, found)

  abbrev pub put_queue :
      Dict String (Stored A) → String → Option (Stored A) → Stored A → Dict String (Stored A)
  put_queue queues source_key none queue = queues
  put_queue queues source_key (some old) queue = Dict.put queues source_key queue

  unfoldable pub remove_by_group :
      InMemoryBackend A → String → String → InMemoryBackend A × Option ℕ
  unfolding dismiss_by_group
  remove_by_group backend source_key group =
      let (queue, old) = dismiss_by_group (queue_of backend source_key) group in
      (
        record backend {
          queues = put_queue backend.queues source_key (Dict.get backend.queues source_key) queue;
        },
        id_of old,
      )

  -- `merged[n.id] = n` for the notifications that pass a test
  unfoldable pub merge_queue : (Notification A → Bool) → Stored A → Stored A → Stored A
  merge_queue wanted [] merged = merged
  merge_queue wanted ((id, n) ∷ queue) merged =
      merge_queue wanted queue (if wanted n then Dict.put merged n.id n else merged)

  unfoldable pub merge_queues :
      (Notification A → Bool) → InMemoryBackend A → List String → Stored A → Stored A
  unfolding merge_queue
  merge_queues wanted backend [] merged = merged
  merge_queues wanted backend (key ∷ source_keys) merged =
      merge_queues wanted backend source_keys (merge_queue wanted (queue_of backend key) merged)

  -- `sorted(..., key=lambda n: n.created_at)`, which keeps the order of equals
  unfoldable pub insert_oldest : Notification A → List (Notification A) → List (Notification A)
  insert_oldest n [] = n ∷ []
  insert_oldest n (m ∷ sorted) =
      let rest = insert_oldest n sorted in
      if leb n.created_at m.created_at then n ∷ m ∷ sorted else m ∷ rest

  unfoldable pub sort_oldest : List (Notification A) → List (Notification A)
  unfolding insert_oldest
  sort_oldest [] = []
  sort_oldest (n ∷ ns) = insert_oldest n (sort_oldest ns)

  unfoldable pub get_queued_multi : InMemoryBackend A → List String → List (Notification A)
  unfolding merge_queues sort_oldest
  get_queued_multi backend source_keys =
      sort_oldest (Dict.values (merge_queues (λ n. is_queued n.mode) backend source_keys []))

  unfoldable pub get_since_multi : InMemoryBackend A → List String → ℕ → List (Notification A)
  unfolding merge_queues sort_oldest
  get_since_multi backend source_keys since = sort_oldest (
      Dict.values
        (merge_queues (λ n. is_timeseries n.mode && ltb since n.created_at) backend source_keys []))

  unfoldable pub find_by_id : Dict String (Stored A) → ℕ → Option (Notification A)
  find_by_id [] id = none
  find_by_id ((key, queue) ∷ queues) id =
      let rest = find_by_id queues id in option_or (Dict.get queue id) rest

  abbrev pub mode_of : Option (Notification A) → Option NotificationMode
  mode_of none = none
  mode_of (some n) = some n.mode

  unfoldable pub get_mode : InMemoryBackend A → ℕ → Option NotificationMode
  unfolding find_by_id
  get_mode backend id = mode_of (find_by_id backend.queues id)

  unfoldable pub first_of_group : Stored A → String → Option ℕ
  first_of_group [] group = none
  first_of_group ((id, n) ∷ queue) group =
      let rest = first_of_group queue group in if has_group n.group group then some id else rest

  unfoldable pub find_by_group : InMemoryBackend A → String → String → Option ℕ
  unfolding first_of_group
  find_by_group backend source_key group = first_of_group (queue_of backend source_key) group
