-- ===== src/Notifications/Retention.antt =====
-- InMemoryBackend of skrift/lib/notification_backends.py: dismissals, persistent subscriptions and
-- the sweep of what is too old.
use skrift.Prelude.{
  ℕ, ◌-◌, String, Bool, not, Option, none, some, List, [], ◌∷◌, ◌++◌, ℕ_beq, string_beq, ltb,
  if◌then◌else◌, is_some, contains, filter,
}
use skrift.Prelude.Dict
use skrift.Prelude.Dict.{Dict}
use skrift.Notifications.{Index, under, discard, add_under}
use skrift.Notifications.Backend.{
  NotificationMode, is_timeseries, Notification, Stored, InMemoryBackend, queued_ttl,
  timeseries_ttl,
}

-- An emptied set stays.
abbrev pub discard_there : Index String → String → String → Option (List String) → Index String
discard_there index key item none = index
discard_there index key item (some set) = Dict.put index key (discard set item)

abbrev pub cutoff : ℕ → NotificationMode → ℕ
cutoff now mode = if is_timeseries mode then now - timeseries_ttl else now - queued_ttl

unfoldable pub keep_live : List ℕ → Index ℕ → Index ℕ
keep_live live [] = []
keep_live live ((key, ids) ∷ dismissed) =
    let rest = keep_live live dismissed in
    elim (filter (contains live) ids) [ [] ↦ rest | id ∷ kept ↦ (key, id ∷ kept) ∷ rest ]

module _ {A : Type 0} where
  -- The source whose queue holds the id.
  unfoldable pub source_of : Dict String (Stored A) → ℕ → Option String
  source_of [] id = none
  source_of ((key, queue) ∷ queues) id =
      let rest = source_of queues id in if is_some (Dict.get queue id) then some key else rest

  unfoldable pub dismiss_for_subscriber :
      InMemoryBackend A → String → ℕ → InMemoryBackend A × Option String
  unfolding source_of add_under
  dismiss_for_subscriber backend subscriber_key id = elim (source_of backend.queues id) [
    | none ↦ (backend, none)
    | some source_key ↦ (
      record backend { dismissed = add_under backend.dismissed subscriber_key id },
      some source_key,
    )
  ]

  -- `ids`, as a set, met with those the subscriber has dismissed
  abbrev pub get_dismissed_ids : InMemoryBackend A → String → List ℕ → List ℕ
  get_dismissed_ids backend subscriber_key ids =
      filter (contains ids) (under backend.dismissed subscriber_key)

  abbrev pub get_persistent_subscriptions : InMemoryBackend A → String → List String
  get_persistent_subscriptions backend subscriber_key = under backend.subscriptions subscriber_key

  unfoldable pub add_subscription : InMemoryBackend A → String → String → InMemoryBackend A
  unfolding add_under
  add_subscription backend subscriber_key source_key = record backend {
    subscriptions = add_under backend.subscriptions subscriber_key source_key;
  }

  unfoldable pub remove_subscription : InMemoryBackend A → String → String → InMemoryBackend A
  remove_subscription backend subscriber_key source_key = record backend {
    subscriptions =
        discard_there backend.subscriptions subscriber_key source_key
          (Dict.get backend.subscriptions subscriber_key);
  }

  -- Times are from 1970 on, so that a cutoff is none before that.
  abbrev pub is_expired : ℕ → Notification A → Bool
  is_expired now n = ltb n.created_at (cutoff now n.mode)

  unfoldable pub delete_old : ℕ → Dict String (Stored A) → Dict String (Stored A)
  delete_old now [] = []
  delete_old now ((key, queue) ∷ queues) =
      let rest = delete_old now queues in
      elim (Dict.keep (λ n. not (is_expired now n)) queue) [
        | [] ↦ rest
        | entry ∷ kept ↦ (key, entry ∷ kept) ∷ rest
      ]

  unfoldable pub delete_old_notifications : InMemoryBackend A → ℕ → InMemoryBackend A
  unfolding delete_old
  delete_old_notifications backend now = record backend { queues = delete_old now backend.queues }

  unfoldable pub live_ids : Dict String (Stored A) → List ℕ
  live_ids [] = []
  live_ids ((key, queue) ∷ queues) = Dict.keys queue ++ live_ids queues

  unfoldable pub cleanup_dismissed : InMemoryBackend A → InMemoryBackend A
  unfolding live_ids keep_live
  cleanup_dismissed backend = record backend {
    dismissed = keep_live (live_ids backend.queues) backend.dismissed;
  }
