-- ===== src/Notifications/Delivery.antt =====
-- `_put_dropping_oldest` and `push`: what the queues of the listeners hold.
use skrift.Prelude.{
  ℕ, String, List, [], ◌∷◌, ◌++◌, ◌==◌, ℕ_beq, string_beq, leb, if◌then◌else◌, length, drop,
}
use skrift.Notifications.{under, SourceRegistry}
use skrift.Notifications.Search.{resolve_downstream}

abbrev pub sse_queue_maxsize : ℕ
sse_queue_maxsize = 100

-- What each queue holds.
abbrev pub Queues : Type 0 → Type 0
Queues N = ℕ → List N

module _ {N : Type 0} where
  -- `queue.full()`, then `get_nowait` and `put_nowait`
  unfoldable pub put_dropping_oldest : List N → N → List N
  put_dropping_oldest queue notification =
      if leb sse_queue_maxsize (length queue)
      then drop 1 queue ++ notification ∷ []
      else queue ++ notification ∷ []

  unfoldable pub put_in : Queues N → ℕ → N → Queues N
  unfolding put_dropping_oldest
  put_in queues queue notification other =
      if queue == other then put_dropping_oldest (queues other) notification else queues other

  unfoldable pub put_in_all : List ℕ → N → Queues N → Queues N
  unfolding put_in
  put_in_all [] notification queues = queues
  put_in_all (queue ∷ listeners) notification queues =
      put_in_all listeners notification (put_in queues queue notification)

  unfoldable pub push_to : SourceRegistry → List String → N → Queues N → Queues N
  unfolding put_in_all
  push_to registry [] notification queues = queues
  push_to registry (target ∷ targets) notification queues =
      push_to registry targets notification
        (put_in_all (under registry.listeners target) notification queues)

  unfoldable pub push : SourceRegistry → String → N → Queues N → Queues N
  unfolding push_to
  push registry source_key notification queues =
      push_to registry (resolve_downstream registry source_key) notification queues
