-- ===== src/Notifications.antt =====
-- skrift/notifications.py: the graph of sources and its listeners (SourceRegistry).
-- A set is a list of which only membership is read. A queue is named by a number; what the queues
-- hold is a store of its own, since several sources may list one queue.
pub mod Search
pub mod Reach
pub mod Mirror
pub mod Delivery
pub mod Pushed
pub mod Backend
pub mod Retention
pub mod Service
pub mod Sending
pub mod Connected
pub mod Dismissed
pub mod Merged
pub mod Sent
mod Tests
use skrift.Prelude.{
  ℕ, String, Bool, true, false, not, Option, none, some, List, [], ◌∷◌, BEq, ◌==◌, ℕ_beq,
  string_beq, if◌then◌else◌, contains, filter,
}
use skrift.Prelude.Dict
use skrift.Prelude.Dict.{Dict}

-- The sets under each key: `_listeners`, `_subscriptions` and `_subscribers`.
abbrev pub Index : Type 0 → Type 0
Index A = Dict String (List A)

module _ {A : Type 0} ⦃same : BEq A⦄ where
  abbrev pub set_add : List A → A → List A
  set_add set item = if contains set item then set else item ∷ set

  abbrev pub discard : List A → A → List A
  discard set item = filter (λ other. not (item == other)) set

  abbrev pub set_of : Option (List A) → List A
  set_of none = []
  set_of (some set) = set

  -- `index.get(key, ())`
  abbrev pub under : Index A → String → List A
  under index key = set_of (Dict.get index key)

  -- `index.setdefault(key, set()).add(item)`
  unfoldable pub add_under : Index A → String → A → Index A
  add_under index key item = Dict.put index key (set_add (under index key) item)

  abbrev pub keep_set : Index A → String → List A → Index A
  keep_set index key [] = Dict.remove index key
  keep_set index key (item ∷ set) = Dict.put index key (item ∷ set)

  -- `set.discard(item)`, and `del index[key]` once the set is empty. Nothing happens to an empty set.
  abbrev pub discard_from : Index A → String → A → Option (List A) → Index A
  discard_from index key item none = index
  discard_from index key item (some []) = index
  discard_from index key item (some (first ∷ set)) = keep_set index key (discard (first ∷ set) item)

  unfoldable pub discard_under : Index A → String → A → Index A
  discard_under index key item = discard_from index key item (Dict.get index key)

pub record SourceRegistry : Type 0 where
  pub listeners : Index ℕ
  pub subscriptions : Index String
  pub subscribers : Index String

abbrev pub no_sources : SourceRegistry
no_sources = record { listeners = []; subscriptions = []; subscribers = [] }

unfoldable pub add_listener : SourceRegistry → String → ℕ → SourceRegistry
unfolding add_under
add_listener registry source_key queue = record registry {
  listeners = add_under registry.listeners source_key queue;
}

unfoldable pub remove_listener : SourceRegistry → String → ℕ → SourceRegistry
unfolding discard_under
remove_listener registry source_key queue = record registry {
  listeners = discard_under registry.listeners source_key queue;
}

abbrev pub is_nil : {A : Type 0} → List A → Bool
is_nil [] = true
is_nil (x ∷ xs) = false

abbrev pub has_listeners : SourceRegistry → String → Bool
has_listeners registry source_key = not (is_nil (under registry.listeners source_key))

abbrev pub has_subscribers : SourceRegistry → String → Bool
has_subscribers registry source_key = not (is_nil (under registry.subscribers source_key))

unfoldable pub subscribe : SourceRegistry → String → String → SourceRegistry
unfolding add_under
subscribe registry child parent = record registry {
  subscriptions = add_under registry.subscriptions child parent;
  subscribers = add_under registry.subscribers parent child;
}

unfoldable pub unsubscribe : SourceRegistry → String → String → SourceRegistry
unfolding discard_under
unsubscribe registry child parent = record registry {
  subscriptions = discard_under registry.subscriptions child parent;
  subscribers = discard_under registry.subscribers parent child;
}

-- `for parent in parents: ...`
unfoldable pub discard_child : List String → String → Index String → Index String
unfolding discard_under
discard_child [] child subscribers = subscribers
discard_child (parent ∷ parents) child subscribers =
    discard_child parents child (discard_under subscribers parent child)

unfoldable pub unsubscribe_all : SourceRegistry → String → SourceRegistry
unfolding discard_child
unsubscribe_all registry child = record registry {
  subscriptions = Dict.remove registry.subscriptions child;
  subscribers = discard_child (under registry.subscriptions child) child registry.subscribers;
}
