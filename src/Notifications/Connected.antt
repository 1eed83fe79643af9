-- ===== src/Notifications/Connected.antt =====
-- A new connection hears what it is connected to.
use skrift.Prelude.{
  ℕ, String, ◌≡◌, ◌∙◌, inl, inr, true, false, Option, none, some, List, [], ◌∷◌, arith, ◌==◌,
  ==_iff, ==_refl, ℕ_beq, string_beq, Bool-cases, contains, get_last?,
}
use skrift.Notifications.{under, SourceRegistry, subscribe, add_listener}
use skrift.Notifications.Mirror.{under-add_under}
use skrift.Notifications.Search.{Reaches, here, step}
use skrift.Notifications.Pushed.{push_lem}
use skrift.Notifications.Backend.{Notification}
use skrift.Notifications.Retention.{get_persistent_subscriptions}
use skrift.Notifications.Service.{
  session_key, user_key, present, NotificationService, subscribe_each, load_subscriptions,
  connect_user, register_connection, pushed,
}

-- The child is listed as a subscriber of the parent.
abbrev pub IsEdge : SourceRegistry → String → String → Type 0
IsEdge registry child parent = contains (under registry.subscribers parent) child ≡ true

subscribe-IsEdge :
    (registry : SourceRegistry) (child parent : String)
    → IsEdge (subscribe registry child parent) child parent
unfolding subscribe
subscribe-IsEdge registry child parent =
    under-add_under registry.subscribers parent child parent child
    ∙ ground (arith, ==_refl parent, ==_refl child)

subscribe_keeps :
    (registry : SourceRegistry) (child parent c p : String)
    → IsEdge registry c p
    → IsEdge (subscribe registry child parent) c p
unfolding subscribe
subscribe_keeps registry child parent c p h =
    under-add_under registry.subscribers parent child p c ∙ ground (arith, h)

subscribe_each_keeps :
    (sources : List String) (child : String) (registry : SourceRegistry) (c p : String)
    → IsEdge registry c p
    → IsEdge (subscribe_each sources child registry) c p
unfolding subscribe_each
subscribe_each_keeps [] child registry c p h = h
subscribe_each_keeps (source ∷ sources) child registry c p h =
    subscribe_each_keeps sources child (subscribe registry child source) c p
      (subscribe_keeps registry child source c p h)

subscribe_each-IsEdge :
    (sources : List String) (child : String) (registry : SourceRegistry) (p : String)
    → contains sources p ≡ true
    → IsEdge (subscribe_each sources child registry) child p
unfolding subscribe_each
subscribe_each-IsEdge [] child registry p h = ground arith
subscribe_each-IsEdge (source ∷ sources) child registry p h = elim (Bool-cases (source == p)) [
  | inl same ↦
      subscribe_each_keeps sources child (subscribe registry child source) child p
        (rw (← (==_iff source p).0 same) (subscribe-IsEdge registry child source))
  | inr other ↦
      subscribe_each-IsEdge sources child (subscribe registry child source) p
        (ground (arith, h, other))
]

module _ {A : Type 0} where
  load_keeps :
      (service : NotificationService A) (user c p : String)
      → IsEdge service.registry c p
      → IsEdge (load_subscriptions service user).registry c p
  load_keeps service user c p h = elim (Bool-cases (contains service.loaded_user_subs user)) [
    | inl loaded ↦ rw loaded h
    | inr new ↦ rw new (
        subscribe_each_keeps (get_persistent_subscriptions service.backend user) user
          service.registry c p h)
  ]

  connect_user_keeps :
      (service : NotificationService A) (session : String) (user : Option String) (c p : String)
      → IsEdge service.registry c p
      → IsEdge (connect_user service session user).registry c p
  connect_user_keeps service session none c p h = h
  connect_user_keeps service session (some user_id) c p h = load_keeps _ (user_key user_id) c p (
      subscribe_keeps (subscribe service.registry session (user_key user_id)) (user_key user_id)
        "global" c p (subscribe_keeps service.registry session (user_key user_id) c p h))

  -- What a session is to hear: itself, all, its user, and what its user has subscribed to, if that
  -- is not loaded yet.
  pub data IsFeed (service : NotificationService A) (nid : String) (user_id : Option String)
      : String → Type 0 where
    own_session : IsFeed service nid user_id (session_key nid)
    everyone : IsFeed service nid user_id "global"
    own_user : (id : String) → present user_id ≡ some id → IsFeed service nid user_id (user_key id)
    persistent :
        (id source : String)
        → present user_id ≡ some id
        → contains service.loaded_user_subs (user_key id) ≡ false
        → contains (get_persistent_subscriptions service.backend (user_key id)) source ≡ true
        → IsFeed service nid user_id source

  connect_user-IsEdge :
      (service : NotificationService A) (session : String) (user_id : Option String) (id : String)
      → user_id ≡ some id
      → IsEdge (connect_user service session user_id).registry session (user_key id)
  connect_user-IsEdge service session user_id id e = rw e (
      load_keeps _ (user_key id) session (user_key id) (
        subscribe_keeps (subscribe service.registry session (user_key id)) (user_key id) "global"
          session (user_key id) (subscribe-IsEdge service.registry session (user_key id))))

  connect_user-IsEdge_persistent :
      (service : NotificationService A) (session : String) (user_id : Option String)
      (id source : String)
      → user_id ≡ some id
      → contains service.loaded_user_subs (user_key id) ≡ false
      → contains (get_persistent_subscriptions service.backend (user_key id)) source ≡ true
      → IsEdge (connect_user service session user_id).registry (user_key id) source
  connect_user-IsEdge_persistent service session user_id id source e new listed =
      rw (e, new, connect_user, load_subscriptions)
        (subscribe_each-IsEdge (get_persistent_subscriptions service.backend (user_key id))
          (user_key id) _ source listed)

  module _ (service : NotificationService A) (nid : String) (user_id : Option String)
      (queue : ℕ) where
    edges_of :
        (c p : String)
        → IsEdge
            (connect_user
              (record service { registry = subscribe service.registry (session_key nid) "global" })
              (session_key nid)
              (present user_id)).registry
            c
            p
        → IsEdge (register_connection service nid user_id queue).registry c p
    unfolding register_connection add_listener
    edges_of c p h = h

    walk_of :
        {source : String}
        → IsFeed service nid user_id source
        → Reaches
            (register_connection service nid user_id queue).registry.subscribers
            source
            (session_key nid)
    walk_of own_session = here
    walk_of everyone = step here (
        edges_of (session_key nid) "global" (
          connect_user_keeps _ (session_key nid) (present user_id) (session_key nid) "global"
            (subscribe-IsEdge service.registry (session_key nid) "global")))
    walk_of (own_user id e) = step here (
        edges_of (session_key nid) (user_key id)
          (connect_user-IsEdge _ (session_key nid) (present user_id) id e))
    walk_of (persistent id source e new listed) =
        step
          (step here (
            edges_of (user_key id) source (
              connect_user-IsEdge_persistent _ (session_key nid) (present user_id) id source e new
                listed)))
          (edges_of (session_key nid) (user_key id)
            (connect_user-IsEdge _ (session_key nid) (present user_id) id e))

    listens_on :
        contains
          (under
            (register_connection service nid user_id queue).registry.listeners
            (session_key nid))
          queue
        ≡ true
    unfolding register_connection add_listener
    listens_on =
        under-add_under _ (session_key nid) queue (session_key nid) queue
        ∙ ground (arith, ==_refl (session_key nid), ==_refl queue)

    -- After a connection is registered, what is pushed to its session, to all, to its user or to a
    -- source that the user has subscribed to (where these subscriptions are not loaded yet) is the
    -- last in the new queue.
    pub register-pushed :
        (source_key : String) (n : Notification A)
        → IsFeed service nid user_id source_key
        → get_last?
            ((pushed (register_connection service nid user_id queue) source_key n).queues queue)
          ≡ some n
    register-pushed source_key n feed =
        let after = register_connection service nid user_id queue in
        (push_lem after.registry source_key n after.queues queue).0 (session_key nid) (walk_of feed)
          listens_on
