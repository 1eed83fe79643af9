-- ===== src/Notifications/Pushed.antt =====
-- Whom a push reaches, and that the queues stay bounded.
use skrift.Prelude.{
  ℕ, ◌≤◌, String, ◌≡◌, refl, ◌∙◌, inl, inr, Bool, true, false, some, List, [], ◌∷◌, ◌++◌, arith,
  ◌==◌, ==_iff, ==_refl, ℕ_beq, string_beq, if◌then◌else◌, Bool-cases, contains, length, drop,
  get_last?, any, length-append, length-drop,
}
use skrift.Notifications.{under, SourceRegistry}
use skrift.Notifications.Search.{resolve_downstream, Reaches}
use skrift.Notifications.Reach.{resolve_lem}
use skrift.Notifications.Delivery.{
  sse_queue_maxsize, put_dropping_oldest, Queues, put_in, put_in_all, push_to, push,
}

pub get_last-append {ℓ} : {A : Type ℓ} (xs : List A) (x : A) → get_last? (xs ++ x ∷ []) ≡ some x
get_last-append [] x = refl
get_last-append (y ∷ []) x = refl
get_last-append (y ∷ z ∷ xs) x = get_last-append (z ∷ xs) x

module _ (registry : SourceRegistry) (q : ℕ) where
  -- One of the sources lists the queue.
  abbrev hears : List String → Bool
  hears targets = any (λ target. contains (under registry.listeners target) q) targets

  hears_some :
      (targets : List String) (v : String)
      → contains targets v ≡ true
      → contains (under registry.listeners v) q ≡ true
      → hears targets ≡ true
  hears_some [] v m l = ground arith
  hears_some (target ∷ targets) v m l = elim (Bool-cases (target == v)) [
    | inl same ↦ rw ((==_iff target v).0 same, l) refl
    | inr other ↦ ground (arith, hears_some targets v, m, l, other)
  ]

  hears_none :
      (targets : List String)
      → ((v : String) → contains targets v ≡ true → contains (under registry.listeners v) q ≡ false)
      → hears targets ≡ false
  hears_none [] h = refl
  hears_none (target ∷ targets) h =
      let head : contains (under registry.listeners target) q ≡ false =
        h target (ground (arith, ==_refl target)) in
      let tail : hears targets ≡ false = hears_none targets λ v m. h v (ground (arith, m)) in
      rw (head, tail) refl

module _ {N : Type 0} where
  put-last : (queue : List N) (n : N) → get_last? (put_dropping_oldest queue n) ≡ some n
  unfolding put_dropping_oldest
  put-last queue n = ground (arith, get_last-append queue n, get_last-append (drop 1 queue) n)

  put-bounded :
      (queue : List N) (n : N)
      → length queue ≤ sse_queue_maxsize
      → length (put_dropping_oldest queue n) ≤ sse_queue_maxsize
  unfolding put_dropping_oldest
  put-bounded queue n h = ground (
    arith,
    length-append queue (n ∷ []),
    length-append (drop 1 queue) (n ∷ []),
    length-drop 1 queue,
  )

  -- What one queue may hold after a push, against what it held before and whether it was put.
  abbrev pub IsPut : Bool → N → List N → List N → Type 0
  IsPut put n before after =
      (put ≡ true → get_last? after ≡ some n)
      × (put ≡ false → after ≡ before)
      × (length before ≤ sse_queue_maxsize → length after ≤ sse_queue_maxsize)

  IsPut-both :
      (b c : Bool) (n : N) {u v w : List N}
      → IsPut b n u v
      → IsPut c n v w
      → IsPut (if b then true else c) n u w
  IsPut-both true true n h k = (λ e. k.0 refl, λ e. ground arith, λ l. k.2 (h.2 l))
  IsPut-both true false n h k = (λ e. rw (k.1 refl) (h.0 refl), λ e. ground arith, λ l. k.2 (h.2 l))
  IsPut-both false true n h k = (λ e. k.0 refl, λ e. ground arith, λ l. k.2 (h.2 l))
  IsPut-both false false n h k = (λ e. ground arith, λ e. k.1 refl ∙ h.1 refl, λ l. k.2 (h.2 l))

  put_in-IsPut :
      (queues : Queues N) (queue : ℕ) (n : N) (q : ℕ)
      → IsPut (queue == q) n (queues q) (put_in queues queue n q)
  unfolding put_in
  put_in-IsPut queues queue n q = ground (arith, put-last (queues q) n, put-bounded (queues q) n)

  put_in_all-IsPut :
      (listeners : List ℕ) (n : N) (queues : Queues N) (q : ℕ)
      → IsPut (contains listeners q) n (queues q) (put_in_all listeners n queues q)
  unfolding put_in_all
  put_in_all-IsPut [] n queues q = (λ e. ground arith, λ e. refl, λ l. l)
  put_in_all-IsPut (queue ∷ listeners) n queues q =
      IsPut-both (queue == q) (contains listeners q) n (put_in-IsPut queues queue n q)
        (put_in_all-IsPut listeners n (put_in queues queue n) q)

  push_to-IsPut :
      (registry : SourceRegistry) (targets : List String) (n : N) (queues : Queues N) (q : ℕ)
      → IsPut (hears registry q targets) n (queues q) (push_to registry targets n queues q)
  unfolding push_to
  push_to-IsPut registry [] n queues q = (λ e. ground arith, λ e. refl, λ l. l)
  push_to-IsPut registry (target ∷ targets) n queues q =
      IsPut-both (contains (under registry.listeners target) q) (hears registry q targets) n
        (put_in_all-IsPut (under registry.listeners target) n queues q)
        (push_to-IsPut registry targets n (put_in_all (under registry.listeners target) n queues) q)

  -- A notification pushed to a source is the last in every queue that listens on a source
  -- downstream of it, where a walk along subscriptions leads to; a queue that listens on none of
  -- those is as it was; and no queue grows beyond the maximum that it kept to.
  pub push_lem :
      (registry : SourceRegistry) (source_key : String) (n : N) (queues : Queues N) (q : ℕ)
      → ((v : String)
          → Reaches registry.subscribers source_key v
          → contains (under registry.listeners v) q ≡ true
          → get_last? (push registry source_key n queues q) ≡ some n)
        × (((v : String)
              → Reaches registry.subscribers source_key v
              → contains (under registry.listeners v) q ≡ false)
            → push registry source_key n queues q ≡ queues q)
        × (length (queues q) ≤ sse_queue_maxsize
            → length (push registry source_key n queues q) ≤ sse_queue_maxsize)
  unfolding push
  push_lem registry source_key n queues q =
      let targets = resolve_downstream registry source_key in
      let put = push_to-IsPut registry targets n queues q in
      let reached = resolve_lem registry.subscribers source_key in
      (
        λ v walk l. put.0 (hears_some registry q targets v ((reached v).1 walk) l),
        λ none_listens.
            put.1 (hears_none registry q targets λ v m. none_listens v ((reached v).0 m)),
        put.2,
      )
