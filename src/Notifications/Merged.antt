-- ===== src/Notifications/Merged.antt =====
-- What a merge of stored queues contains, and what it keeps of it when it is sorted and filtered.
use skrift.Prelude.{
  ℕ, String, ◌≡◌, refl, sym, ◌∙◌, inl, inr, Bool, true, false, some, List, [], ◌∷◌, arith, ◌==◌,
  ==_iff, ℕ_beq, string_beq, if◌then◌else◌, Bool-cases, is_some, contains, contains-filter_eq,
  filter,
}
use skrift.Prelude.Dict
use skrift.Prelude.Dict.{Dict}
use skrift.Notifications.{under}
use skrift.Notifications.Backend.{
  Notification, Stored, InMemoryBackend, queue_of, merge_queue, merge_queues, insert_oldest,
  sort_oldest,
}
use skrift.Notifications.Service.{NotificationService, undismissed}
use skrift.Notifications.Dismissed.{ids_of}

module _ {A : Type 0} where
  put_keeps :
      (d : Stored A) (k j : ℕ) (n : Notification A)
      → is_some (Dict.get d j) ≡ true
      → is_some (Dict.get (Dict.put d k n) j) ≡ true
  put_keeps d k j n h = ground (arith, Dict.get-put d k n j, h)

  put_if_keeps :
      (wanted : Notification A → Bool) (d : Stored A) (n : Notification A) (j : ℕ)
      → is_some (Dict.get d j) ≡ true
      → is_some (Dict.get (if wanted n then Dict.put d n.id n else d) j) ≡ true
  put_if_keeps wanted d n j h = elim (Bool-cases (wanted n)) [
    | inl taken ↦ rw taken (put_keeps d n.id j n h)
    | inr left ↦ rw left h
  ]

  module _ (wanted : Notification A → Bool) where
    merge_queue_keeps :
        (queue merged : Stored A) (j : ℕ)
        → is_some (Dict.get merged j) ≡ true
        → is_some (Dict.get (merge_queue wanted queue merged) j) ≡ true
    unfolding merge_queue
    merge_queue_keeps [] merged j h = h
    merge_queue_keeps ((id, n) ∷ queue) merged j h =
        merge_queue_keeps queue _ j (put_if_keeps wanted merged n j h)

    merge_queues_keeps :
        (backend : InMemoryBackend A) (keys : List String) (merged : Stored A) (j : ℕ)
        → is_some (Dict.get merged j) ≡ true
        → is_some (Dict.get (merge_queues wanted backend keys merged) j) ≡ true
    unfolding merge_queues
    merge_queues_keeps backend [] merged j h = h
    merge_queues_keeps backend (key ∷ keys) merged j h =
        merge_queues_keeps backend keys _ j (merge_queue_keeps (queue_of backend key) merged j h)

    merge_queue_adds :
        (queue merged : Stored A) (k : ℕ) (n : Notification A)
        → Dict.get queue k ≡ some n
        → wanted n ≡ true
        → is_some (Dict.get (merge_queue wanted queue merged) n.id) ≡ true
    unfolding merge_queue Dict.get
    merge_queue_adds [] merged k n e w = ground arith
    merge_queue_adds ((id, m) ∷ queue) merged k n e w = elim (Bool-cases (id == k)) [
      | inl same ↦
          let here : some m ≡ some n = rw (same, Dict.get) at e in
          let found : m ≡ n = cc in
          let chosen : wanted m ≡ true = rw found w in
          let added : is_some (Dict.get (if wanted m then Dict.put merged m.id m else merged) m.id)
              ≡ true =
            rw (chosen, Dict.get-put_self merged m.id m) refl in
          rw (← found) (merge_queue_keeps queue _ m.id added)
      | inr other ↦ merge_queue_adds queue _ k n (rw (other, Dict.get) at e) w
    ]

    pub merge_queues_adds :
        (backend : InMemoryBackend A) (keys : List String) (merged : Stored A) (key : String)
        (k : ℕ) (n : Notification A)
        → contains keys key ≡ true
        → Dict.get (queue_of backend key) k ≡ some n
        → wanted n ≡ true
        → is_some (Dict.get (merge_queues wanted backend keys merged) n.id) ≡ true
    unfolding merge_queues
    merge_queues_adds backend [] merged key k n m e w = ground arith
    merge_queues_adds backend (first ∷ keys) merged key k n m e w =
        elim (Bool-cases (first == key)) [
          | inl same ↦ merge_queues_keeps backend keys _ n.id (
              let here : Dict.get (queue_of backend first) k ≡ some n =
                rw ((==_iff first key).0 same) e in
              merge_queue_adds (queue_of backend first) merged k n here w)
          | inr other ↦ merge_queues_adds backend keys _ key k n (ground (arith, m, other)) e w
        ]

  -- Every notification stands under its own id.
  abbrev pub IsKeyed : Stored A → Type 0
  IsKeyed [] = Unit
  IsKeyed ((id, n) ∷ d) = (n.id ≡ id) × IsKeyed d

  put-IsKeyed : (d : Stored A) (n : Notification A) → IsKeyed d → IsKeyed (Dict.put d n.id n)
  unfolding Dict.put
  put-IsKeyed [] n h = (refl, tt)
  put-IsKeyed ((id, m) ∷ d) n h = elim (Bool-cases (id == n.id)) [
    | inl same ↦ rw same (sym ((==_iff id n.id).0 same), h.1)
    | inr other ↦ rw other (h.0, put-IsKeyed d n h.1)
  ]

  merge_queue-IsKeyed :
      (wanted : Notification A → Bool) (queue merged : Stored A)
      → IsKeyed merged
      → IsKeyed (merge_queue wanted queue merged)
  unfolding merge_queue
  merge_queue-IsKeyed wanted [] merged h = h
  merge_queue-IsKeyed wanted ((id, n) ∷ queue) merged h = elim (Bool-cases (wanted n)) [
    | inl taken ↦ rw taken (merge_queue-IsKeyed wanted queue _ (put-IsKeyed merged n h))
    | inr left ↦ rw left (merge_queue-IsKeyed wanted queue merged h)
  ]

  pub merge_queues-IsKeyed :
      (wanted : Notification A → Bool) (backend : InMemoryBackend A) (keys : List String)
      (merged : Stored A)
      → IsKeyed merged
      → IsKeyed (merge_queues wanted backend keys merged)
  unfolding merge_queues
  merge_queues-IsKeyed wanted backend [] merged h = h
  merge_queues-IsKeyed wanted backend (key ∷ keys) merged h =
      merge_queues-IsKeyed wanted backend keys _
        (merge_queue-IsKeyed wanted (queue_of backend key) merged h)

  pub values_id :
      (d : Stored A) (k : ℕ)
      → IsKeyed d
      → is_some (Dict.get d k) ≡ true
      → contains (ids_of (Dict.values d)) k ≡ true
  unfolding Dict.get
  values_id [] k h e = ground arith
  values_id ((id, n) ∷ d) k h e = ground (arith, values_id d k h.1, h.0, e)

  insert_oldest_id :
      (n : Notification A) (ns : List (Notification A)) (k : ℕ)
      → contains (ids_of (insert_oldest n ns)) k ≡ contains (ids_of (n ∷ ns)) k
  unfolding insert_oldest
  insert_oldest_id n [] k = refl
  insert_oldest_id n (m ∷ ns) k = ground (arith, insert_oldest_id n ns k)

  pub sort_oldest_id :
      (ns : List (Notification A)) (k : ℕ)
      → contains (ids_of (sort_oldest ns)) k ≡ contains (ids_of ns) k
  unfolding sort_oldest
  sort_oldest_id [] k = refl
  sort_oldest_id (n ∷ ns) k =
      insert_oldest_id n (sort_oldest ns) k ∙ ground (arith, sort_oldest_id ns k)

  filter_id :
      (p : Notification A → Bool) (k : ℕ) (ns : List (Notification A))
      → ((n : Notification A) → (n.id == k) ≡ true → p n ≡ true)
      → contains (ids_of ns) k ≡ true
      → contains (ids_of (filter p ns)) k ≡ true
  filter_id p k [] h m = ground arith
  filter_id p k (n ∷ ns) h m = elim (Bool-cases (n.id == k)) [
    | inl same ↦ ground (arith, same, h n same)
    | inr other ↦ ground (arith, filter_id p k ns h, m, other)
  ]

  pub undismissed_keeps :
      (service : NotificationService A) (subscriber : String) (results : List (Notification A))
      (k : ℕ)
      → contains (under service.backend.dismissed subscriber) k ≡ false
      → contains (ids_of results) k ≡ true
      → contains (ids_of (undismissed service subscriber results)) k ≡ true
  undismissed_keeps service subscriber results k h m =
      filter_id _ k results
        (λ n same.
          let e : n.id ≡ k = (==_iff n.id k).0 same in
          let test =
            contains-filter_eq (contains (ids_of results))
              (under service.backend.dismissed subscriber) k in
          rw e (rw test (rw h refl)))
        m
