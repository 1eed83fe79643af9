-- ===== src/Notifications/Reach.antt =====
-- The search ends, and it visits the sources that walks lead to.
use skrift.Prelude.{
  ℕ, zero, suc, ◌+◌, ◌≤◌, String, ◌≡◌, refl, ap, ◌∙◌, ◌↔◌, ◌⊎◌, inl, inr, true, false, not, ◌&&◌,
  ◌||◌, some, List, [], ◌∷◌, ◌++◌, arith, ◌==◌, ==_iff, ==_refl, ℕ_beq, string_beq, if◌then◌else◌,
  Bool-cases, contains, contains-append, contains-filter_eq, length, filter, length-append,
  length-filter-le,
}
use skrift.Prelude.Dict
use skrift.Notifications.{Index, under}
use skrift.Notifications.Search.{search, count_edges, resolve, Reaches, here, step}

-- The edges out of sources that are not visited yet.
abbrev unexplored : Index String → List String → ℕ
unexplored [] visited = 0
unexplored ((key, set) ∷ index) visited =
    (if contains visited key then 0 else length set) + unexplored index visited

unexplored-none : (index : Index String) → unexplored index [] ≡ count_edges index
unexplored-none [] = refl
unexplored-none ((key, set) ∷ index) = omega (arith, unexplored-none index)

unexplored-le :
    (index : Index String) (visited : List String) (node : String)
    → unexplored index (node ∷ visited) ≤ unexplored index visited
unexplored-le [] visited node = omega arith
unexplored-le ((key, set) ∷ index) visited node = ground (arith, unexplored-le index visited node)

unexplored-cons :
    (index : Index String) (visited : List String) (node : String)
    → contains visited node ≡ false
    → unexplored index (node ∷ visited) + length (under index node) ≤ unexplored index visited
unfolding Dict.get
unexplored-cons [] visited node new = omega arith
unexplored-cons ((key, set) ∷ index) visited node new = elim (Bool-cases (key == node)) [
  | inl same ↦
      rw ((==_iff key node).0 same)
        (ground (arith, new, ==_refl node, unexplored-le index visited node))
  | inr other ↦
      ground (arith, unexplored-cons index visited node new, ==_iff key node, ==_iff node key)
]

new_items : List String → List String → List String
new_items visited = filter (λ next. not (contains visited next))

-- One more unit of fuel than there are edges to explore and sources in the queue is enough.
search-returns :
    (fuel : ℕ) (index : Index String) (visited queue : List String)
    → unexplored index visited + length queue ≤ fuel
    → (found : List String) × (search fuel index visited queue ≡ some found)
unfolding search
search-returns zero index visited [] enough = (visited, refl)
search-returns zero index visited (node ∷ queue) enough = absurd (omega arith)
search-returns (suc fuel) index visited [] enough = (visited, refl)
search-returns (suc fuel) index visited (node ∷ queue) enough =
    elim (Bool-cases (contains visited node)) [
      | inl seen ↦
          rw (seen, search) (search-returns fuel index visited queue (omega (arith, enough)))
      | inr new ↦
          rw (new, search)
            (search-returns fuel index (node ∷ visited) _ (
              omega (
                arith,
                enough,
                unexplored-cons index visited node new,
                length-append queue
                    (filter (λ next. not (contains (node ∷ visited) next)) (under index node)),
                length-filter-le (λ next. not (contains (node ∷ visited) next)) (under index node),
              )))
    ]

module _ (index : Index String) (source : String) where
  -- What holds in every round.
  record IsSearch (visited queue : List String) : Type 0 where
    started : (contains visited source ≡ true) ⊎ (contains queue source ≡ true)
    sound : (v : String) → contains visited v ≡ true → Reaches index source v
    waiting : (v : String) → contains queue v ≡ true → Reaches index source v
    closed :
        (u v : String)
        → contains visited u ≡ true
        → contains (under index u) v ≡ true
        → (contains visited v ≡ true) ⊎ (contains queue v ≡ true)

  IsSearch-seen :
      (visited queue : List String) (node : String)
      → contains visited node ≡ true
      → IsSearch visited (node ∷ queue)
      → IsSearch visited queue
  IsSearch-seen visited queue node seen h = record {
    started = ground (arith, h.started, seen, ==_iff node source);
    sound = h.sound;
    waiting = λ v q. h.waiting v (ground (arith, q));
    closed = λ u v m e. ground (arith, h.closed u v m e, seen, ==_iff node v);
  }

  contains-queued :
      (visited queue : List String) (node v : String)
      → contains
          (queue ++ filter (λ next. not (contains (node ∷ visited) next)) (under index node))
          v
        ≡ (contains queue v || (contains (under index node) v && not (contains (node ∷ visited) v)))
  contains-queued visited queue node v =
      contains-append queue
        (filter (λ next. not (contains (node ∷ visited) next)) (under index node)) v
      ∙ ap (λ b. contains queue v || b)
          (contains-filter_eq (λ next. not (contains (node ∷ visited) next)) (under index node) v)

  IsSearch-new :
      (visited queue : List String) (node : String)
      → IsSearch visited (node ∷ queue)
      → IsSearch
          (node ∷ visited)
          (queue ++ filter (λ next. not (contains (node ∷ visited) next)) (under index node))
  IsSearch-new visited queue node h =
      let reached : Reaches index source node = h.waiting node (ground (arith, ==_refl node)) in
      let queued = contains-queued visited queue node in
      record {
        started = ground (arith, h.started, queued source);
        sound = λ v m. elim (Bool-cases (node == v)) [
          | inl same ↦ rw (← (==_iff node v).0 same) reached
          | inr other ↦ h.sound v (ground (arith, m, other))
        ];
        waiting = λ v q. elim (Bool-cases (contains queue v)) [
          | inl old ↦ h.waiting v (ground (arith, old))
          | inr new ↦ step reached (ground (arith, queued v, new, q))
        ];
        closed = λ u v m e. elim (Bool-cases (node == u)) [
          | inl same ↦
              let edge : contains (under index node) v ≡ true = rw ((==_iff node u).0 same) e in
              ground (arith, queued v, edge)
          | inr other ↦ ground (arith, h.closed u v, queued v, m, e, other)
        ];
      }

  search-IsSearch :
      (fuel : ℕ) (visited queue found : List String)
      → IsSearch visited queue
      → search fuel index visited queue ≡ some found
      → IsSearch found []
  unfolding search
  search-IsSearch zero visited [] found h e = let same : visited ≡ found = cc in rw (← same) h
  search-IsSearch zero visited (node ∷ queue) found h e = ground arith
  search-IsSearch (suc fuel) visited [] found h e = let same : visited ≡ found = cc in rw (← same) h
  search-IsSearch (suc fuel) visited (node ∷ queue) found h e =
      elim (Bool-cases (contains visited node)) [
        | inl seen ↦
            search-IsSearch fuel visited queue found (IsSearch-seen visited queue node seen h)
              (rw (seen, search) at e)
        | inr new ↦
            search-IsSearch fuel (node ∷ visited) _ found (IsSearch-new visited queue node h)
              (rw (new, search) at e)
      ]

  complete :
      (found : List String) {v : String}
      → IsSearch found []
      → Reaches index source v
      → contains found v ≡ true
  complete found h here = ground (arith, h.started)
  complete found h (step {u} {v} walk edge) =
      ground (arith, h.closed u v (complete found h walk) edge)

  IsSearch-start : IsSearch [] (source ∷ [])
  IsSearch-start = record {
    started = inr (ground (arith, ==_refl source));
    sound = λ v m. ground arith;
    waiting = λ v q. elim (Bool-cases (source == v)) [
      | inl same ↦ rw (← (==_iff source v).0 same) here
      | inr other ↦ ground (arith, q, other)
    ];
    closed = λ u v m e. ground arith;
  }

  -- A search ends: within one round more than the index has edges its queue is empty, and what it
  -- has visited by then is what `resolve` gives.
  pub resolve-returns :
      (found : List String) × (search (suc (count_edges index)) index [] (source ∷ []) ≡ some found)
      × (resolve index source ≡ found)
  unfolding resolve
  resolve-returns =
      let (found, e) =
        search-returns (suc (count_edges index)) index [] (source ∷ [])
          (omega (arith, unexplored-none index)) in
      (found, e, rw e refl)

  -- A search finds exactly the sources that a walk along the edges of the index leads to.
  pub resolve_lem :
      (v : String) → (contains (resolve index source) v ≡ true) ↔ Reaches index source v
  resolve_lem v =
      let (found, e, result) = resolve-returns in
      let h = search-IsSearch (suc (count_edges index)) [] (source ∷ []) found IsSearch-start e in
      rw result (λ m. h.sound v m, λ walk. complete found h walk)
