-- ===== src/Notifications/Mirror.antt =====
-- The two indexes of a registry mirror each other, so that a search downstream and one upstream
-- agree.
use skrift.Prelude.{
  ℕ, String, ◌≡◌, refl, sym, ap, ◌∙◌, ◌↔◌, inl, inr, Bool, true, not, ◌&&◌, ◌||◌, Option, none,
  some, List, [], ◌∷◌, arith, BEq, ◌==◌, ==_iff, ==_refl, ℕ_beq, string_beq, if◌then◌else◌,
  Bool-cases, contains, contains-filter_eq,
}
use skrift.Prelude.Dict
use skrift.Notifications.{
  Index, under, set_of, set_add, discard, add_under, keep_set, discard_from, discard_under,
  SourceRegistry, no_sources, subscribe, unsubscribe, discard_child, unsubscribe_all, add_listener,
  remove_listener,
}
use skrift.Notifications.Search.{resolve_downstream, resolve_upstream, Reaches, here, step}
use skrift.Notifications.Reach.{resolve_lem}

and_true : (b : Bool) → (b && true) ≡ b
and_true b = ground arith

module _ {A : Type 0} ⦃same : BEq A⦄ where
  pub contains-set_add :
      (set : List A) (item other : A)
      → contains (set_add set item) other ≡ (item == other || contains set other)
  contains-set_add set item other = elim (Bool-cases (item == other)) [
    | inl equal ↦ rw ((==_iff item other).0 equal) (ground (arith, ==_refl other))
    | inr differ ↦ ground (arith, differ)
  ]

  contains-discard :
      (set : List A) (item other : A)
      → contains (discard set item) other ≡ (contains set other && not (item == other))
  contains-discard set item other = contains-filter_eq (λ x. not (item == x)) set other

  pub under-put :
      (index : Index A) (key : String) (set : List A) (j : String)
      → under (Dict.put index key set) j ≡ (if key == j then set else under index j)
  under-put index key set j = elim (Bool-cases (key == j)) [
    | inl equal ↦ ap set_of (Dict.get-put index key set j) ∙ rw equal refl
    | inr differ ↦ ap set_of (Dict.get-put index key set j) ∙ rw differ refl
  ]

  pub under-remove :
      (index : Index A) (key j : String)
      → under (Dict.remove index key) j ≡ (if key == j then [] else under index j)
  under-remove index key j = elim (Bool-cases (key == j)) [
    | inl equal ↦ ap set_of (Dict.get-remove index key j) ∙ rw equal refl
    | inr differ ↦ ap set_of (Dict.get-remove index key j) ∙ rw differ refl
  ]

  pub under-add_under :
      (index : Index A) (key : String) (item : A) (j : String) (other : A)
      → contains (under (add_under index key item) j) other
        ≡ ((key == j && item == other) || contains (under index j) other)
  unfolding add_under
  under-add_under index key item j other =
      let put =
        ap (λ set. contains set other) (under-put index key (set_add (under index key) item) j) in
      elim (Bool-cases (key == j)) [
        | inl equal ↦
            let merged : under index key ≡ under index j =
              ap (under index) ((==_iff key j).0 equal) in
            put ∙ rw equal (contains-set_add (under index key) item other ∙ rw merged refl)
        | inr differ ↦ put ∙ rw differ refl
      ]

  -- An emptied set is deleted, which reads the same.
  under-keep_set :
      (index : Index A) (key : String) (set : List A) (j : String)
      → under (keep_set index key set) j ≡ (if key == j then set else under index j)
  under-keep_set index key [] j = under-remove index key j
  under-keep_set index key (item ∷ set) j = under-put index key (item ∷ set) j

  under-discard_from :
      (index : Index A) (key : String) (item : A) (found : Option (List A)) (j : String)
      → Dict.get index key ≡ found
      → under (discard_from index key item found) j
        ≡ (if key == j then discard (set_of found) item else under index j)
  under-discard_from index key item none j e = elim (Bool-cases (key == j)) [
    | inl equal ↦ rw equal (rw (← (==_iff key j).0 equal) (ap set_of e))
    | inr differ ↦ rw differ refl
  ]
  under-discard_from index key item (some []) j e = elim (Bool-cases (key == j)) [
    | inl equal ↦ rw equal (rw (← (==_iff key j).0 equal) (ap set_of e))
    | inr differ ↦ rw differ refl
  ]
  under-discard_from index key item (some (first ∷ set)) j e =
      under-keep_set index key (discard (first ∷ set) item) j

  pub under-discard_under :
      (index : Index A) (key : String) (item : A) (j : String) (other : A)
      → contains (under (discard_under index key item) j) other
        ≡ (contains (under index j) other && not (key == j && item == other))
  unfolding discard_under
  under-discard_under index key item j other =
      let left =
        ap (λ set. contains set other)
          (under-discard_from index key item (Dict.get index key) j refl) in
      elim (Bool-cases (key == j)) [
        | inl equal ↦
            let merged : under index key ≡ under index j =
              ap (under index) ((==_iff key j).0 equal) in
            left ∙ rw equal (contains-discard (under index key) item other ∙ rw merged refl)
        | inr differ ↦ left ∙ rw differ (sym (and_true (contains (under index j) other)))
      ]

-- Child `child` is listed as a subscriber of `parent` exactly if `parent` is listed as subscribed.
abbrev pub IsMirrored : SourceRegistry → Type 0
IsMirrored registry =
    (child parent : String)
    → contains (under registry.subscriptions child) parent
      ≡ contains (under registry.subscribers parent) child

pub subscribe-IsMirrored :
    (registry : SourceRegistry) (child parent : String)
    → IsMirrored registry
    → IsMirrored (subscribe registry child parent)
unfolding subscribe
subscribe-IsMirrored registry child parent h c p =
    under-add_under registry.subscriptions child parent c p
    ∙ ground (arith, h c p)
    ∙ sym (under-add_under registry.subscribers parent child p c)

pub unsubscribe-IsMirrored :
    (registry : SourceRegistry) (child parent : String)
    → IsMirrored registry
    → IsMirrored (unsubscribe registry child parent)
unfolding unsubscribe
unsubscribe-IsMirrored registry child parent h c p =
    under-discard_under registry.subscriptions child parent c p
    ∙ ground (arith, h c p)
    ∙ sym (under-discard_under registry.subscribers parent child p c)

under-discard_child :
    (parents : List String) (child : String) (subscribers : Index String) (p c : String)
    → contains (under (discard_child parents child subscribers) p) c
      ≡ (contains (under subscribers p) c && not (contains parents p && child == c))
unfolding discard_child
under-discard_child [] child subscribers p c = sym (and_true (contains (under subscribers p) c))
under-discard_child (parent ∷ parents) child subscribers p c =
    under-discard_child parents child (discard_under subscribers parent child) p c
    ∙ ground (arith, under-discard_under subscribers parent child p c)

pub unsubscribe_all-IsMirrored :
    (registry : SourceRegistry) (child : String)
    → IsMirrored registry
    → IsMirrored (unsubscribe_all registry child)
unfolding unsubscribe_all
unsubscribe_all-IsMirrored registry child h c p =
    ap (λ set. contains set p) (under-remove registry.subscriptions child c)
    ∙ lost
    ∙ sym (under-discard_child (under registry.subscriptions child) child registry.subscribers p c)
  where
    lost : contains (if child == c then [] else under registry.subscriptions c) p ≡ (
        contains (under registry.subscribers p) c
        && not (contains (under registry.subscriptions child) p && child == c))
    lost = elim (Bool-cases (child == c)) [
      | inl equal ↦ rw (← (==_iff child c).0 equal) (ground (arith, h child p, ==_refl child))
      | inr differ ↦ ground (arith, h c p, differ)
    ]

-- A call that changes a registry.
pub data RegistryCall : Type 0 where
  listens ignores : String → ℕ → RegistryCall
  subscribes unsubscribes : String → String → RegistryCall
  leaves : String → RegistryCall

abbrev pub registry_step : SourceRegistry → RegistryCall → SourceRegistry
registry_step registry (listens source_key queue) = add_listener registry source_key queue
registry_step registry (ignores source_key queue) = remove_listener registry source_key queue
registry_step registry (subscribes child parent) = subscribe registry child parent
registry_step registry (unsubscribes child parent) = unsubscribe registry child parent
registry_step registry (leaves child) = unsubscribe_all registry child

unfoldable pub run_registry : SourceRegistry → List RegistryCall → SourceRegistry
run_registry registry [] = registry
run_registry registry (call ∷ calls) = run_registry (registry_step registry call) calls

step-IsMirrored :
    (registry : SourceRegistry) (call : RegistryCall)
    → IsMirrored registry
    → IsMirrored (registry_step registry call)
unfolding add_listener remove_listener
step-IsMirrored registry (listens source_key queue) h = h
step-IsMirrored registry (ignores source_key queue) h = h
step-IsMirrored registry (subscribes child parent) h = subscribe-IsMirrored registry child parent h
step-IsMirrored registry (unsubscribes child parent) h =
    unsubscribe-IsMirrored registry child parent h
step-IsMirrored registry (leaves child) h = unsubscribe_all-IsMirrored registry child h

pub run-IsMirrored :
    (registry : SourceRegistry) (calls : List RegistryCall)
    → IsMirrored registry
    → IsMirrored (run_registry registry calls)
unfolding run_registry
run-IsMirrored registry [] h = h
run-IsMirrored registry (call ∷ calls) h =
    run-IsMirrored (registry_step registry call) calls (step-IsMirrored registry call h)

-- A walk with an edge before it.
behind :
    {index : Index String} {u v w : String}
    → contains (under index u) v ≡ true
    → Reaches index v w
    → Reaches index u w
behind edge here = step here edge
behind edge (step walk last) = step (behind edge walk) last

module _ (index mirror : Index String)
    (h : (a b : String) → contains (under index a) b ≡ contains (under mirror b) a) where
  reversed : {a b : String} → Reaches index a b → Reaches mirror b a
  reversed here = here
  reversed (step {u} {v} walk edge) = behind (sym (h u v) ∙ edge) (reversed walk)

no_sources-IsMirrored : IsMirrored no_sources
unfolding Dict.get
no_sources-IsMirrored c p = refl

-- After any calls on a registry that was empty at first, one source is found downstream of another
-- exactly if that other is found upstream of it.
pub downstream_iff_upstream :
    (calls : List RegistryCall) (a b : String)
    → let registry = run_registry no_sources calls in
      (contains (resolve_downstream registry a) b ≡ true)
      ↔ (contains (resolve_upstream registry b) a ≡ true)
downstream_iff_upstream calls a b =
    let registry = run_registry no_sources calls in
    let h : IsMirrored registry = run-IsMirrored no_sources calls no_sources-IsMirrored in
    let down = resolve_lem registry.subscribers a b in
    let up = resolve_lem registry.subscriptions b a in
    (
      λ m.
          up.1
            (reversed registry.subscribers registry.subscriptions (λ p c. sym (h c p)) (down.0 m)),
      λ m. down.1 (reversed registry.subscriptions registry.subscribers h (up.0 m)),
    )
