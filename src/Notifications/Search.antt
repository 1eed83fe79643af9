-- ===== src/Notifications/Search.antt =====
-- `resolve_downstream` and `resolve_upstream`: a breadth-first search in one of the two indexes.
-- The search has one round for each source that leaves its queue, and one to see the queue empty.
-- A source is queued for an edge out of a source that is visited for the first time, so there are
-- no more rounds than edges and one for the start.
use skrift.Prelude.{
  ℕ, zero, suc, ◌+◌, String, ◌≡◌, true, false, not, Option, none, some, List, [], ◌∷◌, ◌++◌, ℕ_beq,
  string_beq, or_else, contains, length, filter,
}
use skrift.Notifications.{Index, under, SourceRegistry}

-- The `while` loop: `none` if the fuel runs out.
unfoldable pub search : ℕ → Index String → List String → List String → Option (List String)
search fuel index visited [] = some visited
search zero index visited (node ∷ queue) = none
search (suc fuel) index visited (node ∷ queue) = elim (contains visited node) [
  | true ↦ search fuel index visited queue
  | false ↦
      search fuel index (node ∷ visited)
        (queue ++ filter (λ next. not (contains (node ∷ visited) next)) (under index node))
]

abbrev pub count_edges : Index String → ℕ
count_edges [] = 0
count_edges ((key, set) ∷ index) = length set + count_edges index

unfoldable pub resolve : Index String → String → List String
unfolding search
resolve index source_key = or_else (search (suc (count_edges index)) index [] (source_key ∷ [])) []

abbrev pub resolve_downstream : SourceRegistry → String → List String
resolve_downstream registry source_key = resolve registry.subscribers source_key

abbrev pub resolve_upstream : SourceRegistry → String → List String
resolve_upstream registry source_key = resolve registry.subscriptions source_key

-- A walk along the edges of an index.
pub data Reaches (index : Index String) (source : String) : String → Type 0 where
  here : Reaches index source source
  step :
      {u v : String}
      → Reaches index source u
      → contains (under index u) v ≡ true
      → Reaches index source v
