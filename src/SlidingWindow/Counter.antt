-- ===== src/SlidingWindow/Counter.antt =====
-- `InMemorySlidingWindowCounter`: the methods, each with the one reading of the clock that it
-- makes. A method returns the new state beside its result.
use skrift.Prelude.{
  ℕ, ◌+◌, max, String, Bool, true, false, not, Option, none, some, List, [], ◌∷◌, ◌++◌, map, ℕ_beq,
  string_beq, ltb, leb, eqb, if◌then◌else◌, or_else, Result, ok, raise, ◌>>=◌, length, filter,
}
use skrift.Prelude.Dict
use skrift.Prelude.Dict.{Dict}
use skrift.SlidingWindow.{
  WindowError, index_error, within, wait_until, MultiWindowHistory, new_history, is_empty, observe,
  prune, record_hit, retry_after_for,
}

pub record SlidingWindowCounter : Type 0 where
  pub window : ℕ
  pub buckets : Dict String (List ℕ)
  pub multi_buckets : Dict String MultiWindowHistory
  pub last_cleanup : ℕ
  pub cleanup_interval : ℕ

abbrev pub has_hits : List ℕ → Bool
has_hits [] = false
has_hits (_ ∷ _) = true

unfoldable pub cleanup_stale : SlidingWindowCounter → ℕ → SlidingWindowCounter
unfolding prune
cleanup_stale c now = if ltb now (c.last_cleanup + c.cleanup_interval) then c else record c {
  last_cleanup = now;
  buckets = Dict.keep has_hits (Dict.map_values (filter (within now c.window)) c.buckets);
  multi_buckets =
      Dict.keep (λ h. not (is_empty h)) (Dict.map_values (λ h. prune h now) c.multi_buckets);
}

-- `self._buckets.get(key)`, where no entry counts as an empty one
abbrev pub hits_of : SlidingWindowCounter → String → List ℕ
hits_of c key = or_else (Dict.get c.buckets key) []

abbrev pub with_hits : SlidingWindowCounter → String → List ℕ → SlidingWindowCounter
with_hits c key hits = record c { buckets = Dict.put c.buckets key hits }

unfoldable pub record_call : SlidingWindowCounter → String → ℕ → SlidingWindowCounter
unfolding cleanup_stale
record_call c key now =
    let c' = cleanup_stale c now in with_hits c' key (hits_of c' key ++ now ∷ [])

unfoldable pub count : SlidingWindowCounter → String → ℕ → SlidingWindowCounter × ℕ
unfolding cleanup_stale
count c key now =
    let c' = cleanup_stale c now in
    let kept = filter (within now c'.window) (hits_of c' key) in
    if has_hits (hits_of c' key) then (with_hits c' key kept, length kept) else (c', 0)

-- The decision of `check_and_record` on the hits in the window. With a limit of zero and no hit,
-- `self._buckets[key][0]` raises.
unfoldable pub admit : ℕ → ℕ → ℕ → List ℕ → List ℕ × Result WindowError (Bool × ℕ)
admit limit window now hits =
    if leb limit (length hits)
    then elim hits [
      | [] ↦ ([], raise index_error)
      | oldest ∷ others ↦ (oldest ∷ others, ok (false, max (wait_until oldest window now) 1))
    ]
    else (hits ++ now ∷ [], ok (true, 0))

unfoldable pub check_and_record :
    SlidingWindowCounter → String → ℕ → ℕ → SlidingWindowCounter × Result WindowError (Bool × ℕ)
unfolding cleanup_stale admit
check_and_record c key limit now =
    let c' = cleanup_stale c now in
    let (hits, outcome) =
      admit limit c'.window now (filter (within now c'.window) (hits_of c' key)) in
    (with_hits c' key hits, outcome)

-- `max` over the `(limit, window)` pairs
unfoldable pub longest_retry : MultiWindowHistory → List (ℕ × ℕ) → ℕ → ℕ → Result WindowError ℕ
unfolding retry_after_for
longest_retry h [] now retry_after = ok retry_after
longest_retry h ((limit, window) ∷ limits) now retry_after = do
  r ← retry_after_for h limit window now
  longest_retry h limits now (max retry_after r)

abbrev pub windows_of : List (ℕ × ℕ) → List ℕ
windows_of = map (λ l. l.1)

-- What a call of `check_and_record_multi` makes of the history of its key: the history that it
-- keeps, if any, and its answer.
unfoldable pub admit_multi :
    MultiWindowHistory
    → List (ℕ × ℕ)
    → ℕ
    → Option MultiWindowHistory × Result WindowError (Bool × ℕ)
unfolding observe prune longest_retry record_hit
admit_multi h limits now =
    let h' = prune (observe h (windows_of limits)) now in
    elim (longest_retry h' limits now 0) [
      | raise err ↦ (some h', raise err)
      | ok retry_after ↦
          if eqb retry_after 0
          then (some (record_hit h' now), ok (true, 0))
          else (if is_empty h' then none else some h', ok (false, max retry_after 1))
    ]

abbrev pub with_history :
    SlidingWindowCounter → String → Option MultiWindowHistory → SlidingWindowCounter
with_history c key none = record c { multi_buckets = Dict.remove c.multi_buckets key }
with_history c key (some h) = record c { multi_buckets = Dict.put c.multi_buckets key h }

unfoldable pub check_and_record_multi :
    SlidingWindowCounter
    → String
    → List (ℕ × ℕ)
    → ℕ
    → SlidingWindowCounter × Result WindowError (Bool × ℕ)
unfolding cleanup_stale admit_multi
check_and_record_multi c key [] now = (c, ok (true, 0))
check_and_record_multi c key (limit ∷ limits) now =
    let c' = cleanup_stale c now in
    let (h, outcome) =
      admit_multi (or_else (Dict.get c'.multi_buckets key) new_history) (limit ∷ limits) now in
    (with_history c' key h, outcome)
