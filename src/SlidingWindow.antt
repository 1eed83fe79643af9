-- ===== src/SlidingWindow.antt =====
-- skrift/lib/sliding_window.py: `InMemorySlidingWindowCounter` and `_MultiWindowHistory`.
-- Times and windows, floats of seconds in the source, are whole microseconds, and `now` is what
-- `time.monotonic()` returns in the call. A comparison with a cutoff `now - window`, which may lie
-- below zero, is written with the window on the other side. A limit below zero counts as zero.
pub mod Counter
pub mod Single
mod Tests
use skrift.Prelude.{◌>>=◌}
use skrift.Prelude.{
  ℕ, zero, suc, ◌+◌, ◌-◌, ◌/◌, ◌%◌, max, Bool, true, false, ◌&&◌, Option, none, some, List, [], ◌∷◌,
  ◌++◌, ℕ_beq, string_beq, ltb, leb, eqb, if◌then◌else◌, Result, ok, raise, length, filter,
}
use skrift.Prelude.Dict
use skrift.Prelude.Dict.{Dict}

pub data WindowError : Type 0 where
  index_error : WindowError

abbrev pub second : ℕ
second = 1_000_000

abbrev pub coarse_window_threshold : ℕ
coarse_window_threshold = 900_000_000

abbrev pub coarse_bucket_seconds : ℕ
coarse_bucket_seconds = 60_000_000

-- `t > now - window`
abbrev pub within : ℕ → ℕ → ℕ → Bool
within now window t = ltb now (t + window)

-- `max(int(deadline - cutoff) + 1, 1)`, for a deadline that is not before the cutoff
abbrev pub wait_until : ℕ → ℕ → ℕ → ℕ
wait_until deadline window now = (deadline + window - now) / second + 1

-- A bucket is its start and its hits.
abbrev pub Bucket : Type 0
Bucket = ℕ × ℕ

abbrev pub bucket_within : ℕ → ℕ → Bucket → Bool
bucket_within now window bucket = ltb now (bucket.0 + coarse_bucket_seconds + window)

abbrev pub sum_counts : List Bucket → ℕ
sum_counts [] = 0
sum_counts (b ∷ bs) = b.1 + sum_counts bs

pub record MultiWindowHistory : Type 0 where
  pub hits : List ℕ
  pub coarse_buckets : List Bucket
  pub fine_horizon : ℕ
  pub retention : ℕ
  -- `none` is minus infinity
  pub last_untracked_hit : Option ℕ

abbrev pub new_history : MultiWindowHistory
new_history = record {
  hits = [];
  coarse_buckets = [];
  fine_horizon = 0;
  retention = 0;
  last_untracked_hit = none;
}

abbrev pub is_empty : MultiWindowHistory → Bool
is_empty h = elim h.hits [
  | [] ↦ elim h.coarse_buckets [ [] ↦ true | _ ∷ _ ↦ false ]
  | _ ∷ _ ↦ false
]

unfoldable pub observe : MultiWindowHistory → List ℕ → MultiWindowHistory
observe h [] = h
observe h (window ∷ windows) =
    observe
      (record h {
        retention = max h.retention window;
        fine_horizon =
            if leb window coarse_window_threshold
            then max h.fine_horizon window
            else h.fine_horizon;
      })
      windows

-- The hits are filtered only if the first of them is too old, and so are the buckets.
unfoldable pub prune_hits : ℕ → ℕ → List ℕ → List ℕ
prune_hits now horizon [] = []
prune_hits now horizon (hit ∷ hits) =
    if within now horizon hit then hit ∷ hits else filter (within now horizon) (hit ∷ hits)

unfoldable pub prune_buckets : ℕ → ℕ → List Bucket → List Bucket
prune_buckets now retention [] = []
prune_buckets now retention (b ∷ bs) =
    if bucket_within now retention b then b ∷ bs else filter (bucket_within now retention) (b ∷ bs)

unfoldable pub prune : MultiWindowHistory → ℕ → MultiWindowHistory
unfolding prune_hits prune_buckets
prune h now = record h {
  hits = prune_hits now h.fine_horizon h.hits;
  coarse_buckets = prune_buckets now h.retention h.coarse_buckets;
}

-- The hit goes to the last bucket if that is its own, and to a new one otherwise.
unfoldable pub add_to_bucket : ℕ → List Bucket → List Bucket
add_to_bucket start [] = (start, 1) ∷ []
add_to_bucket start (b ∷ []) = if eqb b.0 start then (b.0, b.1 + 1) ∷ [] else b ∷ (start, 1) ∷ []
add_to_bucket start (b ∷ c ∷ bs) = b ∷ add_to_bucket start (c ∷ bs)

-- `if self._retention <= COARSE_WINDOW_THRESHOLD and self._fine_horizon > 0`
abbrev pub only_fine : MultiWindowHistory → Bool
only_fine h = leb h.retention coarse_window_threshold && ltb 0 h.fine_horizon

unfoldable pub record_hit : MultiWindowHistory → ℕ → MultiWindowHistory
unfolding add_to_bucket
record_hit h now = record h {
  hits = if ltb 0 h.fine_horizon then h.hits ++ now ∷ [] else h.hits;
  last_untracked_hit = if ltb 0 h.fine_horizon then h.last_untracked_hit else some now;
  coarse_buckets =
      if only_fine h
      then h.coarse_buckets
      else add_to_bucket (now - now % coarse_bucket_seconds) h.coarse_buckets;
}

-- `self._last_untracked_hit <= now - window`
abbrev pub untracked_before : Option ℕ → ℕ → ℕ → Bool
untracked_before none window now = true
untracked_before (some hit) window now = leb (hit + window) now

unfoldable pub counts_exactly : MultiWindowHistory → ℕ → ℕ → Bool
counts_exactly h window now =
    leb window coarse_window_threshold && untracked_before h.last_untracked_hit window now

-- The loop that sheds buckets, oldest first, until the excess is gone.
unfoldable pub shed_deadline : ℕ → ℕ → ℕ → List Bucket → ℕ
shed_deadline excess shed deadline [] = deadline
shed_deadline excess shed deadline (b ∷ bs) =
    let later = shed_deadline excess (shed + b.1) deadline bs in
    if leb excess (shed + b.1) then b.0 + coarse_bucket_seconds else later

-- `xs[i]`, which raises out of range
abbrev pub at_index : List ℕ → ℕ → Result WindowError ℕ
at_index [] i = raise index_error
at_index (x ∷ xs) zero = ok x
at_index (x ∷ xs) (suc i) = at_index xs i

abbrev pub last_bucket : List Bucket → Result WindowError Bucket
last_bucket [] = raise index_error
last_bucket (b ∷ []) = ok b
last_bucket (b ∷ c ∷ bs) = last_bucket (c ∷ bs)

unfoldable pub retry_after_exact : ℕ → ℕ → ℕ → List ℕ → Result WindowError ℕ
retry_after_exact limit window now hits =
    let in_window = filter (within now window) hits in
    if ltb (length in_window) limit then ok 0 else do
      deadline ← at_index in_window (length in_window - limit)
      ok (wait_until deadline window now)

unfoldable pub retry_after_coarse : ℕ → ℕ → ℕ → List Bucket → Result WindowError ℕ
unfolding shed_deadline
retry_after_coarse limit window now buckets =
    let in_window = filter (bucket_within now window) buckets in
    let total = sum_counts in_window in
    if ltb total limit then ok 0 else do
      last ← last_bucket in_window
      let deadline = shed_deadline (total - limit + 1) 0 (last.0 + coarse_bucket_seconds) in_window
      ok (wait_until deadline window now)

unfoldable pub retry_after_for : MultiWindowHistory → ℕ → ℕ → ℕ → Result WindowError ℕ
unfolding counts_exactly retry_after_exact retry_after_coarse
retry_after_for h limit window now =
    if leb limit 0
    then ok (window / second + 1)
    else if counts_exactly h window now
    then retry_after_exact limit window now h.hits
    else retry_after_coarse limit window now h.coarse_buckets
