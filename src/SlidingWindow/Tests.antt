-- ===== src/SlidingWindow/Tests.antt =====
-- A counter of calls, and the theorems about it at that counter.
use skrift.Prelude.{
  ℕ, ◌≤◌, String, ◌≡◌, refl, List, [], ◌∷◌, arith, ℕ_beq, string_beq, length, filter,
}
use skrift.SlidingWindow.Counter.{SlidingWindowCounter, check_and_record}
use skrift.SlidingWindow.{within}
use skrift.Prelude.Dict
use skrift.SlidingWindow.Single.{serve, serve-within_limit}

abbrev counter : SlidingWindowCounter
counter = record {
  window = 10;
  buckets = [];
  multi_buckets = [];
  last_cleanup = 0;
  cleanup_interval = 60;
}

abbrev calls : List (String × ℕ)
calls = ("a", 1) ∷ ("a", 2) ∷ ("b", 2) ∷ ("a", 3) ∷ ("a", 12) ∷ []

serve_test : (serve counter "a" 2 calls []).1 ≡ 1 ∷ 2 ∷ 12 ∷ []
unfolding serve check_and_record Dict.get Dict.put
serve_test = refl

serve-within_limit_example : length (filter (within 12 10) (serve counter "a" 2 calls []).1) ≤ 2
serve-within_limit_example =
    serve-within_limit counter "a" 2 0 calls 12 refl
      (omega arith, (omega arith, (omega arith, (omega arith, (omega arith, tt))))) (omega arith)
