-- ===== src/SlidingWindow/Single.antt =====
-- The single-window limit, over any sequence of calls.
use skrift.Prelude.{
  ℕ, ◌+◌, ◌≤◌, ◌<◌, String, ◌≡◌, refl, sym, ap, ◌∙◌, ◌⊎◌, inl, inr, Bool, true, false, ◌&&◌, Option,
  none, some, List, [], ◌∷◌, ◌++◌, arith, ◌==◌, ==_iff, ℕ_beq, string_beq, ltb, if◌then◌else◌,
  Bool-cases, or_else, Result, ok, raise, length, filter, length-append, length-filter-le,
  filter-append, if_rule, if_rule,
}
use mathlib.Core.Option
use skrift.Prelude.Dict
use skrift.Prelude.Dict.{Dict, IsDistinct}
use skrift.SlidingWindow.{WindowError, within}
use skrift.SlidingWindow.Counter.{
  SlidingWindowCounter, has_hits, cleanup_stale, hits_of, with_hits, admit, check_and_record,
}

-- Filtering twice, first with the earlier time, is filtering once.
pub within-within :
    (now later window : ℕ) (hits : List ℕ)
    → now ≤ later
    → filter (within later window) (filter (within now window) hits)
      ≡ filter (within later window) hits
within-within now later window [] h = refl
within-within now later window (t ∷ hits) h = ground (arith, within-within now later window hits h)

-- The hits in the window, as they are from `now` on, are those of `granted`.
abbrev Agrees : ℕ → ℕ → List ℕ → List ℕ → Type 0
Agrees window now hits granted =
    (later : ℕ)
    → now ≤ later
    → filter (within later window) hits ≡ filter (within later window) granted

-- The hits of a key, as a cleanup leaves them.
swept :
    (o : Option (List ℕ)) (now later window : ℕ)
    → now ≤ later
    → filter
        (within later window)
        (or_else (Dict.when has_hits (Option.map (filter (within now window)) o)) [])
      ≡ filter (within later window) (or_else o [])
swept none now later window h = refl
swept (some hits) now later window h =
    elim (Bool-cases (has_hits (filter (within now window) hits))) [
      | inl kept ↦ rw kept (within-within now later window hits h)
      | inr gone ↦ rw gone (rw (no_hits _ gone) at (within-within now later window hits h))
    ]
  where
    no_hits : (l : List ℕ) → has_hits l ≡ false → l ≡ []
    no_hits [] e = refl
    no_hits (x ∷ l) e = absurd (cc)

pub cleanup-hits :
    (c : SlidingWindowCounter) (key : String) (now later : ℕ)
    → IsDistinct c.buckets
    → now ≤ later
    → filter (within later c.window) (hits_of (cleanup_stale c now) key)
      ≡ filter (within later c.window) (hits_of c key)
unfolding cleanup_stale
cleanup-hits c key now later d h =
    elim (Bool-cases (ltb now (c.last_cleanup + c.cleanup_interval))) [
      | inl early ↦ rw (early, cleanup_stale) refl
      | inr due ↦
          rw (due, cleanup_stale)
            (rw
              (
                Dict.get-keep has_hits (Dict.map_values (filter (within now c.window)) c.buckets)
                    key (Dict.map_values-IsDistinct (filter (within now c.window)) c.buckets d),
                Dict.get-map_values,
              )
              (swept (Dict.get c.buckets key) now later c.window h))
    ]

cleanup-IsDistinct :
    (c : SlidingWindowCounter) (now : ℕ)
    → IsDistinct c.buckets
    → IsDistinct (cleanup_stale c now).buckets
unfolding cleanup_stale
cleanup-IsDistinct c now d =
    if_rule (λ (x : SlidingWindowCounter). IsDistinct x.buckets)
      (ltb now (c.last_cleanup + c.cleanup_interval)) d
      (Dict.keep-IsDistinct has_hits (Dict.map_values (filter (within now c.window)) c.buckets)
        (Dict.map_values-IsDistinct (filter (within now c.window)) c.buckets d))

cleanup-window : (c : SlidingWindowCounter) (now : ℕ) → (cleanup_stale c now).window ≡ c.window
unfolding cleanup_stale
cleanup-window c now = ground arith

abbrev is_allowed : Result WindowError (Bool × ℕ) → Bool
is_allowed (ok (allowed, _)) = allowed
is_allowed (raise err) = false

-- A sequence of calls with one limit, and the times at which hits of `key` were let through.
unfoldable pub serve :
    SlidingWindowCounter → String → ℕ → List (String × ℕ) → List ℕ → SlidingWindowCounter × List ℕ
unfolding check_and_record
serve c key limit [] granted = (c, granted)
serve c key limit ((k, now) ∷ calls) granted =
    let (c', outcome) = check_and_record c k limit now in
    serve c' key limit calls
      (if k == key && is_allowed outcome then granted ++ now ∷ [] else granted)

-- The clock does not run backwards.
abbrev pub Ordered : ℕ → List (String × ℕ) → Type 0
Ordered t [] = Unit
Ordered t ((k, now) ∷ calls) = (t ≤ now) × Ordered now calls

abbrev pub last_time : ℕ → List (String × ℕ) → ℕ
last_time t [] = t
last_time t ((k, now) ∷ calls) = last_time now calls

record Keeps (c : SlidingWindowCounter) (key : String) (limit window t : ℕ) (granted : List ℕ)
    : Type 0 where
  distinct : IsDistinct c.buckets
  same_window : c.window ≡ window
  agrees : Agrees window t (hits_of c key) granted
  bounded : (later : ℕ) → t ≤ later → length (filter (within later window) granted) ≤ limit

admit-cases :
    (limit window now : ℕ) (hits : List ℕ)
    → ((length hits < limit)
        × ((admit limit window now hits).0 ≡ hits ++ now ∷ [])
        × (is_allowed (admit limit window now hits).1 ≡ true))
      ⊎ ((limit ≤ length hits)
          × ((admit limit window now hits).0 ≡ hits)
          × (is_allowed (admit limit window now hits).1 ≡ false))
unfolding admit
admit-cases limit window now [] = ground arith
admit-cases limit window now (t ∷ hits) = ground arith

hits_of-with_hits :
    (c : SlidingWindowCounter) (k key : String) (hits : List ℕ)
    → hits_of (with_hits c k hits) key ≡ (if k == key then hits else hits_of c key)
hits_of-with_hits c k key hits = ground (arith, Dict.get-put c.buckets k hits key)

-- One hit more, for the agreement and for the bound.
Agrees-snoc :
    (window now : ℕ) (hits granted : List ℕ)
    → Agrees window now hits granted
    → Agrees window now (hits ++ now ∷ []) (granted ++ now ∷ [])
Agrees-snoc window now hits granted v later h =
    filter-append (within later window) hits (now ∷ [])
    ∙ ap (λ (l : List ℕ). l ++ filter (within later window) (now ∷ [])) (v later h)
    ∙ sym (filter-append (within later window) granted (now ∷ []))

bounded-snoc :
    (window now limit : ℕ) (hits granted : List ℕ)
    → Agrees window now hits granted
    → length hits < limit
    → (later : ℕ) → now ≤ later
    → length (filter (within later window) (granted ++ now ∷ [])) ≤ limit
bounded-snoc window now limit hits granted v room later h =
    rw (← Agrees-snoc window now hits granted v later h) (
      omega (
        arith,
        length-filter-le (within later window) (hits ++ now ∷ []),
        length-append hits (now ∷ []),
      ))

step-Keeps :
    (c : SlidingWindowCounter) (key : String) (limit window t now : ℕ) (k : String)
    (granted : List ℕ)
    → t ≤ now
    → Keeps c key limit window t granted
    → Keeps (check_and_record c k limit now).0 key limit window now (
        if k == key && is_allowed (check_and_record c k limit now).1
        then granted ++ now ∷ []
        else granted)
unfolding check_and_record
step-Keeps c key limit window t now k granted h v =
    let c' = cleanup_stale c now in
    let same : c'.window ≡ window = cleanup-window c now ∙ v.same_window in
    let kept = filter (within now c'.window) (hits_of c' k) in
    let d = cleanup-IsDistinct c now v.distinct in
    let swept_agrees : Agrees window now (hits_of c' key) granted = λ later g.
      rw (← v.same_window) (
        cleanup-hits c key now later v.distinct g
        ∙ rw v.same_window (v.agrees later (omega arith))) in
    let kept_agrees : k ≡ key → Agrees window now kept granted = λ e later g.
      rw (e, same) (within-within now later window (hits_of c' key) g ∙ swept_agrees later g) in
    elim (Bool-cases (k == key)) [
      | inr other ↦ rw other (record {
        distinct = Dict.put-IsDistinct c'.buckets k _ d;
        same_window = same;
        agrees = λ later g.
            rw (hits_of-with_hits c' k key (admit limit c'.window now kept).0)
              (rw other (swept_agrees later g));
        bounded = λ later g. v.bounded later (omega arith);
      })
      | inl mine ↦ elim (admit-cases limit c'.window now kept) [
        | inl (room, hits, allowed) ↦
            rw (mine, allowed)
              (record {
                distinct = Dict.put-IsDistinct c'.buckets k _ d;
                same_window = same;
                agrees = λ later g.
                    rw (hits_of-with_hits c' k key (admit limit c'.window now kept).0) (
                      rw (mine, hits)
                        (Agrees-snoc window now kept granted (kept_agrees ((==_iff k key).0 mine))
                          later g));
                bounded =
                    bounded-snoc window now limit kept granted (kept_agrees ((==_iff k key).0 mine))
                      room;
              })
        | inr (full, hits, denied) ↦
            rw (mine, denied)
              (record {
                distinct = Dict.put-IsDistinct c'.buckets k _ d;
                same_window = same;
                agrees = λ later g.
                    rw (hits_of-with_hits c' k key (admit limit c'.window now kept).0)
                      (rw (mine, hits) (kept_agrees ((==_iff k key).0 mine) later g));
                bounded = λ later g. v.bounded later (omega arith);
              })
      ]
    ]

serve-Keeps :
    (key : String) (limit window : ℕ) (calls : List (String × ℕ)) (c : SlidingWindowCounter) (t : ℕ)
    (granted : List ℕ)
    → Ordered t calls
    → Keeps c key limit window t granted
    → Keeps
        (serve c key limit calls granted).0
        key
        limit
        window
        (last_time t calls)
        (serve c key limit calls granted).1
unfolding serve
serve-Keeps key limit window [] c t granted o v = v
serve-Keeps key limit window ((k, now) ∷ calls) c t granted o v =
    serve-Keeps key limit window calls _ now _ o.1
      (step-Keeps c key limit window t now k granted o.0 v)

-- From a counter without hits, after any calls of `check_and_record` with one limit, for any keys
-- and with a clock that does not run backwards, at no later time are more hits of a key in the
-- trailing window than the limit among those that were let through.
pub serve-within_limit :
    (c : SlidingWindowCounter) (key : String) (limit t : ℕ) (calls : List (String × ℕ)) (later : ℕ)
    → c.buckets ≡ []
    → Ordered t calls
    → last_time t calls ≤ later
    → length (filter (within later c.window) (serve c key limit calls []).1) ≤ limit
serve-within_limit c key limit t calls later empty o h =
    (serve-Keeps key limit c.window calls c t [] o (record {
      distinct = rw empty tt;
      same_window = refl;
      agrees = λ l g. unfold Dict.get in rw empty refl;
      bounded = λ l g. omega arith;
    })).bounded
      later h
