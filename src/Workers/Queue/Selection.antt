-- ===== src/Workers/Queue/Selection.antt =====
-- Which entry `claim` takes.
use skrift.Prelude.{
  ℕ, suc, ◌+◌, String, ◌≡◌, refl, sym, ◌∙◌, ◌⊎◌, inl, inr, Bool, true, false, not, ◌&&◌, Option,
  none, some, List, [], ◌∷◌, arith, ◌==◌, ==_iff, ==_refl, ℕ_beq, string_beq, leb, Bool-cases,
  Option-cases, is_some, or_else, any,
}
use skrift.Prelude.Dict
use skrift.Prelude.Dict.{Dict, IsDistinct}
use skrift.Workers.Job.{ClaimedJob}
use skrift.Workers.Queue.{QueueEntry, InMemoryQueue, Clock, entries_of, find, store}
use skrift.Workers.Queue.Claim.{claimable, lease, claim_from}

module _ {P : Type 0} where
  -- A worker may take the entry at `now`.
  abbrev pub takeable : QueueEntry P → ℕ → Bool
  takeable entry now =
      not entry.dead_lettered && not (is_some entry.claim_token) && leb entry.visible_at now

  claimable-skip :
      (id : String) (entry : QueueEntry P) (d : Dict String (QueueEntry P)) (now : ℕ)
      → takeable entry now ≡ false
      → claimable ((id, entry) ∷ d) now ≡ claimable d now
  unfolding claimable
  claimable-skip id entry d now h = ground arith

  abbrev ready : QueueEntry P → QueueEntry P
  ready entry = record entry {
    job = record entry.job { ready_since = some (or_else entry.job.ready_since entry.visible_at) };
  }

  claimable-take :
      (id : String) (entry : QueueEntry P) (d : Dict String (QueueEntry P)) (now : ℕ)
      → takeable entry now ≡ true
      → claimable ((id, entry) ∷ d) now ≡ some (id, ready entry)
  unfolding claimable
  claimable-take id entry d now h = ground arith

  claimable_sound :
      (d : Dict String (QueueEntry P)) (now : ℕ) {id : String} {taken : QueueEntry P}
      → IsDistinct d
      → claimable d now ≡ some (id, taken)
      → (entry : QueueEntry P) × (Dict.get d id ≡ some entry)
        × (takeable entry now ≡ true)
        × (taken ≡ ready entry)
  unfolding Dict.get
  claimable_sound [] now h e = unfold claimable in cc
  claimable_sound ((j, entry) ∷ d) now {id} h e = elim (Bool-cases (takeable entry now)) [
    | inl able ↦
        let same = sym (claimable-take j entry d now able) ∙ e in
        let key : j ≡ id = cc in (entry, rw (← key) (Dict.get_head j entry d), able, cc)
    | inr skip ↦
        let (found, there, free, is_ready) =
          claimable_sound d now h.1 (sym (claimable-skip j entry d now skip) ∙ e) in
        (found, Dict.get_behind j id entry d h.0 there, free, is_ready)
  ]

  -- Nothing is passed over: if no entry is chosen, none may be taken.
  claimable_complete :
      (d : Dict String (QueueEntry P)) (now : ℕ) (id : String) (entry : QueueEntry P)
      → claimable d now ≡ none
      → Dict.get d id ≡ some entry
      → takeable entry now ≡ false
  unfolding Dict.get
  claimable_complete [] now id entry e there = cc
  claimable_complete ((j, first) ∷ d) now id entry e there =
      elim (Bool-cases (takeable first now)) [
        | inl able ↦ cc (claimable-take j first d now able)
        | inr skip ↦ elim (Bool-cases (j == id)) [
          | inl same ↦ let is_first : first ≡ entry = ground arith in rw (← is_first) skip
          | inr other ↦
              claimable_complete d now id entry (sym (claimable-skip j first d now skip) ∙ e)
                (rw other at there)
        ]
      ]

  -- No queue lists a job id twice.
  abbrev pub IsKeyed : InMemoryQueue P → Type 0
  IsKeyed q = (queue : String) → IsDistinct (entries_of q queue)

-- The entry that a successful claim takes, as the queue `q` had it.
pub record Taken {P : Type 0} (q : InMemoryQueue P) (queues : List String) (token : String)
    (timeout : ℕ) (clock : Clock) (outcome : InMemoryQueue P × Option (ClaimedJob P)) : Type 0 where
  pub queue : String
  pub id : String
  pub entry : QueueEntry P
  pub reading : ℕ
  pub listed : any (λ x. x == queue) queues ≡ true
  pub found : find q queue id ≡ some entry
  pub free : takeable entry (clock reading) ≡ true
  pub left : outcome.0 ≡ store q queue id (lease token (clock (suc reading) + timeout) entry)
  pub claimed :
      outcome.1
      ≡ some (record {
        job = (lease token (clock (suc reading) + timeout) entry).job;
        token = token;
        claimed_at = clock (suc (suc reading));
      })

module _ {P : Type 0} (q : InMemoryQueue P) (token : String) (timeout : ℕ) (clock : Clock) where
  pub claim_from-cases :
      (queues : List String) (n : ℕ)
      → IsKeyed q
      → (claim_from q queues token timeout clock n ≡ (q, none))
        ⊎ Taken q queues token timeout clock (claim_from q queues token timeout clock n)
  unfolding claim_from find lease
  claim_from-cases [] n keyed = inl refl
  claim_from-cases (queue ∷ queues) n keyed =
      elim (Option-cases (claimable (entries_of q queue) (clock n))) [
        | inl nothing ↦ elim (claim_from-cases queues (suc n) keyed) [
          | inl same ↦ inl (rw (nothing, claim_from) same)
          | inr t ↦ inr (
              rw (nothing, claim_from)
                (record {
                  queue = t.queue;
                  id = t.id;
                  entry = t.entry;
                  reading = t.reading;
                  listed = ground (arith, t.listed);
                  found = t.found;
                  free = t.free;
                  left = t.left;
                  claimed = t.claimed;
                }))
        ]
        | inr ((id, taken), chosen) ↦
            let (entry, there, free, is_ready) =
              claimable_sound (entries_of q queue) (clock n) (keyed queue) chosen in
            inr (
              rw (chosen, is_ready, claim_from)
                (record {
                  queue = queue;
                  id = id;
                  entry = entry;
                  reading = n;
                  listed = rw (==_refl queue) refl;
                  found = there;
                  free = free;
                  left = refl;
                  claimed = refl;
                }))
      ]

  -- A queue with an entry that may be taken at every reading is not passed over.
  pub claim_from-finds :
      (queues : List String) (n : ℕ) (queue id : String) (entry : QueueEntry P)
      → any (λ x. x == queue) queues ≡ true
      → find q queue id ≡ some entry
      → ((m : ℕ) → takeable entry (clock m) ≡ true)
      → is_some (claim_from q queues token timeout clock n).1 ≡ true
  unfolding claim_from find
  claim_from-finds [] n queue id entry listed found free = cc
  claim_from-finds (first ∷ queues) n queue id entry listed found free =
      elim (Option-cases (claimable (entries_of q first) (clock n))) [
        | inl nothing ↦ elim (Bool-cases (first == queue)) [
          | inl same ↦ cc (
            free n,
            claimable_complete (entries_of q first) (clock n) id entry nothing
                (rw ((==_iff first queue).0 same) found),
          )
          | inr other ↦
              rw (nothing, claim_from)
                (claim_from-finds queues (suc n) queue id entry (rw other at listed) found free)
        ]
        | inr ((id', taken), chosen) ↦ rw (chosen, claim_from) refl
      ]
