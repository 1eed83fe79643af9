-- ===== src/Workers/Queue/Tests.antt =====
-- Concrete queues, and the theorems about queues at them.
use skrift.Workers.Queue.Submit.{touch}
use skrift.Workers.Queue.Submit.{submit_stored}
use skrift.Prelude.{
  ℕ, suc, ◌+◌, String, ◌≡◌, refl, true, false, none, some, List, [], ◌∷◌, arith, ◌==◌, ==_iff,
  ℕ_beq, string_beq, is_some, ok, raise, length, any, All,
}
use skrift.Prelude.Dict
use skrift.Workers.Job.{JobEnvelope}
use skrift.Workers.Queue.{
  job_id_conflict, invalid_claim_token, QueueEntry, InMemoryQueue, Clock, find, empty,
}
use skrift.Workers.Queue.Claim.{release_expired_claims, claim}
use skrift.Workers.Queue.Settle.{ack, nack, cancel, wake}
use skrift.Workers.Queue.Stats.{stats}
use skrift.Workers.Queue.Submit.{submit}
use skrift.Workers.Queue.Selection.{takeable}
use skrift.Workers.Queue.Steps.{Op, step, run}
use skrift.Workers.Queue.Invariant.{IsValid, IsValid-empty, run-IsValid}
use skrift.Workers.Queue.Lease.{IsLeased, Spares}
use skrift.Workers.Queue.Exclusive.{ack_in_time, claim_excluded, claim_lem, claim_finds}
use skrift.Workers.Queue.Counts.{count, counted, is_delayed, is_claimed, is_dead, stats_counts}
use skrift.Workers.Queue.Resubmit.{submit_again, submit_after_wake}

abbrev job : JobEnvelope ℕ
job = record {
  id = "a";
  job_type = "mail";
  queue = "default";
  payload = 7;
  submitted_at = 0;
  attempt = 0;
  max_attempts = 3;
  visibility_timeout = 30;
  scheduled_for = none;
  ready_since = none;
  correlation_id = none;
  parent_job_id = none;
  replayed_from = none;
  reclaim_count = 0;
  max_reclaims = 3;
  metadata = 0;
}

abbrev other : JobEnvelope ℕ
other = record job { id = "b" }

abbrev noon : Clock
noon n = 100

abbrev later : Clock
later n = 110

-- The queue with two jobs, ready since noon.
abbrev submitted : InMemoryQueue ℕ
submitted = (submit (submit empty job none noon).0 other none noon).0

abbrev taken : InMemoryQueue ℕ
taken = (claim submitted ("mail" ∷ "default" ∷ []) "t1" 30 noon).0

-- Calls of another worker, while the job is leased.
abbrev meanwhile : List (Op ℕ)
meanwhile =
    Op.wake "default" "a" none later
    ∷ Op.ack "default" "a" "t2"
    ∷ Op.cancel "default" "a"
    ∷ Op.submit_stored "default" "a" later
    ∷ Op.stats "default" later
    ∷ []

program : Unit {0}
unfolding submit submit_stored claim ack nack cancel wake stats step run find Dict.get Dict.put
    Dict.remove Dict.map_values
program = tt

submit_test : (submit empty job none noon).1 ≡ ok (record job { ready_since = some 100 })
unfolding program
submit_test = refl

claim_test :
    (claim submitted ("mail" ∷ "default" ∷ []) "t1" 30 noon).1
    ≡ some (record { job = job; token = "t1"; claimed_at = 100 })
unfolding program
claim_test = refl

-- The next claim gets the other job, and a wrong token is refused.
claim-taken_test :
    (claim taken ("default" ∷ []) "t2" 30 later).1
    ≡ some (record { job = other; token = "t2"; claimed_at = 110 })
unfolding program
claim-taken_test = refl

ack_wrong_token_test : (ack taken "default" "a" "t2").1 ≡ raise invalid_claim_token
unfolding program
ack_wrong_token_test = refl

taken-IsValid : IsValid taken
unfolding program
taken-IsValid =
    run-IsValid empty
      (Op.submit job none noon
        ∷ Op.submit other none noon
        ∷ Op.claim ("mail" ∷ "default" ∷ []) "t1" 30 noon
        ∷ [])
      IsValid-empty

submitted-IsValid : IsValid submitted
unfolding program
submitted-IsValid =
    run-IsValid empty (Op.submit job none noon ∷ Op.submit other none noon ∷ []) IsValid-empty

taken-IsLeased : IsLeased taken "default" "a" "t1" 130
unfolding program
taken-IsLeased = record {
  entry = record {
    job = job;
    visible_at = 100;
    claim_token = some "t1";
    claim_expires_at = some 130;
    dead_lettered = false;
  };
  found = refl;
  holder = refl;
  lapses = refl;
  alive = refl;
}

run-IsValid_example : IsValid (run empty (Op.submit job none noon ∷ meanwhile))
run-IsValid_example = run-IsValid empty (Op.submit job none noon ∷ meanwhile) IsValid-empty

meanwhile-Spares : All (Spares "default" "a" "t1" 130) meanwhile
meanwhile-Spares = (tt, ((λ same. string_ne (same.2)), (tt, (tt, (omega arith, tt)))))
  where
    string_ne : ¬ (◌≡◌ {A = String} "t2" "t1")
    string_ne e = cc ((==_iff {A = String} "t2" "t1").1 e)

ack_in_time_example :
    ((ack (run taken meanwhile) "default" "a" "t1").1 ≡ ok tt)
    × (find (ack (run taken meanwhile) "default" "a" "t1").0 "default" "a" ≡ none)
ack_in_time_example =
    ack_in_time taken taken-IsValid meanwhile "default" "a" "t1" 130 taken-IsLeased meanwhile-Spares

claim_excluded_example : ¬ ((◌≡◌ {A = String} "default" "default") × (◌≡◌ {A = String} "b" "a"))
unfolding program
claim_excluded_example =
    claim_excluded taken taken-IsValid meanwhile "default" "a" "t1" 130 taken-IsLeased
      meanwhile-Spares ("default" ∷ []) "t2" 30 later
      (record { job = other; token = "t2"; claimed_at = 110 }) (omega arith) refl

claim_lem_example :
    (n : ℕ) × (before : QueueEntry ℕ) × (any {A = String}
        (λ x. x == "default")
        ("mail" ∷ "default" ∷ [])
      ≡ true)
    × (find (release_expired_claims submitted 100) "default" "a" ≡ some before)
    × (takeable before (noon n) ≡ true)
    × IsLeased taken "default" "a" "t1" (noon (suc n) + 30)
unfolding program
claim_lem_example =
    claim_lem submitted submitted-IsValid ("mail" ∷ "default" ∷ []) "t1" 30 noon
      (record { job = job; token = "t1"; claimed_at = 100 }) refl

claim_finds_example : is_some (claim submitted ("mail" ∷ "default" ∷ []) "t1" 30 noon).1 ≡ true
unfolding program
claim_finds_example =
    claim_finds submitted submitted-IsValid ("mail" ∷ "default" ∷ []) "t1" 30 noon "default" "a"
      (record {
        job = record job { ready_since = some 100 };
        visible_at = 100;
        claim_token = none;
        claim_expires_at = none;
        dead_lettered = false;
      })
      refl refl (λ m. refl)

stats_counts_example :
    ((stats taken "default" later).1.ready
      ≡ count (λ entry. takeable entry (later 0)) (counted taken "default" (later 0)))
    × ((stats taken "default" later).1.delayed
        ≡ count (is_delayed (later 0)) (counted taken "default" (later 0)))
    × ((stats taken "default" later).1.claimed
        ≡ count is_claimed (counted taken "default" (later 0)))
    × ((stats taken "default" later).1.dead_lettered
        ≡ count is_dead (counted taken "default" (later 0)))
    × ((stats taken "default" later).1.ready
          + (stats taken "default" later).1.delayed
          + (stats taken "default" later).1.claimed
          + (stats taken "default" later).1.dead_lettered
        ≡ length (counted taken "default" (later 0)))
stats_counts_example = stats_counts taken "default" later

submit_again_example :
    ((submit (submit empty job (some "a") noon).0 job (some "a") later).1
      ≡ ok (record job { ready_since = some 100 }))
    × ((queue id : String)
        → find (submit (submit empty job (some "a") noon).0 job (some "a") later).0 queue id
          ≡ find (submit empty job (some "a") noon).0 queue id)
unfolding program
submit_again_example = submit_again job "a" empty noon later refl

submit_after_wake_example :
    (submit
      (wake (submit empty job (some "a") noon).0 "default" "a" none later).0
      job
      (some "a")
      later).1
    ≡ raise job_id_conflict
unfolding program
submit_after_wake_example = submit_after_wake job "a" empty noon later later none refl (λ e. cc)

-- Submitted again without a `job_id`, the stored envelope itself is compared, and there is no conflict
-- after a wake-up.
submit_stored_test :
    (submit_stored
      (wake (submit empty job none noon).0 "default" "a" none later).0
      "default"
      "a"
      noon).1
    ≡ some (record job { scheduled_for = some 110 })
unfolding program touch
submit_stored_test = refl
