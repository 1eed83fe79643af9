-- ===== src/Workers/Runtime/Inline.antt =====
-- An inline run ends, and what it leaves of the job.
use skrift.Prelude.{
  ℕ, zero, suc, ◌+◌, ◌-◌, ◌≤◌, ◌<◌, String, ◌≡◌, refl, ap, ◌∙◌, ◌⊎◌, inl, inr, Bool, true, false,
  ◌||◌, Option, some, List, [], arith, ℕ_beq, string_beq, leb, Bool-cases, ok, length,
}
use skrift.Prelude.Dict
use skrift.Prelude.Text.{text_beq}
use skrift.Workers.Job.{JobEnvelope, ClaimedJob}
use skrift.Workers.DeadLetter.{DeadLetterCause, reclaim_loop, DeadJobAttempt, DeadJobEntry}
use skrift.Workers.Runtime.{
  interrupted, job_key, JobState, Outcome, returned, asked, raised_permanent, raised,
  HandlerDescriptor, Environment, Runtime, get_job_state, call_dead_callback, dead_letter,
}
use skrift.Workers.Runtime.Execute.{
  Next, done, again, dead_letter_claim, failure_cause, handle_failure, conclude_failure, follow,
  start_claim, run_claim, execute_once, execute_claim,
}
use skrift.Workers.Runtime.Ended.{
  IsEnded, IsRunning, is_unfinished, renamed, one_attempt, dead_letter-IsEnded, get_job_state-live,
  start_claim-IsRunning, complete_claim-IsEnded,
}

module _ {P : Type 0} (env : Environment P) where
  module _ (descriptor : HandlerDescriptor P)
      (calm : (entry : DeadJobEntry P)
        → call_dead_callback env (some descriptor) entry ≡ ok tt) where
    dead_letter-ok :
        (r : Runtime P) (job : JobEnvelope P) (cause : DeadLetterCause)
        (attempts : List (DeadJobAttempt P)) (error : String)
        → env.handlers job.job_type ≡ some descriptor
        → (dead_letter env r job cause attempts error).1 ≡ ok tt
    unfolding dead_letter
    dead_letter-ok r job cause attempts error known = rw known (calm _)

    -- An attempt fails: the job is dead-lettered, or it is tried again with the same envelope.
    abbrev pub IsTried : ClaimedJob P → Runtime P × Next P → Type 0
    IsTried claimed x =
        ((x.1 ≡ done (ok tt)) × IsEnded claimed.job.id x.0)
        ⊎ ((claimed.job.attempt < claimed.job.max_attempts)
            × ((claimed' : ClaimedJob P) × (x.1 ≡ again claimed') × (claimed'.job ≡ claimed.job)))

    conclude_failure-IsTried :
        (r : Runtime P) (claimed : ClaimedJob P) (error : String)
        (attempts : List (DeadJobAttempt P)) (permanent : Bool)
        → length attempts ≤ 1
        → env.handlers claimed.job.job_type ≡ some descriptor
        → IsTried claimed (conclude_failure env true r claimed descriptor error attempts permanent)
    unfolding conclude_failure
    conclude_failure-IsTried r claimed error attempts permanent few known =
        elim (Bool-cases (permanent || leb claimed.job.max_attempts claimed.job.attempt)) [
          | inl last ↦
              rw (last, conclude_failure)
                (inl (
                  ap done
                      (dead_letter-ok r claimed.job (failure_cause permanent) attempts error known),
                  dead_letter-IsEnded env r claimed.job (failure_cause permanent) attempts error
                      few,
                ))
          | inr more ↦ rw (more, conclude_failure) (inr (ground (arith, more), (_, refl, refl)))
        ]

    handle_failure-IsTried :
        (r : Runtime P) (claimed : ClaimedJob P) (exception_type text : String) (started_at : ℕ)
        (permanent : Bool)
        → IsRunning claimed.job.id r
        → env.handlers claimed.job.job_type ≡ some descriptor
        → IsTried claimed
            (handle_failure env true r claimed descriptor exception_type text started_at permanent)
    unfolding handle_failure
    handle_failure-IsTried r claimed exception_type text started_at permanent
          (v, there, live, empty) known =
        let x = get_job_state env (record r { ticks = suc r.ticks }) claimed.job.id in
        let found : x.1 ≡ some v.value =
          ap (λ (y : Runtime P × Option (JobState P)). y.1)
            (get_job_state-live env (record r { ticks = suc r.ticks }) claimed.job.id v there
              live) in
        conclude_failure-IsTried _ claimed _ _ permanent (one_attempt x.1 v.value _ found empty)
          known

    follow-IsTried :
        (far : ℕ) (r : Runtime P) (claimed : ClaimedJob P) (started_at : ℕ) (outcome : Outcome P)
        → is_unfinished outcome ≡ false
        → IsRunning claimed.job.id r
        → env.handlers claimed.job.job_type ≡ some descriptor
        → IsTried claimed (follow env far true r claimed descriptor started_at outcome)
    unfolding follow
    follow-IsTried far r claimed started_at (returned result) calls h known =
        inl (complete_claim-IsEnded env r claimed result)
    follow-IsTried far r claimed started_at (asked pause) calls h known = ground arith
    follow-IsTried far r claimed started_at interrupted calls h known = ground arith
    follow-IsTried far r claimed started_at (raised_permanent exception_type text) calls h known =
        handle_failure-IsTried r claimed exception_type text started_at true h known
    follow-IsTried far r claimed started_at (raised exception_type text) calls h known =
        handle_failure-IsTried r claimed exception_type text started_at false h known

    get_job_state-IsRunning :
        (r : Runtime P) (id : String) → IsRunning id r → IsRunning id (get_job_state env r id).0
    get_job_state-IsRunning r id (v, there, live, empty) =
        rw (get_job_state-live env r id v there live) (v, there, live, empty)

    -- The envelope of the attempt that a run makes.
    abbrev pub tried : ClaimedJob P → ClaimedJob P
    tried claimed = record claimed {
      job = record claimed.job { attempt = suc claimed.job.attempt };
    }

    -- One call ends the job, or it calls again for the next attempt, of which there is one.
    abbrev pub IsStep : ClaimedJob P → Runtime P × Next P → Type 0
    IsStep claimed x =
        ((x.1 ≡ done (ok tt)) × IsEnded claimed.job.id x.0)
        ⊎ ((suc claimed.job.attempt < claimed.job.max_attempts)
            × ((claimed' : ClaimedJob P) × (x.1 ≡ again claimed')
                × (claimed'.job ≡ record claimed.job { attempt = suc claimed.job.attempt })))

    module _
        (finishes : (job : JobEnvelope P) (paused_state : P) (time : ℕ)
          → is_unfinished (descriptor.func job paused_state time) ≡ false)
        (undisturbed : (job : JobEnvelope P) (r : Runtime P)
          → Dict.get (descriptor.meanwhile job r).states (job_key job.id)
            ≡ Dict.get r.states (job_key job.id)) where
      meanwhile-IsRunning :
          (r : Runtime P) (job : JobEnvelope P)
          → IsRunning job.id r
          → IsRunning job.id (descriptor.meanwhile job r)
      meanwhile-IsRunning r job (v, there, live, empty) =
          (v, undisturbed job r ∙ there, live, empty)

      execute_once-IsStep :
          (far : ℕ) (r : Runtime P) (claimed : ClaimedJob P)
          → env.handlers claimed.job.job_type ≡ some descriptor
          → IsStep claimed (execute_once env far true r claimed)
      unfolding execute_once run_claim dead_letter_claim
      execute_once-IsStep far r claimed known =
          elim (Bool-cases (leb claimed.job.max_reclaims claimed.job.reclaim_count)) [
            | inl looping ↦
                rw (looping, execute_once)
                  (inl (
                    ap done (dead_letter-ok r claimed.job reclaim_loop [] _ known),
                    dead_letter-IsEnded env r claimed.job reclaim_loop [] _ (omega arith),
                  ))
            | inr fine ↦
                rw (fine, known, execute_once)
                  (follow-IsTried far _ (tried claimed) _ _ (finishes _ _ _)
                    (meanwhile-IsRunning
                      (get_job_state env (start_claim env true r (tried claimed).job)
                        claimed.job.id).0
                      (tried claimed).job
                      (get_job_state-IsRunning (start_claim env true r (tried claimed).job)
                        claimed.job.id (start_claim-IsRunning env r (tried claimed).job)))
                    known)
          ]

      execute-IsEnded :
          (fuel far : ℕ) (r : Runtime P) (claimed : ClaimedJob P)
          → env.handlers claimed.job.job_type ≡ some descriptor
          → claimed.job.max_attempts ≤ claimed.job.attempt + suc fuel
          → ((execute_claim env (suc fuel) far true r claimed).1 ≡ ok tt)
            × IsEnded claimed.job.id (execute_claim env (suc fuel) far true r claimed).0
      unfolding execute_claim
      execute-IsEnded zero far r claimed known enough =
          elim (execute_once-IsStep far r claimed known) [
            | inl (ends, ended) ↦ rw (ends, execute_claim) (refl, ended)
            | inr (more, _) ↦ absurd (omega arith)
          ]
      execute-IsEnded (suc fuel) far r claimed known enough =
          elim (execute_once-IsStep far r claimed known) [
            | inl (ends, ended) ↦ rw (ends, execute_claim) (refl, ended)
            | inr (more, (claimed', calls, same)) ↦
                let same_id : claimed'.job.id ≡ claimed.job.id =
                  ap (λ (j : JobEnvelope P). j.id) same in
                let rest =
                  execute-IsEnded fuel far (execute_once env far true r claimed).0 claimed'
                    (ap (λ (j : JobEnvelope P). env.handlers j.job_type) same ∙ known)
                    (omega (
                      arith,
                      enough,
                      ap (λ (j : JobEnvelope P). j.max_attempts) same,
                      ap (λ (j : JobEnvelope P). j.attempt) same,
                    )) in
                rw (calls, execute_claim)
                  (
                    rest.0,
                    renamed same_id
                        (execute_claim env (suc fuel) far true
                          (execute_once env far true r claimed).0 claimed').0
                        rest.1,
                  )
          ]

-- Let the handler of a job always return or raise an `Exception`, and never ask for a pause or be
-- cancelled, let its dead-letter callback return, and let nothing that is done while it runs change
-- the stored state of its job. Then an inline run of the job, given one unit of fuel more than there are attempts left, returns; and then the
-- job's stored state is completed, or it is dead-lettered and the dead-letter store has an
-- entry for the job that lists at most one attempt.
pub execute_claim-IsEnded :
    {P : Type 0} (env : Environment P) (descriptor : HandlerDescriptor P)
    → ((entry : DeadJobEntry P) → call_dead_callback env (some descriptor) entry ≡ ok tt)
    → ((job : JobEnvelope P) (paused_state : P) (time : ℕ)
        → is_unfinished (descriptor.func job paused_state time) ≡ false)
    → ((job : JobEnvelope P) (r : Runtime P)
        → Dict.get (descriptor.meanwhile job r).states (job_key job.id)
          ≡ Dict.get r.states (job_key job.id))
    → (far : ℕ) (r : Runtime P) (claimed : ClaimedJob P)
    → env.handlers claimed.job.job_type ≡ some descriptor
    → let x =
        execute_claim env
          (suc (claimed.job.max_attempts - claimed.job.attempt))
          far
          true
          r
          claimed in
      (x.1 ≡ ok tt) × IsEnded claimed.job.id x.0
execute_claim-IsEnded env descriptor calm finishes undisturbed far r claimed known =
    execute-IsEnded env descriptor calm finishes undisturbed
      (claimed.job.max_attempts - claimed.job.attempt) far r claimed known (omega arith)
