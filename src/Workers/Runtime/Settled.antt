-- ===== src/Workers/Runtime/Settled.antt =====
-- What follows the end of a handler whose claim is still held.
use skrift.Prelude.{leb→lt}
use skrift.Prelude.{leb→le}
use skrift.Prelude.{◌<◌}
use skrift.Workers.DeadLetter.{retries_exhausted}
use skrift.Workers.DeadLetter.{permanent_failure}
use skrift.Prelude.{◌≤◌}
use skrift.Workers.Runtime.{dead_lettered}
use skrift.Workers.Runtime.{JobStatus}
use skrift.Prelude.{raise}
use skrift.Workers.Runtime.Execute.{ends}
use skrift.Workers.Runtime.Execute.{and_then}
use skrift.Prelude.{
  ℕ, suc, ◌+◌, ◌-◌, String, ◌≡◌, refl, ◌∙◌, ◌⊎◌, inl, inr, Bool, true, false, Option, none, some,
  List, arith, ==_refl, ℕ_beq, string_beq, leb, Bool-cases, or_else, ok,
}
use skrift.Prelude.Dict
use skrift.Prelude.Text.{text_beq}
use skrift.Workers.Job.{ClaimedJob}
use skrift.Workers.Queue.{QueueEntry, find, store, discard}
use skrift.Workers.Queue.Laws
use skrift.Workers.Queue.Settle.{held, ack, nack, give_back}
use skrift.Workers.DeadLetter.{DeadLetterCause, DeadJobAttempt, create}
use skrift.Workers.Runtime.{
  completed, submitted, paused, job_paused, retry_delay, Pause, Outcome, returned, asked,
  interrupted, run_interrupted, raised_permanent, raised, HandlerDescriptor, Environment, Runtime,
  new_state, now, set_state, get_job_state, emit_lifecycle, new_entry, dead_letter,
}
use skrift.Workers.Runtime.Execute.{
  Next, done, ack_claim, nack_claim, write_back, conclude_failure, handle_failure, handle_pause,
  complete_claim, follow,
}
use skrift.Workers.Runtime.Ended.{set_state-status}
use skrift.Workers.Runtime.Held.{
  IsHeld, HasStatus, IsBack, IsDead, IsOver, held-some, write_back-IsHeld,
}

module _ {P : Type 0} (env : Environment P) where
  -- The job of an attempt that failed for good, or that has attempts left and is tried again
  -- after the delay of its policy.
  abbrev pub IsFailed : ℕ → ClaimedJob P → HandlerDescriptor P → Runtime P × Next P → Type 0
  IsFailed since claimed descriptor x =
      ((claimed.job.max_attempts ≤ claimed.job.attempt)
        × IsOver x
        × IsDead x.0 claimed.job retries_exhausted)
      ⊎ ((claimed.job.attempt < claimed.job.max_attempts)
          × (x.1 ≡ done (ok tt))
          × HasStatus x.0 claimed.job submitted
          × ((tick : ℕ) × (since ≤ tick)
              × IsBack x.0 claimed.job (
                  env.clock tick
                  + retry_delay env descriptor.retry_policy claimed.job.attempt tick)))

  -- What each outcome of a handler leads to, where the claim is still held.
  abbrev pub IsSettled :
      ℕ → ℕ → ClaimedJob P → HandlerDescriptor P → Outcome P → Runtime P × Next P → Type 0
  IsSettled far since claimed descriptor (returned result) x =
      (x.1 ≡ done (ok tt))
      × (find x.0.queue claimed.job.queue claimed.job.id ≡ none)
      × HasStatus x.0 claimed.job completed
  IsSettled far since claimed descriptor (asked pause) x =
      (x.1 ≡ done (ok tt))
      × HasStatus x.0 claimed.job paused
      × IsBack x.0 claimed.job (or_else pause.resume_at far)
  IsSettled far since claimed descriptor (raised_permanent exception_type text) x =
      IsOver x × IsDead x.0 claimed.job permanent_failure
  IsSettled far since claimed descriptor (raised exception_type text) x =
      IsFailed since claimed descriptor x
  IsSettled far since claimed descriptor interrupted x =
      (x.1 ≡ done (raise run_interrupted)) × IsHeld x.0 claimed.job claimed.token

  ack_claim-held :
      (r : Runtime P) (claimed : ClaimedJob P)
      → IsHeld r claimed.job claimed.token
      → ack_claim env false r claimed
        ≡ (record r { queue = discard r.queue claimed.job.queue claimed.job.id }, ok tt)
  unfolding ack
  ack_claim-held r claimed (entry, there, leased) =
      rw (held-some r claimed.job claimed.token entry there leased, ack) refl

  nack_claim-held :
      (r : Runtime P) (claimed : ClaimedJob P) (retry_at : Option ℕ) (dead : Bool)
      → IsHeld r claimed.job claimed.token
      → (entry : QueueEntry P) × (nack_claim env false r claimed retry_at dead ≡ (
        record r {
          queue = store r.queue claimed.job.queue claimed.job.id entry;
          ticks = suc (suc r.ticks);
        },
        ok tt,
      ))
        × (entry.claim_token ≡ none)
        × (entry.dead_lettered ≡ dead)
        × (entry.visible_at ≡ or_else retry_at (env.clock (r.ticks + 0)))
  unfolding nack give_back
  nack_claim-held r claimed retry_at dead (entry, there, leased) = (
    give_back retry_at dead (λ n. env.clock (r.ticks + n)) entry,
    rw (held-some r claimed.job claimed.token entry there leased, nack) refl,
    refl,
    refl,
    refl,
  )

  complete_claim-IsSettled :
      (far since : ℕ) (r : Runtime P) (claimed : ClaimedJob P) (descriptor : HandlerDescriptor P)
      (result : P)
      → IsHeld r claimed.job claimed.token
      → IsSettled far since claimed descriptor
          (returned result)
          (complete_claim env false r claimed result)
  unfolding complete_claim emit_lifecycle set_state
  complete_claim-IsSettled far since r claimed descriptor result held =
      let job = claimed.job in
      let state = record (new_state env job completed job.attempt) { result = some result } in
      let acked = record r { queue = discard r.queue job.queue job.id } in
      let gone : find (discard r.queue job.queue job.id) job.queue job.id ≡ none =
        Laws.find-discard r.queue job.queue job.id job.queue job.id
        ∙ ground (arith, ==_refl job.queue, ==_refl job.id) in
      rw (ack_claim-held r claimed held, complete_claim)
        (refl, gone, set_state-status env acked state)

  -- A claim that is given back lets the job be claimed from the time given on.
  nacked-IsBack :
      (r : Runtime P) (claimed : ClaimedJob P) (retry_at : ℕ) (status : JobStatus)
      → IsHeld r claimed.job claimed.token
      → HasStatus r claimed.job status
      → let x = ends (nack_claim env false r claimed (some retry_at) false) in
        (x.1 ≡ done (ok tt)) × HasStatus x.0 claimed.job status × IsBack x.0 claimed.job retry_at
  nacked-IsBack r claimed retry_at status held h =
      let (entry, e, free, alive, due) = nack_claim-held r claimed (some retry_at) false held in
      rw e (
        refl,
        h,
        (
          entry,
          Laws.find-store_self r.queue claimed.job.queue claimed.job.id entry,
          free,
          alive,
          due,
        ),
      )

  dead_letter-IsDead :
      (r : Runtime P) (claimed : ClaimedJob P) (cause : DeadLetterCause)
      (attempts : List (DeadJobAttempt P)) (error : String)
      → IsHeld r claimed.job claimed.token
      → let x =
          and_then
            (nack_claim env false r claimed none true)
            (λ r'. ends (dead_letter env r' claimed.job cause attempts error)) in
        IsOver x × IsDead x.0 claimed.job cause
  unfolding dead_letter emit_lifecycle set_state create
  dead_letter-IsDead r claimed cause attempts error held =
      let (entry, e, free, dead, due) = nack_claim-held r claimed none true held in
      let job = claimed.job in
      let r' = record r {
        queue = store r.queue job.queue job.id entry;
        ticks = suc (suc r.ticks);
      } in
      let written = new_entry env r' job cause attempts error in
      let created = record r' {
        dead_letters = Dict.put r'.dead_letters written.id written;
        ticks = suc r'.ticks;
      } in
      let state = record (new_state env job dead_lettered job.attempt) {
        error = some error;
        last_error = some error;
        attempt_history = attempts;
      } in
      rw e (
        (_, refl),
        (
          (entry, Laws.find-store_self r.queue job.queue job.id entry, free, dead),
          (written, Dict.get-put_self r.dead_letters written.id written, refl, refl),
          set_state-status env created state,
        ),
      )

  conclude_failure-IsFailed :
      (since : ℕ) (r : Runtime P) (claimed : ClaimedJob P) (descriptor : HandlerDescriptor P)
      (error : String) (attempts : List (DeadJobAttempt P))
      → since ≤ r.ticks
      → IsHeld r claimed.job claimed.token
      → IsFailed since claimed descriptor
          (conclude_failure env false r claimed descriptor error attempts false)
  unfolding conclude_failure set_state
  conclude_failure-IsFailed since r claimed descriptor error attempts after held =
      let job = claimed.job in
      elim (Bool-cases (leb job.max_attempts job.attempt)) [
        | inl last ↦
            let (over, dead) = dead_letter-IsDead r claimed retries_exhausted attempts error held in
            rw (last, conclude_failure) (inl (leb→le job.max_attempts job.attempt last, over, dead))
        | inr more ↦
            let state = record (new_state env job submitted job.attempt) {
              last_error = some error;
              attempt_history = attempts;
            } in
            let waiting = set_state env (record r { ticks = suc r.ticks }) state in
            let retry_at =
              now env r + retry_delay env descriptor.retry_policy job.attempt r.ticks in
            let (over, status, back) =
              nacked-IsBack waiting claimed retry_at submitted held
                (set_state-status env (record r { ticks = suc r.ticks }) state) in
            rw (more, conclude_failure)
              (inr (leb→lt job.max_attempts job.attempt more, over, status, (r.ticks, after, back)))
      ]

  handle_pause-IsSettled :
      (far since : ℕ) (r : Runtime P) (claimed : ClaimedJob P) (descriptor : HandlerDescriptor P)
      (pause : Pause P)
      → IsHeld r claimed.job claimed.token
      → IsSettled far since claimed descriptor
          (asked pause)
          (handle_pause env far false r claimed pause)
  unfolding handle_pause set_state emit_lifecycle
  handle_pause-IsSettled far since r claimed descriptor pause held =
      let job = record claimed.job {
        attempt = claimed.job.attempt - 1;
        scheduled_for = pause.resume_at;
      } in
      let state = record (new_state env job paused job.attempt) { paused_state = pause.state } in
      let waiting =
        emit_lifecycle env (set_state env (write_back false r job) state) job_paused job none in
      nacked-IsBack waiting (record claimed { job = job }) (or_else pause.resume_at far) paused
        (write_back-IsHeld r job claimed.token held)
        (set_state-status env (write_back false r job) state)

  pub follow-IsSettled :
      (far : ℕ) (r : Runtime P) (claimed : ClaimedJob P) (descriptor : HandlerDescriptor P)
      (started_at : ℕ) (outcome : Outcome P)
      → IsHeld r claimed.job claimed.token
      → IsSettled far r.ticks claimed descriptor outcome
          (follow env far false r claimed descriptor started_at outcome)
  unfolding follow handle_failure conclude_failure get_job_state emit_lifecycle
  follow-IsSettled far r claimed descriptor started_at (returned result) held =
      complete_claim-IsSettled far r.ticks r claimed descriptor result held
  follow-IsSettled far r claimed descriptor started_at (asked pause) held =
      handle_pause-IsSettled far r.ticks r claimed descriptor pause held
  follow-IsSettled far r claimed descriptor started_at (raised_permanent exception_type text) held =
      dead_letter-IsDead _ claimed permanent_failure _ _ held
  follow-IsSettled far r claimed descriptor started_at (raised exception_type text) held =
      conclude_failure-IsFailed r.ticks _ claimed descriptor _ _ (omega arith) held
  follow-IsSettled far r claimed descriptor started_at interrupted held = (refl, held)
