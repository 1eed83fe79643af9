-- ===== src/Workers/Runtime/Ended.antt =====
-- A job that is dead-lettered or completed has ended, and one that was started is running.
use skrift.Prelude.{
  ℕ, suc, ◌≤◌, String, ◌≡◌, refl, ap, ◌⊎◌, inl, inr, Bool, true, false, Option, none, some, List,
  [], ◌∷◌, ◌++◌, arith, ℕ_beq, string_beq, ok, length,
}
use skrift.Prelude.Dict
use skrift.Prelude.Text.{text_beq}
use skrift.Workers.Job.{JobEnvelope, ClaimedJob}
use skrift.Workers.StateStore
use skrift.Workers.StateStore.{StoredValue, stored_until}
use skrift.Workers.DeadLetter.{DeadLetterCause, DeadJobAttempt, DeadJobEntry, create}
use skrift.Workers.Runtime.{
  interrupted, running, completed, dead_lettered, is_terminal, JobState, Outcome, returned, asked,
  raised_permanent, raised, Environment, Runtime, job_key, new_state, set_state, get_job_state,
  emit_lifecycle, job_state_ttl, new_entry, dead_letter,
}
use skrift.Workers.Runtime.Execute.{
  done, history_of, complete_claim, start_claim, announce_claim, mark_running,
}

module _ {P : Type 0} where
  -- The job's state is stored as completed, or as dead-lettered, and then an entry for the job
  -- stands in the dead-letter store, with at most one attempt.
  abbrev pub IsEnded : String → Runtime P → Type 0
  IsEnded id r =
      (v : StoredValue (JobState P)) × (Dict.get r.states (job_key id) ≡ some v)
      × ((v.value.status ≡ completed)
          ⊎ ((v.value.status ≡ dead_lettered)
              × ((entry : DeadJobEntry P) × (Dict.get r.dead_letters entry.id ≡ some entry)
                  × (entry.job.id ≡ id)
                  × (length entry.attempts ≤ 1))))

  -- The job's state is stored without an end, and lists no attempts.
  abbrev pub IsRunning : String → Runtime P → Type 0
  IsRunning id r =
      (v : StoredValue (JobState P)) × (Dict.get r.states (job_key id) ≡ some v)
      × (v.expires_at ≡ none)
      × (v.value.attempt_history ≡ [])

  -- A handler that neither returned nor raised an `Exception`.
  abbrev pub is_unfinished : Outcome P → Bool
  is_unfinished (returned result) = false
  is_unfinished (asked pause) = true
  is_unfinished (raised_permanent exception_type text) = false
  is_unfinished (raised exception_type text) = false
  is_unfinished interrupted = true

stored_until-value :
    {V : Type 0} (value : V) (ttl : Option ℕ) (now : ℕ) → (stored_until value ttl now).value ≡ value
stored_until-value value none now = refl
stored_until-value value (some ttl) now = refl

pub renamed :
    {P : Type 0} {id id' : String} → id ≡ id' → (r : Runtime P) → IsEnded id r → IsEnded id' r
renamed e r h = rw (← e) h

pub one_attempt :
    {P : Type 0} (previous : Option (JobState P)) (state : JobState P) (attempt : DeadJobAttempt P)
    → previous ≡ some state
    → state.attempt_history ≡ []
    → length (history_of previous ++ attempt ∷ []) ≤ 1
one_attempt previous state attempt e empty = rw (e, empty) (omega arith)

module _ {P : Type 0} (env : Environment P) where
  set_state-get :
      (r : Runtime P) (state : JobState P)
      → is_terminal state.status ≡ false
      → Dict.get (set_state env r state).states (job_key state.job.id)
        ≡ some
            (record { value = record state { updated_at = env.clock r.ticks }; expires_at = none })
  unfolding set_state StateStore.set
  set_state-get r state live = rw live (Dict.get-put_self r.states (job_key state.job.id) _)

  pub set_state-status :
      (r : Runtime P) (state : JobState P)
      → (v : StoredValue (JobState P)) × (Dict.get
            (set_state env r state).states
            (job_key state.job.id)
          ≡ some v)
        × (v.value.status ≡ state.status)
  unfolding set_state StateStore.set
  set_state-status r state =
      let now = env.clock r.ticks in
      let updated = record state { updated_at = now } in
      (
        stored_until updated (job_state_ttl env state) now,
        Dict.get-put_self r.states (job_key state.job.id)
            (stored_until updated (job_state_ttl env state) now),
        ap (λ (s : JobState P). s.status)
            (stored_until-value updated (job_state_ttl env state) now),
      )

  pub dead_letter-IsEnded :
      (r : Runtime P) (job : JobEnvelope P) (cause : DeadLetterCause)
      (attempts : List (DeadJobAttempt P)) (error : String)
      → length attempts ≤ 1
      → IsEnded job.id (dead_letter env r job cause attempts error).0
  unfolding dead_letter emit_lifecycle set_state create
  dead_letter-IsEnded r job cause attempts error few =
      let entry = new_entry env r job cause attempts error in
      let created = record r {
        dead_letters = Dict.put r.dead_letters entry.id entry;
        ticks = suc r.ticks;
      } in
      let state = record (new_state env job dead_lettered job.attempt) {
        error = some error;
        last_error = some error;
        attempt_history = attempts;
      } in
      let (v, there, status) = set_state-status created state in
      (v, there, inr (status, (entry, Dict.get-put_self r.dead_letters entry.id entry, refl, few)))

  -- A state without an end is read, whatever the time.
  pub get_job_state-live :
      (r : Runtime P) (id : String) (v : StoredValue (JobState P))
      → Dict.get r.states (job_key id) ≡ some v
      → v.expires_at ≡ none
      → get_job_state env r id ≡ (record r { ticks = suc r.ticks }, some v.value)
  unfolding get_job_state StateStore.get
  get_job_state-live r id v e live = rw (e, live, StateStore.get) refl

  mark_running-IsRunning :
      (r : Runtime P) (job : JobEnvelope P) (paused_state : P)
      → IsRunning job.id (mark_running env r job paused_state)
  unfolding mark_running emit_lifecycle
  mark_running-IsRunning r job paused_state = (
    _,
    set_state-get r (record (new_state env job running job.attempt) { paused_state = paused_state })
        refl,
    refl,
    refl,
  )

  pub start_claim-IsRunning :
      (r : Runtime P) (job : JobEnvelope P) → IsRunning job.id (start_claim env true r job)
  unfolding start_claim
  start_claim-IsRunning r job =
      mark_running-IsRunning (announce_claim env true r job).0 job (announce_claim env true r job).1

  pub complete_claim-IsEnded :
      (r : Runtime P) (claimed : ClaimedJob P) (result : P)
      → ((complete_claim env true r claimed result).1 ≡ done (ok tt))
        × IsEnded claimed.job.id (complete_claim env true r claimed result).0
  unfolding complete_claim emit_lifecycle
  complete_claim-IsEnded r claimed result =
      let state = record (new_state env claimed.job completed claimed.job.attempt) {
        result = some result;
      } in
      let (v, there, status) = set_state-status r state in (refl, (v, there, inl status))
