-- ===== src/Workers/Runtime/Held.antt =====
-- What it means that a claim is held, settled or lost, and what a write to its envelope keeps.
use skrift.Prelude.{◌==◌}
use skrift.Workers.Queue.{InMemoryQueue}
use skrift.Prelude.{option_eq_iff}
use skrift.Prelude.{option_eq}
use skrift.Prelude.{==_iff}
use skrift.Workers.Runtime.{dead_lettered}
use skrift.Workers.Runtime.{JobStatus}
use skrift.Prelude.{raise}
use skrift.Prelude.{Option-cases}
use skrift.Prelude.{
  ℕ, String, ◌≡◌, refl, ap, ◌∙◌, ◌⊎◌, inl, inr, Bool, true, false, Option, none, some, arith,
  ==_refl, ℕ_beq, string_beq, Bool-cases, Result,
}
use skrift.Prelude.Dict
use skrift.Prelude.Text.{text_beq}
use skrift.Workers.Job.{JobEnvelope}
use skrift.Workers.StateStore.{StoredValue}
use skrift.Workers.Queue.{QueueEntry, find, store}
use skrift.Workers.Queue.Laws
use skrift.Workers.Queue.Settle.{held}
use skrift.Workers.DeadLetter.{DeadLetterCause, DeadJobEntry}
use skrift.Workers.Runtime.{JobState, RuntimeError, Runtime, job_key}
use skrift.Workers.Runtime.Execute.{Next, done, write_back}

module _ {P : Type 0} where
  -- The queue's entry for the job is leased to the token.
  abbrev pub IsHeld : Runtime P → JobEnvelope P → String → Type 0
  IsHeld r job token =
      (entry : QueueEntry P) × (find r.queue job.queue job.id ≡ some entry)
      × (entry.claim_token ≡ some token)

  abbrev pub HasStatus : Runtime P → JobEnvelope P → JobStatus → Type 0
  HasStatus r job status =
      (v : StoredValue (JobState P)) × (Dict.get r.states (job_key job.id) ≡ some v)
      × (v.value.status ≡ status)

  -- Back in the queue without a lease, to be claimed from a time on.
  abbrev pub IsBack : Runtime P → JobEnvelope P → ℕ → Type 0
  IsBack r job due =
      (entry : QueueEntry P) × (find r.queue job.queue job.id ≡ some entry)
      × (entry.claim_token ≡ none)
      × (entry.dead_lettered ≡ false)
      × (entry.visible_at ≡ due)

  -- Marked in the queue, without a lease, and written to the dead-letter store with this cause.
  abbrev pub IsDead : Runtime P → JobEnvelope P → DeadLetterCause → Type 0
  IsDead r job cause =
      ((entry : QueueEntry P) × (find r.queue job.queue job.id ≡ some entry)
        × (entry.claim_token ≡ none)
        × (entry.dead_lettered ≡ true))
      × ((dead : DeadJobEntry P) × (Dict.get r.dead_letters dead.id ≡ some dead)
          × (dead.job.id ≡ job.id)
          × (dead.cause ≡ cause))
      × HasStatus r job dead_lettered

  -- The call does not start over.
  abbrev pub IsOver : Runtime P × Next P → Type 0
  IsOver x = (result : Result RuntimeError (Unit {0})) × (x.1 ≡ done result)

  -- What the queue has of an entry beside the envelope.
  abbrev pub lease_of : Option (QueueEntry P) → Option (ℕ × Option String × Option ℕ × Bool)
  lease_of none = none
  lease_of (some entry) =
      some (entry.visible_at, entry.claim_token, entry.claim_expires_at, entry.dead_lettered)

  -- An exception ends the call, no lease is another, and nothing is dead-lettered.
  abbrev pub IsRefused : RuntimeError → Runtime P → Runtime P × Next P → Type 0
  IsRefused err r x =
      (x.1 ≡ done (raise err))
      × ((queue id : String)
          → lease_of (find x.0.queue queue id) ≡ lease_of (find r.queue queue id))
      × (x.0.dead_letters ≡ r.dead_letters)

  pub held-some :
      (r : Runtime P) (job : JobEnvelope P) (token : String) (entry : QueueEntry P)
      → find r.queue job.queue job.id ≡ some entry
      → entry.claim_token ≡ some token
      → held r.queue job.queue job.id token ≡ some entry
  unfolding held
  held-some r job token entry found leased =
      rw (found, leased, held) (ground (arith, ==_refl token))

  -- The claim is held, or the queue refuses its token.
  pub held-cases :
      (r : Runtime P) (job : JobEnvelope P) (token : String)
      → IsHeld r job token ⊎ ((¬ IsHeld r job token) × (held r.queue job.queue job.id token ≡ none))
  unfolding held
  held-cases r job token = elim (Option-cases (find r.queue job.queue job.id)) [
    | inl gone ↦ inr ((λ h. let there = h.1 in absurd (cc (gone, there))), rw (gone, held) refl)
    | inr (entry, there) ↦ elim (Bool-cases (option_eq entry.claim_token (some token))) [
      | inl mine ↦ inl (entry, there, (option_eq_iff entry.claim_token (some token)).0 mine)
      | inr other ↦ inr (
        (λ h.
            let kept = held-some r job token h.0 h.1 h.2 in
            let lost : held r.queue job.queue job.id token ≡ none =
              rw (there, held) (rw other refl) in
            absurd (cc (kept, lost))),
        rw (there, held) (rw other refl),
      )
    ]
  ]

  pub write_back-found :
      (r : Runtime P) (job : JobEnvelope P) (entry : QueueEntry P)
      → find r.queue job.queue job.id ≡ some entry
      → write_back false r job
        ≡ record r { queue = store r.queue job.queue job.id (record entry { job = job }) }
  unfolding write_back
  write_back-found r job entry there = rw (there, write_back) refl

  pub write_back-gone :
      (r : Runtime P) (job : JobEnvelope P)
      → find r.queue job.queue job.id ≡ none
      → write_back false r job ≡ r
  unfolding write_back
  write_back-gone r job gone = rw (gone, write_back) refl

  pub write_back-dead_letters :
      (r : Runtime P) (job : JobEnvelope P) → (write_back false r job).dead_letters ≡ r.dead_letters
  unfolding write_back
  write_back-dead_letters r job = refl

  abbrev pub token_of : Option (QueueEntry P) → Option String
  token_of none = none
  token_of (some entry) = entry.claim_token

  pub write_back-IsHeld :
      (r : Runtime P) (job : JobEnvelope P) (token : String)
      → IsHeld r job token
      → IsHeld (write_back false r job) job token
  write_back-IsHeld r job token (entry, there, leased) = rw (write_back-found r job entry there) (
    record entry { job = job },
    Laws.find-store_self r.queue job.queue job.id (record entry { job = job }),
    leased,
  )

  lease_of-store :
      (q : InMemoryQueue P) (job : JobEnvelope P) (entry : QueueEntry P) (queue id : String)
      → find q job.queue job.id ≡ some entry
      → lease_of (find (store q job.queue job.id (record entry { job = job })) queue id)
        ≡ lease_of (find q queue id)
  lease_of-store q job entry queue id there =
      ap lease_of (Laws.find-store q job.queue job.id (record entry { job = job }) queue id)
      ∙ elim (Bool-cases (job.queue == queue)) [
        | inr differ ↦ rw differ refl
        | inl same ↦ elim (Bool-cases (job.id == id)) [
          | inr other ↦ rw same (rw other refl)
          | inl mine ↦
              let here : find q queue id ≡ some entry =
                rw (← (==_iff job.queue queue).0 same, ← (==_iff job.id id).0 mine) there in
              rw same (rw mine (rw here refl))
        ]
      ]

  pub lease_of-write_back :
      (r : Runtime P) (job : JobEnvelope P) (queue id : String)
      → lease_of (find (write_back false r job).queue queue id) ≡ lease_of (find r.queue queue id)
  lease_of-write_back r job queue id = elim (Option-cases (find r.queue job.queue job.id)) [
    | inl gone ↦
        ap (λ (s : Runtime P). lease_of (find s.queue queue id)) (write_back-gone r job gone)
    | inr (entry, there) ↦
        ap (λ (s : Runtime P). lease_of (find s.queue queue id))
          (write_back-found r job entry there)
        ∙ lease_of-store r.queue job entry queue id there
  ]
