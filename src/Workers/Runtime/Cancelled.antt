-- ===== src/Workers/Runtime/Cancelled.antt =====
-- A cancelled job is out of the queue, and one that a worker holds is not cancelled.
use skrift.Prelude.{
  ℕ, suc, String, ◌≡◌, refl, sym, ap, ◌∙◌, ◌⊎◌, inl, inr, Bool, true, false, Option, none, some,
  arith, BEq, ==_refl, ℕ_beq, string_beq, Bool-cases, Option-cases, is_some, if_cases,
}
use skrift.Prelude.Dict
use skrift.Prelude.Text.{text_beq}
use skrift.Workers.StateStore.{StoredValue}
use skrift.Workers.Queue.{InMemoryQueue, QueueEntry, find}
use skrift.Workers.Queue.Laws
use skrift.Workers.Queue.Settle
use skrift.Workers.Runtime.{
  cancelled, JobState, Environment, Runtime, job_key, get_job_state, set_state, emit_lifecycle,
}
use skrift.Workers.Runtime.Ended.{get_job_state-live, set_state-status}
use skrift.Workers.Runtime.Control.{
  ExecutionMode, is_inline, is_submitted, cancel_state, cancel_found, cancel,
}

module _ {P : Type 0} where
  -- A cancellation in the queue takes out an entry that nobody holds, or changes nothing.
  queue_cancel-cases :
      (q : InMemoryQueue P) (queue id : String)
      → ((Settle.cancel q queue id).1 ≡ true)
          × ((entry : QueueEntry P) × (find q queue id ≡ some entry)
              × (is_some entry.claim_token ≡ false))
          × (find (Settle.cancel q queue id).0 queue id ≡ none)
        ⊎ (Settle.cancel q queue id ≡ (q, false))
  unfolding Settle.cancel
  queue_cancel-cases q queue id = elim (Option-cases (find q queue id)) [
    | inl missing ↦ inr (rw (missing, Settle.cancel) refl)
    | inr (entry, there) ↦ elim (Bool-cases (is_some entry.claim_token)) [
      | inl busy ↦ inr (rw (there, busy, Settle.cancel) refl)
      | inr free ↦ inl (
        rw (there, free, Settle.cancel) refl,
        (entry, there, free),
        rw (there, free, Settle.cancel)
            (Laws.find-discard q queue id queue id ∙ ground (arith, ==_refl queue, ==_refl id)),
      )
    ]
  ]

  -- What a cancellation of the job with the stored state made of a runtime, and its answer.
  abbrev pub IsAnswered : Runtime P → String → JobState P → Runtime P × Bool → Type 0
  IsAnswered r id state x =
      ((x.1 ≡ true)
        × (is_submitted state.status ≡ true)
        × ((entry : QueueEntry P) × (find r.queue state.job.queue id ≡ some entry)
            × (is_some entry.claim_token ≡ false))
        × (find x.0.queue state.job.queue id ≡ none)
        × ((w : StoredValue (JobState P)) × (Dict.get x.0.states (job_key id) ≡ some w)
            × (w.value.status ≡ cancelled)))
      ⊎ ((x.1 ≡ false) × (x.0.queue ≡ r.queue))

module _ {P : Type 0} ⦃e : BEq P⦄ (env : Environment P) (fuel far : ℕ) (mode : ExecutionMode) where
  cancel_state-IsAnswered :
      (r : Runtime P) (id : String) (state : JobState P)
      → is_inline mode ≡ false
      → is_submitted state.status ≡ true
      → state.job.id ≡ id
      → IsAnswered r id state (cancel_state env fuel far mode r id state)
  unfolding emit_lifecycle set_state
  cancel_state-IsAnswered r id state queues waiting named =
      elim (queue_cancel-cases r.queue state.job.queue id) [
        | inl (hit, entry, gone) ↦
            let after = record r { queue = (Settle.cancel r.queue state.job.queue id).0 } in
            let marked = set_state env after (record state { status = cancelled }) in
            let (w, there, status) =
              set_state-status env after (record state { status = cancelled }) in
            let found : Dict.get marked.states (job_key id) ≡ some w =
              ap (λ k. Dict.get marked.states (job_key k)) (sym named) ∙ there in
            rw hit (inl (refl, waiting, entry, gone, (w, found, status)))
        | inr missed ↦ inr (rw (missed, queues) (refl, refl))
      ]

  cancel_found-IsAnswered :
      (r : Runtime P) (id : String) (state : JobState P)
      → is_inline mode ≡ false
      → state.job.id ≡ id
      → IsAnswered r id state (cancel_found env fuel far mode r id (some state))
  cancel_found-IsAnswered r id state queues named =
      if_cases (IsAnswered r id state) (is_submitted state.status)
        (cancel_state env fuel far mode r id state) (r, false)
        (λ waiting. cancel_state-IsAnswered r id state queues waiting named)
        (λ other. inr (refl, refl))

  cancel_read-IsAnswered :
      (r : Runtime P) (id : String) (state : JobState P) (x : Runtime P × Option (JobState P))
      → is_inline mode ≡ false
      → state.job.id ≡ id
      → x ≡ (record r { ticks = suc r.ticks }, some state)
      → IsAnswered r id state (cancel_found env fuel far mode x.0 id x.1)
  cancel_read-IsAnswered r id state x queues named e =
      rw e (cancel_found-IsAnswered (record r { ticks = suc r.ticks }) id state queues named)

  -- A cancellation of a job with a stored state, where jobs run from the queue, reports success or
  -- it does not. If it does, the job was submitted and its entry in the queue was not leased, and
  -- now it has no entry there and its stored state is cancelled. If not, the queue is as it was.
  pub cancel-IsAnswered :
      (r : Runtime P) (id : String) (v : StoredValue (JobState P))
      → is_inline mode ≡ false
      → Dict.get r.states (job_key id) ≡ some v
      → v.expires_at ≡ none
      → v.value.job.id ≡ id
      → IsAnswered r id v.value (cancel env fuel far mode r id)
  unfolding cancel
  cancel-IsAnswered r id v queues there live named =
      cancel_read-IsAnswered r id v.value (get_job_state env r id) queues named
        (get_job_state-live env r id v there live)
