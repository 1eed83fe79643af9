-- ===== src/Workers/DeadLetter.antt =====
-- `DeadJobEntry` of skrift/workers/models.py and `InMemoryDeadLetterStore` of
-- skrift/workers/memory.py. Entries are copied on the way in and out, so they are values here.
pub mod Filters
pub mod Listing
mod Tests
use skrift.Prelude.{
  ℕ, String, Bool, true, ◌&&◌, Option, none, some, List, [], ◌∷◌, ◌==◌, ℕ_beq, string_beq, leb,
  if◌then◌else◌, filter, any,
}
use skrift.Prelude.Dict
use skrift.Prelude.Dict.{Dict}
use skrift.Workers.Job.{JobEnvelope}

pub data DeadLetterCause : Type 0 where
  retries_exhausted permanent_failure reclaim_loop poison : DeadLetterCause

pub data DeadLetterState : Type 0 where
  open_entry replayed discarded : DeadLetterState

abbrev pub cause_text : DeadLetterCause → String
cause_text retries_exhausted = "retries_exhausted"
cause_text permanent_failure = "permanent_failure"
cause_text reclaim_loop = "reclaim_loop"
cause_text poison = "poison"

abbrev pub state_text : DeadLetterState → String
state_text open_entry = "open"
state_text replayed = "replayed"
state_text discarded = "discarded"

-- Durations are microseconds, and the metadata of an attempt is of the type `P` of payloads.
pub record DeadJobAttempt (P : Type 0) : Type 0 where
  pub attempt : ℕ
  pub claimed_at : Option ℕ
  pub started_at : Option ℕ
  pub finished_at : ℕ
  pub worker_id : Option String
  pub duration : Option ℕ
  pub exception_type : String
  pub error : String
  pub traceback : String
  pub metadata : P

pub record DeadJobEntry (P : Type 0) : Type 0 where
  pub id : String
  pub job : JobEnvelope P
  pub queue : String
  pub job_type : String
  pub cause : DeadLetterCause
  pub state : DeadLetterState
  pub attempts : List (DeadJobAttempt P)
  pub created_at : ℕ
  pub updated_at : ℕ
  pub retention_until : Option ℕ
  pub latest_error : String
  pub replayed_to_job_id : Option String
  pub discarded_reason : Option String
  pub discarded_at : Option ℕ
  pub replayed_at : Option ℕ

-- The arguments of `list`; an empty text counts as none.
pub record DeadLetterFilter : Type 0 where
  pub queue : Option String
  pub job_type : Option String
  pub cause : Option String
  pub state : Option String
  pub exception_type : Option String
  pub created_after : Option ℕ
  pub created_before : Option ℕ

abbrev pub admits : Option String → (String → Bool) → Bool
admits none test = true
admits (some s) test = if s == "" then true else test s

abbrev pub admits_time : Option ℕ → (ℕ → Bool) → Bool
admits_time none test = true
admits_time (some t) test = test t

module _ {P : Type 0} where
  unfoldable pub create :
      Dict String (DeadJobEntry P) → DeadJobEntry P → Dict String (DeadJobEntry P) × DeadJobEntry P
  create entries entry = (Dict.put entries entry.id entry, entry)

  unfoldable pub save :
      Dict String (DeadJobEntry P)
      → DeadJobEntry P
      → ℕ
      → Dict String (DeadJobEntry P) × DeadJobEntry P
  save entries entry now =
      let stored = record entry { updated_at = now } in (Dict.put entries stored.id stored, stored)

  -- The seven filters of `list`, one after the other.
  unfoldable pub select : DeadLetterFilter → DeadJobEntry P → Bool
  select f entry =
      admits f.queue (λ s. entry.queue == s)
      && admits f.job_type (λ s. entry.job_type == s)
      && admits f.cause (λ s. cause_text entry.cause == s)
      && admits f.state (λ s. state_text entry.state == s)
      && admits f.exception_type (λ s. any (λ a. a.exception_type == s) entry.attempts)
      && admits_time f.created_after (λ t. leb t entry.created_at)
      && admits_time f.created_before (λ t. leb entry.created_at t)

  -- `sort(key=created_at, reverse=True)`, which keeps the order of entries of one time
  unfoldable pub insert_newest : DeadJobEntry P → List (DeadJobEntry P) → List (DeadJobEntry P)
  insert_newest entry [] = entry ∷ []
  insert_newest entry (x ∷ xs) =
      let rest = insert_newest entry xs in
      if leb x.created_at entry.created_at then entry ∷ x ∷ xs else x ∷ rest

  unfoldable pub sort_newest : List (DeadJobEntry P) → List (DeadJobEntry P)
  unfolding insert_newest
  sort_newest [] = []
  sort_newest (entry ∷ entries) = insert_newest entry (sort_newest entries)

  unfoldable pub list_entries :
      Dict String (DeadJobEntry P) → DeadLetterFilter → List (DeadJobEntry P)
  unfolding select sort_newest
  list_entries entries f = sort_newest (filter (select f) (Dict.values entries))
