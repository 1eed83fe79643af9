-- ===== src/Workers/Runtime/Tests.antt =====
-- A runtime with one job whose handler fails, and the theorems about runs at it.
use skrift.Workers.Runtime.{JobState}
use skrift.Prelude.{◌⊎◌, ℕ, ◌+◌, ◌≡◌, refl, true, false, none, some, [], ◌∷◌, ℕ_beq, string_beq, ok}
use skrift.Prelude.Dict
use skrift.Workers.Job.{JobEnvelope, ClaimedJob}
use skrift.Workers.Queue.{QueueEntry, find}
use skrift.Workers.Runtime.{raised, HandlerDescriptor, Environment, Runtime}
use skrift.Workers.StateStore.{StoredValue}
use skrift.Prelude.Text.{text_beq}
use skrift.Workers.Runtime.{job_key, new_state, submitted}
use skrift.Workers.Runtime.Control.{in_process, cancel}
use skrift.Workers.Runtime.Cancelled.{IsAnswered, cancel-IsAnswered}
use skrift.Workers.Runtime.Execute.{execute_claim, follow}
use skrift.Workers.Runtime.Ended.{IsEnded}
use skrift.Workers.Runtime.Inline.{execute_claim-IsEnded}
use skrift.Workers.Runtime.Held.{IsHeld, IsRefused}
use skrift.Workers.Runtime.Settled.{IsSettled}
use skrift.Workers.Runtime.Refused.{refusal}
use skrift.Workers.Runtime.Queued.{follow-IsAnswered}

abbrev failing : HandlerDescriptor ℕ
failing = record {
  func = λ job paused_state time. raised "ValueError" "no";
  meanwhile = λ job r. record r { ticks = r.ticks + 5 };
  queue = "default";
  visibility_timeout = 60;
  retry_policy = record { max_attempts = 2; backoff = 5; jitter = 0 };
  dead_callback = none;
}

abbrev env : Environment ℕ
env = record {
  handlers = λ job_type. some failing;
  clock = λ n. 1_000 + n;
  fresh_id = λ n. "id";
  uniform = λ bound n. 0;
  worker_id = none;
  trace = λ exception_type text. text;
  number_text = λ n. "many";
  empty_dict = 0;
  max_reclaims = 3;
  terminal_job_state_ttl = none;
}

abbrev job : JobEnvelope ℕ
job = record {
  id = "j";
  job_type = "mail";
  queue = "default";
  payload = 3;
  submitted_at = 0;
  attempt = 0;
  max_attempts = 2;
  visibility_timeout = 60;
  scheduled_for = none;
  ready_since = none;
  correlation_id = none;
  parent_job_id = none;
  replayed_from = none;
  reclaim_count = 0;
  max_reclaims = 3;
  metadata = 0;
}

abbrev claimed : ClaimedJob ℕ
claimed = record { job = job; token = "t"; claimed_at = 900 }

abbrev entry : QueueEntry ℕ
entry = record {
  job = job;
  visible_at = 0;
  claim_token = some "t";
  claim_expires_at = some 9_000;
  dead_lettered = false;
}

abbrev runtime : Runtime ℕ
runtime = record {
  states = [];
  queue = record { entries = ("default", ("j", entry) ∷ []) ∷ [] };
  dead_letters = [];
  lifecycle = [];
  ticks = 0;
}

execute_claim-IsEnded_example :
    let x = execute_claim env 3 9_999 true runtime claimed in (x.1 ≡ ok tt) × IsEnded "j" x.0
execute_claim-IsEnded_example =
    execute_claim-IsEnded env failing (λ entry. refl) (λ job paused_state time. refl)
      (λ job r. refl) 9_999 runtime claimed refl

follow-IsAnswered_example :
    let x = follow env 9_999 false runtime claimed failing 950 (raised "ValueError" "no") in
    (IsHeld runtime job "t" × IsSettled env 9_999 0 claimed failing (raised "ValueError" "no") x)
    ⊎ ((¬ IsHeld runtime job "t")
        × IsRefused (refusal {P = ℕ} (raised "ValueError" "no")) runtime x)
follow-IsAnswered_example =
    follow-IsAnswered env 9_999 runtime claimed failing 950 (raised "ValueError" "no")

-- The claim of the example is held.
leased : IsHeld runtime job "t"
unfolding find Dict.get
leased = (entry, refl, refl)

abbrev waiting : StoredValue (JobState ℕ)
waiting = record { value = new_state env job submitted 0; expires_at = none }

abbrev before : Runtime ℕ
before = record runtime {
  states = (job_key "j", waiting) ∷ [];
  queue = record { entries = ("default", ("j", record entry { claim_token = none }) ∷ []) ∷ [] };
}

stored : Dict.get before.states (job_key "j") ≡ some waiting
unfolding Dict.get
stored = Dict.get_head (job_key "j") waiting []

cancel-IsAnswered_example :
    IsAnswered before "j" waiting.value (cancel env 3 9_999 in_process before "j")
cancel-IsAnswered_example =
    cancel-IsAnswered env 3 9_999 in_process before "j" waiting refl stored refl refl
