-- ===== src/Workers/Job.antt =====
-- skrift/workers/models.py: the job envelope, and the claim that a worker holds.
-- Times are whole microseconds. `P` stands for the JSON-like values of `dict[str, Any]`, two of
-- which are the same when Python's `==` says so.
use skrift.Prelude.{
  ℕ, String, ◌≡◌, ◌↔◌, refl, ap, Bool, true, false, ◌&&◌, Option, BEq, ◌==◌, ==_iff, option_eq,
  option_eq_iff, ℕ_beq, string_beq,
}

pub record JobEnvelope (P : Type 0) : Type 0 where
  pub id : String
  pub job_type : String
  pub queue : String
  pub payload : P
  pub submitted_at : ℕ
  pub attempt : ℕ
  pub max_attempts : ℕ
  pub visibility_timeout : ℕ
  pub scheduled_for : Option ℕ
  pub ready_since : Option ℕ
  pub correlation_id : Option String
  pub parent_job_id : Option String
  pub replayed_from : Option String
  pub reclaim_count : ℕ
  pub max_reclaims : ℕ
  pub metadata : P

-- What is left of an envelope without `attempt`, `ready_since`, `submitted_at` and
-- `reclaim_count`.
pub record IdempotencyPayload (P : Type 0) : Type 0 where
  pub id : String
  pub job_type : String
  pub queue : String
  pub payload : P
  pub max_attempts : ℕ
  pub visibility_timeout : ℕ
  pub scheduled_for : Option ℕ
  pub correlation_id : Option String
  pub parent_job_id : Option String
  pub replayed_from : Option String
  pub max_reclaims : ℕ
  pub metadata : P

pub record ClaimedJob (P : Type 0) : Type 0 where
  pub job : JobEnvelope P
  pub token : String
  pub claimed_at : ℕ

module _ {P : Type 0} where
  unfoldable pub idempotency_payload : JobEnvelope P → IdempotencyPayload P
  idempotency_payload job = record {
    id = job.id;
    job_type = job.job_type;
    queue = job.queue;
    payload = job.payload;
    max_attempts = job.max_attempts;
    visibility_timeout = job.visibility_timeout;
    scheduled_for = job.scheduled_for;
    correlation_id = job.correlation_id;
    parent_job_id = job.parent_job_id;
    replayed_from = job.replayed_from;
    max_reclaims = job.max_reclaims;
    metadata = job.metadata;
  }

-- Two tests that decide two statements decide them together.
both {ℓ κ} :
    {A : Type ℓ} {B : Type κ} {a b : Bool}
    → (a ≡ true) ↔ A
    → (b ≡ true) ↔ B
    → ((a && b) ≡ true) ↔ (A × B)
both {a = true} {b = true} f g = ((λ h. (f.0 refl, g.0 refl)), λ h. refl)
both {a = true} {b = false} f g = ((λ h. cc), λ h. g.1 h.1)
both {a = false} {b = b} f g = ((λ h. cc), λ h. f.1 h.0)

module _ {P : Type 0} ⦃e : BEq P⦄ where
  -- `==` of two payloads compares them field by field.
  unfoldable pub same_payload : IdempotencyPayload P → IdempotencyPayload P → Bool
  same_payload a b =
      a.id == b.id
      && a.job_type == b.job_type
      && a.queue == b.queue
      && a.payload == b.payload
      && a.max_attempts == b.max_attempts
      && a.visibility_timeout == b.visibility_timeout
      && option_eq a.scheduled_for b.scheduled_for
      && option_eq a.correlation_id b.correlation_id
      && option_eq a.parent_job_id b.parent_job_id
      && option_eq a.replayed_from b.replayed_from
      && a.max_reclaims == b.max_reclaims
      && a.metadata == b.metadata

  pub same_payload_iff : (a b : IdempotencyPayload P) → (same_payload a b ≡ true) ↔ (a ≡ b)
  unfolding same_payload
  same_payload_iff a b =
      let fields =
        both
          (both
            (both
              (both
                (both
                  (both
                    (both
                      (both
                        (both
                          (both (both (==_iff a.id b.id) (==_iff a.job_type b.job_type))
                            (==_iff a.queue b.queue))
                          (==_iff a.payload b.payload))
                        (==_iff a.max_attempts b.max_attempts))
                      (==_iff a.visibility_timeout b.visibility_timeout))
                    (option_eq_iff a.scheduled_for b.scheduled_for))
                  (option_eq_iff a.correlation_id b.correlation_id))
                (option_eq_iff a.parent_job_id b.parent_job_id))
              (option_eq_iff a.replayed_from b.replayed_from))
            (==_iff a.max_reclaims b.max_reclaims))
          (==_iff a.metadata b.metadata) in
      (
        (λ h.
            let p = fields.0 h in
            λ i. record {
              id = p.0.0.0.0.0.0.0.0.0.0.0 i;
              job_type = p.0.0.0.0.0.0.0.0.0.0.1 i;
              queue = p.0.0.0.0.0.0.0.0.0.1 i;
              payload = p.0.0.0.0.0.0.0.0.1 i;
              max_attempts = p.0.0.0.0.0.0.0.1 i;
              visibility_timeout = p.0.0.0.0.0.0.1 i;
              scheduled_for = p.0.0.0.0.0.1 i;
              correlation_id = p.0.0.0.0.1 i;
              parent_job_id = p.0.0.0.1 i;
              replayed_from = p.0.0.1 i;
              max_reclaims = p.0.1 i;
              metadata = p.1 i;
            }),
        (λ h. fields.1 (
          (
            (
              (
                (
                  (
                    (
                      (
                        (
                          (
                            (
                              ap (λ (r : IdempotencyPayload P). r.id) h,
                              ap (λ (r : IdempotencyPayload P). r.job_type) h,
                            ),
                            ap (λ (r : IdempotencyPayload P). r.queue) h,
                          ),
                          ap (λ (r : IdempotencyPayload P). r.payload) h,
                        ),
                        ap (λ (r : IdempotencyPayload P). r.max_attempts) h,
                      ),
                      ap (λ (r : IdempotencyPayload P). r.visibility_timeout) h,
                    ),
                    ap (λ (r : IdempotencyPayload P). r.scheduled_for) h,
                  ),
                  ap (λ (r : IdempotencyPayload P). r.correlation_id) h,
                ),
                ap (λ (r : IdempotencyPayload P). r.parent_job_id) h,
              ),
              ap (λ (r : IdempotencyPayload P). r.replayed_from) h,
            ),
            ap (λ (r : IdempotencyPayload P). r.max_reclaims) h,
          ),
          ap (λ (r : IdempotencyPayload P). r.metadata) h,
        )),
      )
