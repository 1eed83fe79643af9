-- ===== src/Workers/DeadLetter/Tests.antt =====
-- A store with two entries, and the theorem about listings at it.
use skrift.Workers.DeadLetter.Filters.{IsSelected}
use skrift.Prelude.{true, ◌↔◌, ℕ, String, ◌≡◌, refl, none, some, [], ◌∷◌, ℕ_beq, string_beq, filter}
use skrift.Prelude.Dict
use skrift.Prelude.Dict.{Dict}
use skrift.Workers.DeadLetter.{
  DeadJobEntry, DeadLetterFilter, poison, open_entry, create, select, list_entries,
}
use skrift.Workers.Job.{JobEnvelope}
use skrift.Workers.DeadLetter.Listing.{IsNewestFirst, of_time, list_entries_lem}

abbrev job : JobEnvelope ℕ
job = record {
  id = "a";
  job_type = "mail";
  queue = "default";
  payload = 7;
  submitted_at = 0;
  attempt = 0;
  max_attempts = 3;
  visibility_timeout = 30;
  scheduled_for = none;
  ready_since = none;
  correlation_id = none;
  parent_job_id = none;
  replayed_from = none;
  reclaim_count = 0;
  max_reclaims = 3;
  metadata = 0;
}

abbrev older : DeadJobEntry ℕ
older = record {
  id = "d1";
  job = job;
  queue = "default";
  job_type = "mail";
  cause = poison;
  state = open_entry;
  attempts = [];
  created_at = 5;
  updated_at = 5;
  retention_until = none;
  latest_error = "";
  replayed_to_job_id = none;
  discarded_reason = none;
  discarded_at = none;
  replayed_at = none;
}

abbrev newer : DeadJobEntry ℕ
newer = record older { id = "d2"; created_at = 9 }

abbrev entries : Dict String (DeadJobEntry ℕ)
entries = (create (create [] older).0 newer).0

abbrev everything : DeadLetterFilter
everything = record {
  queue = some "default";
  job_type = none;
  cause = some "poison";
  state = some "";
  exception_type = none;
  created_after = none;
  created_before = some 9;
}

list_entries_test : list_entries entries everything ≡ newer ∷ older ∷ []
unfolding list_entries create Dict.put
list_entries_test = refl

list_entries_lem_example :
    IsNewestFirst (list_entries entries everything)
    × ((t : ℕ)
        → of_time t (list_entries entries everything)
          ≡ of_time t (filter (select everything) (Dict.values entries)))
    × ((entry : DeadJobEntry ℕ) → (select everything entry ≡ true) ↔ IsSelected everything entry)
list_entries_lem_example = list_entries_lem entries everything
