-- ===== src/Outbox/Fixtures.antt =====
-- Jobs for the tests of the outbox.
use histae_api.Prelude.{ℕ, none, some, false, Bool}
use histae_api.Outbox.Models.{Event, NewEvent, photo_delete, Status}

abbrev pub photo : ℕ → NewEvent
photo n = record { event_type = photo_delete; aggregate_id = n }

abbrev pub job : ℕ → Event
job n = record {
  id = n;
  event_type = photo_delete;
  aggregate_id = n;
  status = Status.pending;
  attempts = 0;
  available_at = 0;
  locked_at = none;
  locked_by = none;
  last_error_code = none;
  created_at = 0;
  processed_at = none;
  dead_lettered_at = none;
  resolved_at = none;
  resolved_by = none;
  resolution_reason = none;
}

-- `job n` in the hands of worker 7 since instant 100.
abbrev pub held_job : ℕ → Event
held_job n = record (job n) {
  status = Status.processing;
  attempts = 1;
  locked_at = some 100;
  locked_by = some 7;
}

abbrev pub done_job : ℕ → Event
done_job n = record (job n) { status = Status.completed; attempts = 1; processed_at = some 200 }

abbrev pub unlocked : ℕ → Bool
unlocked _ = false
