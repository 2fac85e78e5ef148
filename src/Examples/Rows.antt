-- ===== src/Examples/Rows.antt =====
-- Rows that the examples share.
use crystal_forge.Prelude.{ℕ, none, some, true}
use crystal_forge.Derivation.{Derivation, nixos_type}
use crystal_forge.CachePush.{CachePushJob, JobStatus}

-- A system of commit 7 with its id, status, path known and attempts.
abbrev pub system_row : ℕ → ℕ → ℕ → Derivation
system_row id status_id attempts = record {
  id = id;
  commit_id = some 7;
  derivation_type = nixos_type;
  derivation_name = "gray";
  derivation_path = some "/nix/store/abc-gray.drv";
  scheduled_at = some 100;
  completed_at = none;
  started_at = some 1500;
  attempt_count = attempts;
  evaluation_duration_ms = none;
  error_message = none;
  pname = none;
  version = none;
  status_id = status_id;
  derivation_target = none;
  build_elapsed_seconds = none;
  build_current_target = none;
  build_last_activity_seconds = none;
  build_last_heartbeat = none;
  cf_agent_enabled = some true;
  store_path = none;
}

-- A job with its id, derivation, status and attempts, due for a retry at 500.
abbrev pub job_row : ℕ → ℕ → JobStatus → ℕ → CachePushJob
job_row id derivation_id status attempts = record {
  id = id;
  derivation_id = derivation_id;
  status = status;
  store_path = some "/nix/store/abc-gray";
  scheduled_at = 100;
  started_at = none;
  completed_at = none;
  attempts = attempts;
  error_message = none;
  push_size_bytes = none;
  push_duration_ms = none;
  cache_destination = some "s3://cache";
  retry_after = some 500;
}
