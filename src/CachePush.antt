-- ===== src/CachePush.antt =====
-- packages/default/src/queries/cache_push.rs: the table `cache_push_jobs` and its operations.
-- Its constraints are those of migration 0052: the CHECK on the status, and the unique index on the
-- derivations with a pending or running job. A write that breaks one fails and changes nothing.
pub mod Pending
pub mod Worker
pub mod Failing
pub mod Attempts
pub mod Keeps
pub mod Offered
pub mod Rounds
pub mod Retry
use crystal_forge.Prelude.{
  ℕ, suc, ◌+◌, ◌*◌, ◌^◌, String, Bool, true, false, Option, none, some, List, [], ◌∷◌, ◌++◌, ◌&&◌,
  ◌||◌, not, ◌==◌, ltb, leb, Result, ok, err, Error, row_not_found, unique_violation,
  check_violation, if◌then◌else◌, str_eq,
}
use crystal_forge.Table.{update_where, select_where, find, exists, count_where}
use crystal_forge.Derivation.{Derivation}

pub data JobStatus : Type 0 where
  pending in_progress completed failed permanently_failed : JobStatus

pub record CachePushJob : Type 0 where
  pub id : ℕ
  pub derivation_id : ℕ
  pub status : JobStatus
  pub store_path : Option String
  pub scheduled_at : ℕ
  pub started_at : Option ℕ
  pub completed_at : Option ℕ
  pub attempts : ℕ
  pub error_message : Option String
  pub push_size_bytes : Option ℕ
  pub push_duration_ms : Option ℕ
  pub cache_destination : Option String
  pub retry_after : Option ℕ

abbrev pub job_has_id : ℕ → CachePushJob → Bool
job_has_id i j = j.id == i

abbrev pub is_pending : JobStatus → Bool
is_pending pending = true
is_pending _ = false

abbrev pub is_running : JobStatus → Bool
is_running in_progress = true
is_running _ = false

abbrev pub is_failed : JobStatus → Bool
is_failed failed = true
is_failed _ = false

-- status IN ('pending', 'in_progress')
abbrev pub is_active : JobStatus → Bool
is_active pending = true
is_active in_progress = true
is_active _ = false

-- CHECK (status IN ('pending', 'in_progress', 'completed', 'failed'))
abbrev pub status_allowed : JobStatus → Bool
status_allowed permanently_failed = false
status_allowed _ = true

abbrev pub active_for : ℕ → CachePushJob → Bool
active_for d j = (j.derivation_id == d) && is_active j.status

-- The unique index on (derivation_id) WHERE status IN ('pending', 'in_progress').
unfoldable pub index_ok : List CachePushJob → Bool
index_ok [] = true
index_ok (j ∷ js) =
    (not (is_active j.status) || not (exists (active_for j.derivation_id) js)) && index_ok js

unfoldable pub checks_ok : List CachePushJob → Bool
checks_ok [] = true
checks_ok (j ∷ js) = status_allowed j.status && checks_ok js

-- A write statement: the new rows if they meet the constraints, else the old ones and the error.
unfoldable pub write :
    {A : Type 0} → List CachePushJob → List CachePushJob → A → List CachePushJob × Result A
write old new a =
    if not (checks_ok new)
    then (old, err check_violation)
    else if not (index_ok new)
    then (old, err unique_violation)
    else (new, ok a)

-- ORDER BY scheduled_at DESC LIMIT 1
unfoldable pub latest : List CachePushJob → Option CachePushJob
latest [] = none
latest (j ∷ js) = elim (latest js) [
  | none ↦ some j
  | some k ↦ some (if ltb j.scheduled_at k.scheduled_at then k else j)
]

abbrev pub retryable_for : ℕ → CachePushJob → Bool
retryable_for d j = (j.derivation_id == d) && is_failed j.status && ltb j.attempts 5

unfoldable pub new_job : ℕ → ℕ → Option String → Option String → ℕ → CachePushJob
new_job id derivation_id store_path destination now = record {
  id = id;
  derivation_id = derivation_id;
  status = pending;
  store_path = store_path;
  scheduled_at = now;
  started_at = none;
  completed_at = none;
  attempts = 0;
  error_message = none;
  push_size_bytes = none;
  push_duration_ms = none;
  cache_destination = destination;
  retry_after = none;
}

unfoldable pub reschedule : String → Option String → ℕ → CachePushJob → CachePushJob
reschedule store_path destination now j = record j {
  status = pending;
  store_path = some store_path;
  cache_destination = destination;
  scheduled_at = now;
}

-- The last two steps of `create_cache_push_job`: a failed job with attempts left is reset, and
-- without one a new job is inserted.
unfoldable pub retry_or_insert :
    Option CachePushJob
    → ℕ
    → ℕ
    → String
    → Option String
    → ℕ
    → List CachePushJob
    → List CachePushJob × Result ℕ
unfolding new_job reschedule write
retry_or_insert (some old) id derivation_id store_path destination now jobs =
    write jobs (update_where (job_has_id old.id) (reschedule store_path destination now) jobs)
      old.id
retry_or_insert none id derivation_id store_path destination now jobs =
    write jobs (jobs ++ new_job id derivation_id (some store_path) destination now ∷ []) id

-- `id` is the value of the sequence, used if a job is inserted.
unfoldable pub create_cache_push_job :
    ℕ → ℕ → String → Option String → ℕ → List CachePushJob → List CachePushJob × Result ℕ
unfolding retry_or_insert latest
create_cache_push_job id derivation_id store_path destination now jobs =
    elim (find (active_for derivation_id) jobs) [
      | some existing ↦ (jobs, ok existing.id)
      | none ↦
          retry_or_insert (latest (select_where (retryable_for derivation_id) jobs)) id
            derivation_id store_path destination now jobs
    ]

unfoldable pub start_columns : ℕ → CachePushJob → CachePushJob
start_columns now j = record j {
  status = in_progress;
  started_at = some now;
  attempts = j.attempts + 1;
  completed_at = none;
  error_message = none;
  retry_after = none;
}

unfoldable pub mark_cache_push_in_progress :
    ℕ → ℕ → List CachePushJob → List CachePushJob × Result (Unit {0})
unfolding start_columns write
mark_cache_push_in_progress job_id now jobs =
    write jobs (update_where (job_has_id job_id) (start_columns now) jobs) tt

unfoldable pub complete_columns : Option ℕ → Option ℕ → ℕ → CachePushJob → CachePushJob
complete_columns size duration now j = record j {
  status = completed;
  completed_at = some now;
  push_size_bytes = size;
  push_duration_ms = duration;
}

-- The removal of the GC root after the update is outside the table; its errors are logged only.
unfoldable pub mark_cache_push_completed :
    ℕ → Option ℕ → Option ℕ → ℕ → List CachePushJob → List CachePushJob × Result (Unit {0})
unfolding complete_columns write
mark_cache_push_completed job_id size duration now jobs = elim (find (job_has_id job_id) jobs) [
  | none ↦ (jobs, err row_not_found)
  | some job ↦
      write jobs (update_where (job_has_id job_id) (complete_columns size duration now) jobs) tt
]

abbrev pub minute : ℕ
minute = 60000

abbrev pub max_attempts : ℕ
max_attempts = 5

-- 2_i32.pow(attempts), taken only below `max_attempts`
abbrev pub backoff_minutes : ℕ → ℕ
backoff_minutes attempts = 2 ^ attempts

unfoldable pub failed_columns : ℕ → String → ℕ → CachePushJob → CachePushJob
failed_columns attempts error now j = record j {
  status = failed;
  completed_at = some now;
  error_message = some error;
  retry_after = some (now + backoff_minutes attempts * minute);
}

unfoldable pub permanent_columns : String → ℕ → CachePushJob → CachePushJob
permanent_columns error now j = record j {
  status = permanently_failed;
  completed_at = some now;
  error_message = some error;
  retry_after = none;
}

unfoldable pub mark_cache_push_failed :
    ℕ → String → ℕ → List CachePushJob → List CachePushJob × Result (Unit {0})
unfolding failed_columns permanent_columns write
mark_cache_push_failed job_id error now jobs = elim (find (job_has_id job_id) jobs) [
  | none ↦ (jobs, err row_not_found)
  | some job ↦
      if ltb job.attempts max_attempts
      then write jobs
          (update_where (job_has_id job_id) (failed_columns job.attempts error now) jobs) tt
      else write jobs (update_where (job_has_id job_id) (permanent_columns error now) jobs) tt
]

-- started_at < NOW() - interval; a NULL is not before anything.
abbrev pub started_before : ℕ → ℕ → Option ℕ → Bool
started_before now age none = false
started_before now age (some t) = ltb (t + age) now

unfoldable pub is_stuck : ℕ → ℕ → CachePushJob → Bool
is_stuck timeout_minutes now j =
    is_running j.status && started_before now (timeout_minutes * minute) j.started_at

unfoldable pub timeout_columns : ℕ → CachePushJob → CachePushJob
timeout_columns now j = record j {
  status = failed;
  error_message = some "Job timeout - stuck in progress";
  completed_at = some now;
  retry_after = if ltb j.attempts 5 then some (now + backoff_minutes j.attempts * minute) else none;
}

unfoldable pub cleanup_stale_cache_push_jobs :
    ℕ → ℕ → List CachePushJob → List CachePushJob × Result (Unit {0})
unfolding is_stuck timeout_columns write
cleanup_stale_cache_push_jobs timeout_minutes now jobs =
    write jobs (update_where (is_stuck timeout_minutes now) (timeout_columns now) jobs) tt
