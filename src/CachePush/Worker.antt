-- ===== src/CachePush/Worker.antt =====
-- packages/default/src/builder/mod.rs: `process_one_job` and one round of the loop of
-- `cache_worker`. The file system, the push itself and the clock are parameters; the displayed
-- worker status is left out.
use text.Mathlib.Text.{starts_with}
use Prim.Native.String.{◌++◌}
use crystal_forge.Prelude.{
  ℕ, String, Bool, Option, none, some, List, [], ◌∷◌, ◌&&◌, not, Result, ok, err, Error,
  row_not_found, foreign_key_violation, unique_violation, check_violation, not_null_violation,
  numeric_value_out_of_range, message, coalesce, if◌then◌else◌,
}
use crystal_forge.Table.{find}
use crystal_forge.Derivation.{Derivation, has_id}
use crystal_forge.CachePush.{
  CachePushJob, mark_cache_push_in_progress, mark_cache_push_completed, mark_cache_push_failed,
}
use crystal_forge.CachePush.Pending.{get_pending_cache_push_jobs}

-- e.to_string()
abbrev pub error_text : Error → String
error_text row_not_found = "no rows returned by a query that expected to return at least one row"
error_text foreign_key_violation = "foreign key violation"
error_text unique_violation = "unique violation"
error_text check_violation = "check violation"
error_text not_null_violation = "not-null violation"
error_text numeric_value_out_of_range = "integer out of range"
error_text (message s) = s

-- What the worker reads of its surroundings: whether a path exists (`try_exists`, an error counting
-- as no), and what `push_to_cache` answers for a derivation and a path, with the time it takes.
pub record Surroundings : Type 0 where
  pub path_exists : String → Bool
  pub push : Derivation → String → Result (Unit {0})
  pub duration_ms : ℕ

-- The path pushed: the job's, else the derivation's store path, else its derivation path.
unfoldable pub path_of : CachePushJob → Derivation → Option String
path_of job d = coalesce job.store_path (coalesce d.store_path d.derivation_path)

-- The end of a push is recorded on the job.
unfoldable pub record_push :
    Surroundings
    → ℕ
    → CachePushJob
    → Result (Unit {0})
    → List CachePushJob
    → List CachePushJob × Result (Unit {0})
record_push env now job (ok _) jobs =
    mark_cache_push_completed job.id none (some env.duration_ms) now jobs
record_push env now job (err e) jobs = mark_cache_push_failed job.id (error_text e) now jobs

unfoldable pub push_path :
    Surroundings
    → ℕ
    → CachePushJob
    → Derivation
    → String
    → List CachePushJob
    → List CachePushJob × Result (Unit {0})
unfolding record_push
push_path env now job d path jobs =
    if starts_with path "/nix/store/" && not (env.path_exists path)
    then mark_cache_push_failed job.id ("Store path missing: " ++ path) now jobs
    else record_push env now job (env.push d path) jobs

unfoldable pub process_one_job :
    Surroundings
    → List Derivation
    → ℕ
    → CachePushJob
    → List CachePushJob
    → List CachePushJob × Result (Unit {0})
unfolding path_of push_path
process_one_job env ds now job jobs = elim (find (has_id job.derivation_id) ds) [
  | none ↦ (jobs, err row_not_found)
  | some d ↦ elim (path_of job d) [
    | none ↦ (jobs, err (message "no store/derivation path"))
    | some path ↦ push_path env now job d path jobs
  ]
]

abbrev pub pop : List CachePushJob → Option CachePushJob
pop [] = none
pop (j ∷ []) = some j
pop (j ∷ k ∷ js) = pop (k ∷ js)

-- After the job is marked: it is processed if the mark was written.
abbrev pub after_mark :
    Surroundings
    → List Derivation
    → ℕ
    → CachePushJob
    → List CachePushJob × Result (Unit {0})
    → List CachePushJob
after_mark env ds now job (jobs, ok _) = (process_one_job env ds now job jobs).0
after_mark env ds now job (jobs, err _) = jobs

-- One round: the job that the query gives is marked and processed; without one nothing happens.
unfoldable pub cache_worker_round :
    Surroundings → (ℕ → Option ℕ) → List Derivation → ℕ → List CachePushJob → List CachePushJob
unfolding process_one_job
cache_worker_round env timestamp_of ds now jobs =
    elim (pop (get_pending_cache_push_jobs timestamp_of ds (some 1) now jobs)) [
      | none ↦ jobs
      | some job ↦ after_mark env ds now job (mark_cache_push_in_progress job.id now jobs)
    ]
