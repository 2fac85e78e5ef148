-- ===== src/CachePush/Rounds.antt =====
-- What holds after any sequence of worker rounds, new jobs and cleanups.
use mathlib.Core.Path.{subst}
use text.Mathlib.Text.{starts_with}
use Prim.Native.String.{◌++◌}
use crystal_forge.Prelude.{
  ℕ, ◌≡◌, ◌∙◌, String, true, false, Bool-cases, Option-cases, Option, none, some, inl, inr, List,
  [], Result, ok, err, sym, ◌&&◌, not,
}
use crystal_forge.Table.{find, exists}
use crystal_forge.Derivation.{Derivation, has_id}
use crystal_forge.CachePush.{
  CachePushJob, job_has_id, mark_cache_push_in_progress, cleanup_stale_cache_push_jobs,
  create_cache_push_job,
}
use crystal_forge.CachePush.Pending.{get_pending_cache_push_jobs}
use crystal_forge.CachePush.Worker.{
  Surroundings, process_one_job, push_path, path_of, record_push, error_text, cache_worker_round,
  pop, after_mark,
}
use crystal_forge.CachePush.Attempts.{JobsInv}
use crystal_forge.CachePush.Keeps.{
  mark_in_progress-JobsInv, mark_completed-JobsInv, mark_failed-JobsInv, cleanup-JobsInv,
  create-JobsInv,
}
use crystal_forge.CachePush.Offered.{
  get_pending_cache_push_jobs_lem, has_commit, All-pop, is_waiting, is_waiting_lem,
}

module _ (env : Surroundings) (ds : List Derivation) (now : ℕ) (job : CachePushJob) where
  record_push-JobsInv :
      (r : Result (Unit {0})) (jobs : List CachePushJob)
      → JobsInv jobs
      → JobsInv (record_push env now job r jobs).0
  unfolding record_push
  record_push-JobsInv (ok _) jobs inv =
      mark_completed-JobsInv job.id none (some env.duration_ms) now jobs inv
  record_push-JobsInv (err e) jobs inv = mark_failed-JobsInv job.id (error_text e) now jobs inv

  push_path-JobsInv :
      (d : Derivation) (path : String) (jobs : List CachePushJob)
      → JobsInv jobs
      → JobsInv (push_path env now job d path jobs).0
  unfolding push_path
  push_path-JobsInv d path jobs inv =
      elim (Bool-cases (starts_with path "/nix/store/" && not (env.path_exists path))) [
        | inl missing ↦
            rw missing (mark_failed-JobsInv job.id ("Store path missing: " ++ path) now jobs inv)
        | inr there ↦ rw there (record_push-JobsInv (env.push d path) jobs inv)
      ]

  process_one_job-JobsInv :
      (jobs : List CachePushJob) → JobsInv jobs → JobsInv (process_one_job env ds now job jobs).0
  unfolding process_one_job
  process_one_job-JobsInv jobs inv = elim (Option-cases (find (has_id job.derivation_id) ds)) [
    | inl absent ↦ rw (absent, process_one_job) inv
    | inr (d, there) ↦ elim (Option-cases (path_of job d)) [
      | inl no_path ↦ rw (there, no_path, process_one_job) inv
      | inr (path, known) ↦ rw (there, known, process_one_job) (push_path-JobsInv d path jobs inv)
    ]
  ]

  after_mark-JobsInv :
      (m : List CachePushJob × Result (Unit {0}))
      → JobsInv m.0
      → JobsInv (after_mark env ds now job m)
  after_mark-JobsInv (jobs, ok _) inv = process_one_job-JobsInv jobs inv
  after_mark-JobsInv (jobs, err e) inv = inv

module _ (env : Surroundings) (timestamp_of : ℕ → Option ℕ) (ds : List Derivation) (now : ℕ) where
  -- A round of the worker keeps the ids unique and the attempts bounded, whatever the query offers,
  -- the file system holds and the push answers.
  pub cache_worker_round-JobsInv :
      (jobs : List CachePushJob)
      → JobsInv jobs
      → JobsInv (cache_worker_round env timestamp_of ds now jobs)
  unfolding cache_worker_round
  cache_worker_round-JobsInv jobs inv =
      let offered = get_pending_cache_push_jobs timestamp_of ds (some 1) now jobs in
      elim (Option-cases (pop offered)) [
        | inl idle ↦ rw (idle, cache_worker_round) inv
        | inr (job, taken) ↦
            let (found, due, _) =
              All-pop
                (λ j.
                  (find (job_has_id j.id) jobs ≡ some j)
                  × (is_waiting now j ≡ true)
                  × (has_commit ds j ≡ true))
                offered job
                (get_pending_cache_push_jobs_lem timestamp_of ds now (some 1) jobs inv).1 taken in
            rw (taken, cache_worker_round)
              (after_mark-JobsInv env ds now job (mark_cache_push_in_progress job.id now jobs)
                (mark_in_progress-JobsInv now jobs job found (is_waiting_lem now job ∙ due) inv))
      ]

-- What one builder with a single cache worker does to the jobs: it creates a job under a fresh id,
-- it works a round, it cleans up.
pub data JobsStep : List CachePushJob → List CachePushJob → Type 0 where
  create :
      {jobs jobs' : List CachePushJob} (id d : ℕ) (path : String) (destination : Option String)
      (now : ℕ)
      → exists (job_has_id id) jobs ≡ false
      → jobs' ≡ (create_cache_push_job id d path destination now jobs).0
      → JobsStep jobs jobs'
  round :
      {jobs jobs' : List CachePushJob} (env : Surroundings) (timestamp_of : ℕ → Option ℕ)
      (ds : List Derivation) (now : ℕ)
      → jobs' ≡ cache_worker_round env timestamp_of ds now jobs
      → JobsStep jobs jobs'
  cleanup :
      {jobs jobs' : List CachePushJob} (minutes now : ℕ)
      → jobs' ≡ (cleanup_stale_cache_push_jobs minutes now jobs).0
      → JobsStep jobs jobs'

pub data JobsReach : List CachePushJob → Type 0 where
  start : JobsReach []
  step : {jobs jobs' : List CachePushJob} → JobsReach jobs → JobsStep jobs jobs' → JobsReach jobs'

JobsStep-JobsInv :
    {jobs jobs' : List CachePushJob} → JobsStep jobs jobs' → JobsInv jobs → JobsInv jobs'
JobsStep-JobsInv (create id d path destination now fresh e) inv =
    subst JobsInv (sym e) (create-JobsInv id d path destination now _ fresh inv)
JobsStep-JobsInv (round env timestamp_of ds now e) inv =
    subst JobsInv (sym e) (cache_worker_round-JobsInv env timestamp_of ds now _ inv)
JobsStep-JobsInv (cleanup minutes now e) inv =
    subst JobsInv (sym e) (cleanup-JobsInv minutes now _ inv)

-- From the empty table, by creations, rounds of one worker and cleanups in any order and at any
-- times, ids stay unique, no job is ever started more than five times, and a job that is pending,
-- or failed with a retry time, has been started at most four times.
pub JobsReach-JobsInv : {jobs : List CachePushJob} → JobsReach jobs → JobsInv jobs
JobsReach-JobsInv start = record { unique = tt; bounded = tt }
JobsReach-JobsInv (step r s) = JobsStep-JobsInv s (JobsReach-JobsInv r)
