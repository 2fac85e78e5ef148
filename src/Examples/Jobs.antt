-- ===== src/Examples/Jobs.antt =====
-- The table `cache_push_jobs` at work.
use crystal_forge.Prelude.{
  ℕ, ◌≡◌, refl, some, true, List, [], ◌∷◌, ok, err, check_violation, arith, All, length,
  if◌then◌else◌, ltb, Option, ◌+◌, ◌*◌, ◌^◌, ◌&&◌, min,
}
use crystal_forge.Table.{find, update_where, exists, count_where}
use crystal_forge.Derivation.{Derivation}
use crystal_forge.CachePush.{
  CachePushJob, pending, in_progress, failed, job_has_id, mark_cache_push_failed, checks_ok,
  index_ok, create_cache_push_job,
}
use crystal_forge.CachePush.Pending.{get_pending_cache_push_jobs, or_ten}
use crystal_forge.CachePush.Worker.{Surroundings, cache_worker_round}
use crystal_forge.CachePush.Attempts.{JobsInv}
use crystal_forge.CachePush.Failing.{IsConsistent, mark_cache_push_failed_lem}
use crystal_forge.CachePush.Offered.{
  has_commit, is_waiting, is_joined, get_pending_cache_push_jobs_lem,
}
use crystal_forge.CachePush.Rounds.{JobsReach, start, step, create, round, JobsReach-JobsInv}
use crystal_forge.Examples.Rows.{system_row, job_row}

abbrev two_jobs : List CachePushJob
two_jobs = job_row 1 1 pending 0 ∷ job_row 2 3 failed 4 ∷ []

abbrev spent_job : List CachePushJob
spent_job = job_row 1 1 in_progress 5 ∷ []

abbrev systems : List Derivation
systems = system_row 1 10 1 ∷ system_row 3 10 1 ∷ []

-- Every path exists and every push succeeds.
abbrev surroundings : Surroundings
surroundings = record { path_exists = λ p. true; push = λ d p. ok tt; duration_ms = 20 }

abbrev commit_times : ℕ → Option ℕ
commit_times c = some 50

two_jobs-JobsInv : JobsInv two_jobs
two_jobs-JobsInv = record {
  unique = ((omega arith, tt), (tt, tt));
  bounded = (
    record { at_most = omega arith; waiting = λ _. omega arith; retrying = λ _ _. omega arith },
    (
      record { at_most = omega arith; waiting = λ _. omega arith; retrying = λ _ _. omega arith },
      tt,
    ),
  );
}

spent_job-IsConsistent : IsConsistent spent_job
unfolding checks_ok index_ok exists
spent_job-IsConsistent = record { checks = refl; index = refl }

mark_failed_example : mark_cache_push_failed 1 "timeout" 900 spent_job ≡ (
    if ltb 5 5
    then (
      update_where
          (job_has_id 1)
          (λ j. record j {
            status = failed;
            completed_at = some 900;
            error_message = some "timeout";
            retry_after = some (900 + 2 ^ 5 * 60000);
          })
          spent_job,
      ok tt,
    )
    else (spent_job, err check_violation))
unfolding find
mark_failed_example =
    mark_cache_push_failed_lem 1 "timeout" 900 spent_job (job_row 1 1 in_progress 5)
      spent_job-IsConsistent refl

get_pending_example :
    (length (get_pending_cache_push_jobs commit_times systems (some 1) 900 two_jobs)
      ≡ min
          (or_ten (some 1))
          (count_where (λ j. is_waiting 900 j && is_joined commit_times systems 900 j) two_jobs))
    × All
        (λ j.
          (find (job_has_id j.id) two_jobs ≡ some j)
          × (is_waiting 900 j ≡ true)
          × (has_commit systems j ≡ true))
        (get_pending_cache_push_jobs commit_times systems (some 1) 900 two_jobs)
get_pending_example =
    get_pending_cache_push_jobs_lem commit_times systems 900 (some 1) two_jobs two_jobs-JobsInv

abbrev created : List CachePushJob
created = (create_cache_push_job 1 1 "/nix/store/abc-gray" (some "s3://cache") 100 []).0

abbrev pushed : List CachePushJob
pushed = cache_worker_round surroundings commit_times systems 900 created

pushed-JobsReach : JobsReach pushed
unfolding exists
pushed-JobsReach =
    step (step start (create 1 1 "/nix/store/abc-gray" (some "s3://cache") 100 refl refl))
      (round surroundings commit_times systems 900 refl)

reach_example : JobsInv pushed
reach_example = JobsReach-JobsInv pushed-JobsReach
