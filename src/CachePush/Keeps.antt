-- ===== src/CachePush/Keeps.antt =====
-- Every operation on the jobs keeps the bound on the attempts.
use mathlib.Core.Path.{subst}
use mathlib.Core.Option.{some-injective}
use crystal_forge.Prelude.{
  Option-cases, ℕ, ◌≡◌, refl, String, true, false, Bool-cases, Option, some, inl, inr, List, [],
  ◌∷◌, ◌++◌, All, All-append, arith, ltb,
}
use crystal_forge.Table.{select_where, find, exists}
use crystal_forge.Table.Rows.{All-find, All-select_where}
use crystal_forge.Table.Keys.{IsUnique-find, IsUnique-snoc}
use crystal_forge.CachePush.{
  CachePushJob, job_has_id, start_columns, complete_columns, failed_columns, permanent_columns,
  timeout_columns, is_stuck, mark_cache_push_in_progress, mark_cache_push_completed,
  mark_cache_push_failed, cleanup_stale_cache_push_jobs, create_cache_push_job, retry_or_insert,
  retryable_for, active_for, latest, reschedule, new_job, max_attempts,
}
use crystal_forge.CachePush.Pending.{is_offered}
use crystal_forge.CachePush.Attempts.{
  IsBounded, JobsInv, write_cases, job_id, JobsInv-update, JobsInv-update_all, start-IsBounded,
  failed-IsBounded, permanent-IsBounded, complete-IsBounded, timeout-IsBounded,
  reschedule-IsBounded,
}

module _ {κ} (P : CachePushJob → Type κ) where
  All-latest : (js : List CachePushJob) (j : CachePushJob) → All P js → latest js ≡ some j → P j
  unfolding latest
  All-latest [] j h e = cc
  All-latest (k ∷ ks) j h e = elim (Option-cases (latest ks)) [
    | inl none_yet ↦ subst P (some-injective _ _ (rw (none_yet, latest) at e)) h.0
    | inr (m, later) ↦ elim (Bool-cases (ltb k.scheduled_at m.scheduled_at)) [
      | inl newer ↦
          subst P (some-injective _ _ (rw (later, newer, latest) at e)) (All-latest ks m h.1 later)
      | inr older ↦ subst P (some-injective _ _ (rw (later, older, latest) at e)) h.0
    ]
  ]

pub mark_in_progress-JobsInv :
    (now : ℕ) (jobs : List CachePushJob) (job : CachePushJob)
    → find (job_has_id job.id) jobs ≡ some job
    → is_offered now job ≡ true
    → JobsInv jobs
    → JobsInv (mark_cache_push_in_progress job.id now jobs).0
unfolding mark_cache_push_in_progress start_columns
mark_in_progress-JobsInv now jobs job found o inv = write_cases JobsInv jobs _ tt inv (
    JobsInv-update job.id (start_columns now) jobs job (λ j. refl) found
      (start-IsBounded now job o
        (All-find IsBounded (job_has_id job.id) jobs job inv.bounded found))
      inv)

pub mark_completed-JobsInv :
    (i : ℕ) (size duration : Option ℕ) (now : ℕ) (jobs : List CachePushJob)
    → JobsInv jobs
    → JobsInv (mark_cache_push_completed i size duration now jobs).0
unfolding mark_cache_push_completed complete_columns
mark_completed-JobsInv i size duration now jobs inv =
    elim (Option-cases (find (job_has_id i) jobs)) [
      | inl absent ↦ rw (absent, mark_cache_push_completed) inv
      | inr (job, found) ↦
          rw (found, mark_cache_push_completed)
            (write_cases JobsInv jobs _ tt inv (
              JobsInv-update i (complete_columns size duration now) jobs job (λ j. refl) found
                (complete-IsBounded now size duration job
                  (All-find IsBounded (job_has_id i) jobs job inv.bounded found))
                inv))
    ]

pub mark_failed-JobsInv :
    (i : ℕ) (error : String) (now : ℕ) (jobs : List CachePushJob)
    → JobsInv jobs
    → JobsInv (mark_cache_push_failed i error now jobs).0
unfolding mark_cache_push_failed
mark_failed-JobsInv i error now jobs inv = elim (Option-cases (find (job_has_id i) jobs)) [
  | inl absent ↦ rw (absent, mark_cache_push_failed) inv
  | inr (job, found) ↦ elim (Bool-cases (ltb job.attempts max_attempts)) [
    | inl more ↦
        rw (found, more, mark_cache_push_failed)
          (write_cases JobsInv jobs _ tt inv (
            JobsInv-update i (failed_columns job.attempts error now) jobs job (λ j. refl) found
              (failed-IsBounded now error job (ground arith)) inv))
    | inr spent ↦
        rw (found, spent, mark_cache_push_failed)
          (write_cases JobsInv jobs _ tt inv (
            JobsInv-update i (permanent_columns error now) jobs job (λ j. refl) found
              (permanent-IsBounded now error job
                (All-find IsBounded (job_has_id i) jobs job inv.bounded found))
              inv))
  ]
]

pub cleanup-JobsInv :
    (minutes now : ℕ) (jobs : List CachePushJob)
    → JobsInv jobs
    → JobsInv (cleanup_stale_cache_push_jobs minutes now jobs).0
unfolding cleanup_stale_cache_push_jobs
cleanup-JobsInv minutes now jobs inv = write_cases JobsInv jobs _ tt inv (
    JobsInv-update_all (is_stuck minutes now) (timeout_columns now) jobs (λ j. refl)
      (λ j b _. timeout-IsBounded now j b) inv)

-- The row that `latest` picks among the failed ones stands in the table and may be retried.
pub retryable_found :
    (d : ℕ) (jobs : List CachePushJob) (old : CachePushJob)
    → JobsInv jobs
    → latest (select_where (retryable_for d) jobs) ≡ some old
    → (find (job_has_id old.id) jobs ≡ some old) × (retryable_for d old ≡ true)
retryable_found d jobs old inv e =
    All-latest (λ j. (find (job_has_id j.id) jobs ≡ some j) × (retryable_for d j ≡ true))
      (select_where (retryable_for d) jobs) old
      (All-select_where (λ j. find (job_has_id j.id) jobs ≡ some j) (retryable_for d) jobs
        (IsUnique-find job_id jobs inv.unique))
      e

snoc-JobsInv :
    (new : CachePushJob) (jobs : List CachePushJob)
    → exists (job_has_id new.id) jobs ≡ false
    → IsBounded new
    → JobsInv jobs
    → JobsInv (jobs ++ new ∷ [])
snoc-JobsInv new jobs fresh b inv = record {
  unique = IsUnique-snoc job_id new jobs fresh inv.unique;
  bounded = All-append IsBounded jobs (new ∷ []) inv.bounded (b, tt);
}

pub create-JobsInv :
    (id d : ℕ) (path : String) (destination : Option String) (now : ℕ) (jobs : List CachePushJob)
    → exists (job_has_id id) jobs ≡ false
    → JobsInv jobs
    → JobsInv (create_cache_push_job id d path destination now jobs).0
unfolding create_cache_push_job
create-JobsInv id d path destination now jobs fresh inv =
    elim (Option-cases (find (active_for d) jobs)) [
      | inr (job, found) ↦ rw (found, create_cache_push_job) inv
      | inl absent ↦ elim (Option-cases (latest (select_where (retryable_for d) jobs))) [
        | inl none_left ↦
            rw (absent, none_left, create_cache_push_job, retry_or_insert)
              (write_cases JobsInv jobs _ id inv (
                snoc-JobsInv (new_job id d (some path) destination now) jobs fresh (ground arith)
                  inv))
        | inr (old, chosen) ↦
            rw (absent, chosen, create_cache_push_job, retry_or_insert)
              (write_cases JobsInv jobs _ old.id inv (
                JobsInv-update old.id (reschedule path destination now) jobs old (λ j. refl)
                  (retryable_found d jobs old inv chosen).0
                  (reschedule-IsBounded now path destination old
                    (ground (arith, retryable_found d jobs old inv chosen)))
                  inv))
      ]
    ]
