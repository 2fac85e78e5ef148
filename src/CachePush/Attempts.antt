-- ===== src/CachePush/Attempts.antt =====
-- The bound on the attempts of a job, kept by one worker: a job that may still be taken has at most
-- four attempts behind it, and no job has more than five.
use crystal_forge.Prelude.{
  ℕ, ◌≤◌, ◌≡◌, String, Bool, true, Bool-cases, Option, some, inl, inr, List, All, arith, is_some,
  ltb,
}
use crystal_forge.Table.{update_where, find}
use crystal_forge.Table.Rows.{All-update_where}
use crystal_forge.Table.Keys.{IsUnique, All-update_key, IsUnique-update_where}
use crystal_forge.CachePush.{
  CachePushJob, is_pending, is_failed, job_has_id, write, checks_ok, index_ok, start_columns,
  complete_columns, failed_columns, permanent_columns, timeout_columns, reschedule, max_attempts,
}
use crystal_forge.CachePush.Pending.{is_offered}

pub record IsBounded (j : CachePushJob) : Type 0 where
  pub at_most : j.attempts ≤ max_attempts
  pub waiting : is_pending j.status ≡ true → j.attempts ≤ 4
  pub retrying : is_failed j.status ≡ true → is_some j.retry_after ≡ true → j.attempts ≤ 4

module _ {κ} {A : Type 0} (P : List CachePushJob → Type κ) where
  pub write_cases : (old new : List CachePushJob) (a : A) → P old → P new → P (write old new a).0
  unfolding write
  write_cases old new a ho hn = elim (Bool-cases (checks_ok new)) [
    | inr bad ↦ rw bad ho
    | inl good ↦ elim (Bool-cases (index_ok new)) [
      | inr bad ↦ rw (good, bad) ho
      | inl fine ↦ rw (good, fine) hn
    ]
  ]

pub record JobsInv (jobs : List CachePushJob) : Type 0 where
  pub unique : IsUnique (λ (j : CachePushJob). j.id) jobs
  pub bounded : All IsBounded jobs

abbrev pub job_id : CachePushJob → ℕ
job_id j = j.id

-- A change of the row with an id, where the row found under it ends bounded.
pub JobsInv-update :
    (i : ℕ) (f : CachePushJob → CachePushJob) (jobs : List CachePushJob) (job : CachePushJob)
    → ((j : CachePushJob) → (f j).id ≡ j.id)
    → find (job_has_id i) jobs ≡ some job
    → IsBounded (f job)
    → JobsInv jobs
    → JobsInv (update_where (job_has_id i) f jobs)
JobsInv-update i f jobs job same found b inv = record {
  unique = IsUnique-update_where job_id (job_has_id i) f jobs same inv.unique;
  bounded =
      All-update_key job_id IsBounded IsBounded i f jobs job inv.unique found b (λ y h. h)
        inv.bounded;
}

-- A change of every row that a test picks, where the change keeps rows bounded.
pub JobsInv-update_all :
    (p : CachePushJob → Bool) (f : CachePushJob → CachePushJob) (jobs : List CachePushJob)
    → ((j : CachePushJob) → (f j).id ≡ j.id)
    → ((j : CachePushJob) → IsBounded j → p j ≡ true → IsBounded (f j))
    → JobsInv jobs
    → JobsInv (update_where p f jobs)
JobsInv-update_all p f jobs same keep inv = record {
  unique = IsUnique-update_where job_id p f jobs same inv.unique;
  bounded = All-update_where IsBounded IsBounded p f jobs keep (λ j h _. h) inv.bounded;
}

module _ (now : ℕ) where
  pub start-IsBounded :
      (j : CachePushJob) → is_offered now j ≡ true → IsBounded j → IsBounded (start_columns now j)
  unfolding start_columns is_offered
  start-IsBounded j o b = ground (arith, b.waiting, b.retrying)

  pub failed-IsBounded :
      (error : String) (j : CachePushJob)
      → j.attempts ≤ 4
      → IsBounded (failed_columns j.attempts error now j)
  unfolding failed_columns
  failed-IsBounded error j h = ground arith

  pub permanent-IsBounded :
      (error : String) (j : CachePushJob) → IsBounded j → IsBounded (permanent_columns error now j)
  unfolding permanent_columns
  permanent-IsBounded error j b = ground (arith, b.at_most)

  pub complete-IsBounded :
      (size duration : Option ℕ) (j : CachePushJob)
      → IsBounded j
      → IsBounded (complete_columns size duration now j)
  unfolding complete_columns
  complete-IsBounded size duration j b = ground (arith, b.at_most)

  pub timeout-IsBounded : (j : CachePushJob) → IsBounded j → IsBounded (timeout_columns now j)
  unfolding timeout_columns
  timeout-IsBounded j b = ground (arith, b.at_most)

  pub reschedule-IsBounded :
      (path : String) (destination : Option String) (j : CachePushJob)
      → ltb j.attempts 5 ≡ true
      → IsBounded (reschedule path destination now j)
  unfolding reschedule
  reschedule-IsBounded path destination j h = ground arith
