-- ===== src/CachePush/Failing.antt =====
-- The constraints of the table under the ends of a job, and what becomes of a job whose attempts
-- are used up.
use crystal_forge.Prelude.{
  ℕ, ◌+◌, ◌*◌, ◌^◌, ◌≡◌, refl, String, Bool, true, false, Bool-cases, some, inl, inr, List, [], ◌∷◌,
  arith, if◌then◌else◌, ltb, ok, err, check_violation,
}
use crystal_forge.Table.{update_where, find, exists}
use crystal_forge.CachePush.{
  CachePushJob, is_active, active_for, status_allowed, job_has_id, index_ok, checks_ok, write,
  failed, failed_columns, permanent_columns, mark_cache_push_failed,
}

pub record IsConsistent (jobs : List CachePushJob) : Type 0 where
  pub checks : checks_ok jobs ≡ true
  pub index : index_ok jobs ≡ true

-- A change that makes the rows it hits inactive, with an allowed status.
module _ (p : CachePushJob → Bool) (f : CachePushJob → CachePushJob)
    (same : (j : CachePushJob) → (f j).derivation_id ≡ j.derivation_id)
    (ends : (j : CachePushJob) → is_active (f j).status ≡ false)
    (allowed : (j : CachePushJob) → status_allowed (f j).status ≡ true) where
  active-fewer :
      (d : ℕ) (js : List CachePushJob)
      → exists (active_for d) js ≡ false
      → exists (active_for d) (update_where p f js) ≡ false
  unfolding exists update_where
  active-fewer d [] h = refl
  active-fewer d (j ∷ js) h = elim (Bool-cases (p j)) [
    | inl hit ↦ rw hit (ground (arith, ends j, active-fewer d js))
    | inr miss ↦ rw miss (ground (arith, active-fewer d js))
  ]

  index-kept : (js : List CachePushJob) → index_ok js ≡ true → index_ok (update_where p f js) ≡ true
  unfolding index_ok update_where
  index-kept [] h = refl
  index-kept (j ∷ js) h = elim (Bool-cases (p j)) [
    | inl hit ↦ rw hit (ground (arith, ends j, index-kept js))
    | inr miss ↦ rw miss (ground (arith, active-fewer j.derivation_id js, index-kept js))
  ]

  checks-kept :
      (js : List CachePushJob) → checks_ok js ≡ true → checks_ok (update_where p f js) ≡ true
  unfolding checks_ok update_where
  checks-kept [] h = refl
  checks-kept (j ∷ js) h = elim (Bool-cases (p j)) [
    | inl hit ↦ rw hit (ground (arith, allowed j, checks-kept js))
    | inr miss ↦ rw miss (ground (arith, checks-kept js))
  ]

  write-ends :
      {A : Type 0} (js : List CachePushJob) (a : A)
      → IsConsistent js
      → write js (update_where p f js) a ≡ (update_where p f js, ok a)
  unfolding write
  write-ends js a c = rw (checks-kept js c.checks, index-kept js c.index)

-- The status permanently_failed on a row that is there breaks the CHECK.
checks-permanent :
    (i : ℕ) (error : String) (now : ℕ) (js : List CachePushJob) (j : CachePushJob)
    → find (job_has_id i) js ≡ some j
    → checks_ok (update_where (job_has_id i) (permanent_columns error now) js) ≡ false
unfolding checks_ok update_where find permanent_columns
checks-permanent i error now [] j h = cc
checks-permanent i error now (x ∷ xs) j h = ground (arith, checks-permanent i error now xs j)

module _ (i : ℕ) (error : String) (now : ℕ) (jobs : List CachePushJob) (job : CachePushJob) where
  -- With fewer than five attempts, a found job of a consistent table is marked failed, with the
  -- error, completed now, and with its retry 2^attempts minutes from now; with five the call fails
  -- on the status CHECK and the table stays as it was.
  pub mark_cache_push_failed_lem :
      IsConsistent jobs
      → find (job_has_id i) jobs ≡ some job
      → mark_cache_push_failed i error now jobs ≡ (
          if ltb job.attempts 5
          then (
            update_where
                (job_has_id i)
                (λ j. record j {
                  status = failed;
                  completed_at = some now;
                  error_message = some error;
                  retry_after = some (now + 2 ^ job.attempts * 60000);
                })
                jobs,
            ok tt,
          )
          else (jobs, err check_violation))
  unfolding mark_cache_push_failed failed_columns
  mark_cache_push_failed_lem c found = elim (Bool-cases (ltb job.attempts 5)) [
    | inl more ↦
        rw (found, more, mark_cache_push_failed)
          (write-ends (job_has_id i) (failed_columns job.attempts error now) (λ j. refl) (λ j. refl)
            (λ j. refl) jobs tt c)
    | inr spent ↦
        rw (found, spent, mark_cache_push_failed)
          (unfold write in rw (checks-permanent i error now jobs job found))
  ]
