-- ===== src/CachePush/Offered.antt =====
-- What the queue hands to a worker.
use mathlib.Core.Path.{subst}
use mathlib.Core.Option.{some-injective}
use crystal_forge.Prelude.{
  ℕ, zero, suc, ◌≡◌, Bool, true, false, Bool-cases, Option-cases, Option, none, some, inl, inr,
  List, [], ◌∷◌, All, All-append, arith, is_some, length, ap, ◌∙◌, sym, refl, min, leb, ◌&&◌,
  length-append, if◌then◌else◌,
}
use crystal_forge.Table.{find, count_where}
use crystal_forge.Table.Keys.{IsUnique-find}
use crystal_forge.Derivation.{Derivation, has_id}
use crystal_forge.CachePush.{
  CachePushJob, job_has_id, pending, in_progress, completed, failed, permanently_failed,
}
use crystal_forge.CachePush.Pending.{
  is_offered, Candidate, candidates, join_derivation, join_commit, insert_sorted, sort,
  comes_before, get_pending_cache_push_jobs, limit_jobs, or_ten,
}
use crystal_forge.CachePush.Worker.{pop}
use crystal_forge.CachePush.Attempts.{JobsInv, job_id}

abbrev pub commit_of : Option Derivation → Bool
commit_of none = false
commit_of (some d) = is_some d.commit_id

-- The derivation of the job is there and has a commit.
abbrev pub has_commit : List Derivation → CachePushJob → Bool
has_commit ds j = commit_of (find (has_id j.derivation_id) ds)

module _ (P : CachePushJob → Type 0) where
  abbrev OfJob : Candidate → Type 0
  OfJob c = P c.job

  All-insert_sorted :
      (c : Candidate) (cs : List Candidate)
      → P c.job
      → All OfJob cs
      → All OfJob (insert_sorted c cs)
  unfolding insert_sorted
  All-insert_sorted c [] p h = (p, tt)
  All-insert_sorted c (d ∷ ds) p h = elim (Bool-cases (comes_before c d)) [
    | inl first ↦ rw first (p, h)
    | inr later ↦ rw later (h.0, All-insert_sorted c ds p h.1)
  ]

  All-sort : (cs : List Candidate) → All OfJob cs → All OfJob (sort cs)
  unfolding sort
  All-sort [] h = tt
  All-sort (c ∷ cs) h = All-insert_sorted c (sort cs) h.0 (All-sort cs h.1)

  All-limit_jobs : (n : ℕ) (cs : List Candidate) → All OfJob cs → All P (limit_jobs n cs)
  All-limit_jobs zero cs h = tt
  All-limit_jobs (suc n) [] h = tt
  All-limit_jobs (suc n) (c ∷ cs) h = (h.0, All-limit_jobs n cs h.1)

  pub All-pop : (js : List CachePushJob) (j : CachePushJob) → All P js → pop js ≡ some j → P j
  All-pop [] j h e = cc
  All-pop (k ∷ []) j h e = subst P (some-injective _ _ e) h.0
  All-pop (k ∷ l ∷ js) j h e = All-pop (l ∷ js) j h.1 e

-- Pending, or failed and due for a retry.
abbrev pub is_waiting : ℕ → CachePushJob → Bool
is_waiting now j = elim j.status [
  | pending ↦ true
  | failed ↦ elim j.retry_after [ none ↦ false | some t ↦ leb t now ]
  | in_progress ↦ false
  | completed ↦ false
  | permanently_failed ↦ false
]

pub is_waiting_lem : (now : ℕ) (j : CachePushJob) → is_offered now j ≡ is_waiting now j
unfolding is_offered
is_waiting_lem now j = ground arith

module _ (timestamp_of : ℕ → Option ℕ) (ds : List Derivation) (now : ℕ) where
  join_commit-All :
      (P : CachePushJob → Type 0) (j : CachePushJob) (d : Derivation)
      → (is_some d.commit_id ≡ true → P j)
      → All (λ (c : Candidate). P c.job) (join_commit timestamp_of j d)
  unfolding join_commit
  join_commit-All P j d give = elim (Option-cases d.commit_id) [
    | inl absent ↦ rw (absent, join_commit) tt
    | inr (c, there) ↦ elim (Option-cases (timestamp_of c)) [
      | inl absent ↦ rw (there, absent, join_commit) tt
      | inr (ts, known) ↦ rw (there, known, join_commit) (give (ap is_some there), tt)
    ]
  ]

  join_derivation-All :
      (P : CachePushJob → Type 0) (j : CachePushJob)
      → (has_commit ds j ≡ true → P j)
      → All (λ (c : Candidate). P c.job) (join_derivation timestamp_of ds j)
  unfolding join_derivation
  join_derivation-All P j give = elim (Option-cases (find (has_id j.derivation_id) ds)) [
    | inl absent ↦ rw (absent, join_derivation) tt
    | inr (d, there) ↦
        rw (there, join_derivation) (join_commit-All P j d (λ c. give (ap commit_of there ∙ c)))
  ]

  candidates-All :
      (P : CachePushJob → Type 0) (js : List CachePushJob)
      → All (λ j. is_offered now j ≡ true → has_commit ds j ≡ true → P j) js
      → All (λ (c : Candidate). P c.job) (candidates timestamp_of ds now js)
  unfolding candidates
  candidates-All P [] h = tt
  candidates-All P (j ∷ js) h = elim (Bool-cases (is_offered now j)) [
    | inl offered ↦ rw offered (
        All-append (λ (c : Candidate). P c.job) (join_derivation timestamp_of ds j)
          (candidates timestamp_of ds now js) (join_derivation-All P j (h.0 offered))
          (candidates-All P js h.1))
    | inr kept ↦ rw kept (candidates-All P js h.1)
  ]

  pending-All :
      (P : CachePushJob → Type 0) (limit : Option ℕ) (jobs : List CachePushJob)
      → All (λ j. is_offered now j ≡ true → has_commit ds j ≡ true → P j) jobs
      → All P (get_pending_cache_push_jobs timestamp_of ds limit now jobs)
  unfolding get_pending_cache_push_jobs
  pending-All P limit jobs h =
      All-limit_jobs P (or_ten limit) (sort (candidates timestamp_of ds now jobs))
        (All-sort P (candidates timestamp_of ds now jobs) (candidates-All P jobs h))

  map-All :
      (P Q : CachePushJob → Type 0) (js : List CachePushJob)
      → ((j : CachePushJob) → P j → Q j)
      → All P js
      → All Q js
  map-All P Q [] f h = tt
  map-All P Q (j ∷ js) f h = (f j h.0, map-All P Q js f h.1)

  length-limit_jobs : (n : ℕ) (cs : List Candidate) → length (limit_jobs n cs) ≡ min n (length cs)
  length-limit_jobs zero cs = omega arith
  length-limit_jobs (suc n) [] = omega arith
  length-limit_jobs (suc n) (c ∷ cs) = omega (arith, length-limit_jobs n cs)

  length-insert_sorted :
      (c : Candidate) (cs : List Candidate) → length (insert_sorted c cs) ≡ suc (length cs)
  unfolding insert_sorted
  length-insert_sorted c [] = refl
  length-insert_sorted c (d ∷ cs) = elim (Bool-cases (comes_before c d)) [
    | inl first ↦ rw first refl
    | inr later ↦ rw later (ap suc (length-insert_sorted c cs))
  ]

  length-sort : (cs : List Candidate) → length (sort cs) ≡ length cs
  unfolding sort
  length-sort [] = refl
  length-sort (c ∷ cs) = length-insert_sorted c (sort cs) ∙ ap suc (length-sort cs)

  -- The job has a derivation, and that a commit which is there.
  abbrev pub has_timestamp : Option Derivation → Bool
  has_timestamp none = false
  has_timestamp (some d) = elim d.commit_id [ none ↦ false | some c ↦ is_some (timestamp_of c) ]

  abbrev pub is_joined : CachePushJob → Bool
  is_joined j = has_timestamp (find (has_id j.derivation_id) ds)

  length-join_commit :
      (j : CachePushJob) (d : Derivation)
      → length (join_commit timestamp_of j d) ≡ (if has_timestamp (some d) then 1 else 0)
  unfolding join_commit
  length-join_commit j d = elim (Option-cases d.commit_id) [
    | inl absent ↦ rw (absent, join_commit) refl
    | inr (c, known) ↦ elim (Option-cases (timestamp_of c)) [
      | inl absent ↦ rw (known, absent, join_commit) refl
      | inr (t, dated) ↦ rw (known, dated, join_commit) refl
    ]
  ]

  length-join_derivation :
      (j : CachePushJob)
      → length (join_derivation timestamp_of ds j) ≡ (if is_joined j then 1 else 0)
  unfolding join_derivation
  length-join_derivation j = elim (Option-cases (find (has_id j.derivation_id) ds)) [
    | inl absent ↦ rw (absent, join_derivation) refl
    | inr (d, there) ↦ rw (there, join_derivation) (length-join_commit j d)
  ]

  length-candidates :
      (js : List CachePushJob)
      → length (candidates timestamp_of ds now js)
        ≡ count_where (λ j. is_waiting now j && is_joined j) js
  unfolding candidates count_where
  length-candidates [] = refl
  length-candidates (j ∷ js) = elim (Bool-cases (is_offered now j)) [
    | inl offered ↦
        rw offered rw
          (length-append (join_derivation timestamp_of ds j) (candidates timestamp_of ds now js))
          (ground
            (arith, offered, is_waiting_lem now j, length-join_derivation j, length-candidates js))
    | inr kept ↦ rw kept (ground (arith, kept, is_waiting_lem now j, length-candidates js))
  ]

  -- Under unique ids and bounded attempts every job that the query returns is a row of the table
  -- that is pending, or failed with its retry time reached, and whose derivation has a commit; and
  -- it returns all such rows, up to the limit, or ten without one.
  pub get_pending_cache_push_jobs_lem :
      (limit : Option ℕ) (jobs : List CachePushJob)
      → JobsInv jobs
      → (length (get_pending_cache_push_jobs timestamp_of ds limit now jobs)
          ≡ min (or_ten limit) (count_where (λ j. is_waiting now j && is_joined j) jobs))
        × All
            (λ j.
              (find (job_has_id j.id) jobs ≡ some j)
              × (is_waiting now j ≡ true)
              × (has_commit ds j ≡ true))
            (get_pending_cache_push_jobs timestamp_of ds limit now jobs)
  unfolding get_pending_cache_push_jobs
  get_pending_cache_push_jobs_lem limit jobs inv = (
    length-limit_jobs (or_ten limit) (sort (candidates timestamp_of ds now jobs))
        ∙ ap (min (or_ten limit))
            (length-sort (candidates timestamp_of ds now jobs) ∙ length-candidates jobs),
    pending-All
        (λ j.
          (find (job_has_id j.id) jobs ≡ some j)
          × (is_waiting now j ≡ true)
          × (has_commit ds j ≡ true))
        limit jobs
        (map-All _ _ jobs (λ j f o c. (f, sym (is_waiting_lem now j) ∙ o, c))
          (IsUnique-find job_id jobs inv.unique)),
  )
