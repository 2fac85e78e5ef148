-- ===== src/CachePush/Pending.antt =====
-- queries/cache_push.rs: `get_pending_cache_push_jobs`, the query by which a worker finds a job;
-- queries/derivations.rs: `batch_queue_cache_jobs`, which queues every complete build.
use crystal_forge.Prelude.{
  ℕ, zero, suc, String, Bool, true, false, Option, none, some, List, [], ◌∷◌, ◌++◌, ◌&&◌, ◌||◌, not,
  ◌==◌, ltb, leb, Result, if◌then◌else◌, str_eq, length, is_some,
}
use crystal_forge.Table.{find, exists, select_where}
use crystal_forge.Derivation.{Derivation, has_id, has_status, build_complete}
use crystal_forge.CachePush.{CachePushJob, is_pending, is_failed, new_job, write}

-- retry_after IS NOT NULL AND retry_after <= NOW()
abbrev pub due : ℕ → Option ℕ → Bool
due now none = false
due now (some t) = leb t now

-- The WHERE clause.
unfoldable pub is_offered : ℕ → CachePushJob → Bool
is_offered now j = is_pending j.status || is_failed j.status && due now j.retry_after

-- A job with the columns of the joined rows that the order reads.
pub record Candidate : Type 0 where
  pub job : CachePushJob
  pub commit_timestamp : ℕ
  pub completed_at : Option ℕ

-- JOIN derivations d, JOIN commits c ON c.id = d.commit_id: inner joins, so that a derivation
-- with no commit gives no row. `timestamp_of` is the table `commits`.
unfoldable pub join_commit : (ℕ → Option ℕ) → CachePushJob → Derivation → List Candidate
join_commit timestamp_of j d = elim d.commit_id [
  | none ↦ []
  | some c ↦ elim (timestamp_of c) [
    | none ↦ []
    | some ts ↦ (record { job = j; commit_timestamp = ts; completed_at = d.completed_at }) ∷ []
  ]
]

unfoldable pub join_derivation : (ℕ → Option ℕ) → List Derivation → CachePushJob → List Candidate
unfolding join_commit
join_derivation timestamp_of ds j = elim (find (has_id j.derivation_id) ds) [
  | none ↦ []
  | some d ↦ join_commit timestamp_of j d
]

unfoldable pub candidates :
    (ℕ → Option ℕ) → List Derivation → ℕ → List CachePushJob → List Candidate
unfolding join_derivation is_offered
candidates timestamp_of ds now [] = []
candidates timestamp_of ds now (j ∷ js) =
    let rest = candidates timestamp_of ds now js in
    if is_offered now j then join_derivation timestamp_of ds j ++ rest else rest

-- completed_at ASC NULLS LAST, not after
abbrev pub nulls_last_le : Option ℕ → Option ℕ → Bool
nulls_last_le a none = true
nulls_last_le none (some b) = false
nulls_last_le (some a) (some b) = leb a b

-- ORDER BY pending first, commit_timestamp DESC, completed_at ASC NULLS LAST
unfoldable pub comes_before : Candidate → Candidate → Bool
comes_before a b =
    if is_pending a.job.status && not (is_pending b.job.status)
    then true
    else if not (is_pending a.job.status) && is_pending b.job.status
    then false
    else if a.commit_timestamp == b.commit_timestamp
    then nulls_last_le a.completed_at b.completed_at
    else ltb b.commit_timestamp a.commit_timestamp

-- The order of rows that the keys leave open is that of the table.
unfoldable pub insert_sorted : Candidate → List Candidate → List Candidate
unfolding comes_before
insert_sorted c [] = c ∷ []
insert_sorted c (d ∷ ds) =
    let rest = insert_sorted c ds in if comes_before c d then c ∷ d ∷ ds else d ∷ rest

unfoldable pub sort : List Candidate → List Candidate
unfolding insert_sorted
sort [] = []
sort (c ∷ cs) = insert_sorted c (sort cs)

abbrev pub limit_jobs : ℕ → List Candidate → List CachePushJob
limit_jobs zero cs = []
limit_jobs (suc n) [] = []
limit_jobs (suc n) (c ∷ cs) = c.job ∷ limit_jobs n cs

abbrev pub or_ten : Option ℕ → ℕ
or_ten none = 10
or_ten (some n) = n

unfoldable pub get_pending_cache_push_jobs :
    (ℕ → Option ℕ) → List Derivation → Option ℕ → ℕ → List CachePushJob → List CachePushJob
unfolding candidates sort
get_pending_cache_push_jobs timestamp_of ds limit now jobs =
    limit_jobs (or_ten limit) (sort (candidates timestamp_of ds now jobs))

-- cache_destination = $1: a NULL is equal to nothing.
abbrev same_destination : String → Option String → Bool
same_destination destination none = false
same_destination destination (some s) = str_eq s destination

abbrev has_job_for : ℕ → String → CachePushJob → Bool
has_job_for d destination j =
    (j.derivation_id == d) && same_destination destination j.cache_destination

-- d.status_id = 10, store path present, and no job for the destination
unfoldable pub needs_job : String → List CachePushJob → Derivation → Bool
needs_job destination jobs d =
    has_status build_complete d
    && is_some d.store_path
    && not (exists (has_job_for d.id destination) jobs)

abbrev queue_rows : String → ℕ → ℕ → List Derivation → List CachePushJob
queue_rows destination now next [] = []
queue_rows destination now next (d ∷ ds) =
    new_job next d.id d.store_path (some destination) now ∷ queue_rows destination now (suc next) ds

-- One INSERT ... SELECT: all its rows, or none if they break the index. `next` is the sequence.
unfoldable pub batch_queue_cache_jobs :
    ℕ → List Derivation → String → ℕ → List CachePushJob → List CachePushJob × Result ℕ
unfolding needs_job write new_job
batch_queue_cache_jobs next ds destination now jobs =
    let rows = queue_rows destination now next (select_where (needs_job destination jobs) ds) in
    write jobs (jobs ++ rows) (length rows)
