-- ===== src/Commits.antt =====
-- packages/default/src/queries/commits.rs and the evaluation loop of server/mod.rs: which commits
-- are evaluated, and what an evaluation leaves on the row.
-- Times are milliseconds since the epoch.
pub mod Retries
use crystal_forge.Prelude.{
  ℕ, ◌+◌, ◌*◌, String, Bool, true, false, Option, none, some, List, [], ◌∷◌, ◌&&◌, ◌||◌, not, ◌==◌,
  ltb, leb, is_none, Result, ok, err, if◌then◌else◌,
}
use crystal_forge.Table.{update_where, exists}
use crystal_forge.Derivation.{Derivation}
use crystal_forge.Derivation.Insert.{opt_eq}
use crystal_forge.CachePush.{minute, started_before}

pub data CommitEvaluationStatus : Type 0 where
  pending in_progress complete failed : CommitEvaluationStatus

abbrev pub is_pending : CommitEvaluationStatus → Bool
is_pending pending = true
is_pending _ = false

abbrev pub is_evaluating : CommitEvaluationStatus → Bool
is_evaluating in_progress = true
is_evaluating _ = false

pub record Commit : Type 0 where
  pub id : ℕ
  pub flake_id : ℕ
  pub git_commit_hash : String
  pub commit_timestamp : ℕ
  pub attempt_count : ℕ
  pub evaluation_status : CommitEvaluationStatus
  pub evaluation_started_at : Option ℕ
  pub evaluation_completed_at : Option ℕ
  pub evaluation_attempt_count : Option ℕ
  pub evaluation_error_message : Option String

abbrev pub commit_has_id : ℕ → Commit → Bool
commit_has_id i c = c.id == i

-- COALESCE(evaluation_attempt_count, 0)
abbrev pub attempts_of : Commit → ℕ
attempts_of c = elim c.evaluation_attempt_count [ none ↦ 0 | some n ↦ n ]

-- evaluation_attempt_count = n: a NULL is equal to nothing.
abbrev attempts_are : ℕ → Commit → Bool
attempts_are n c = opt_eq c.evaluation_attempt_count (some n)

-- Never started, or started long enough ago for the attempts made.
unfoldable pub wait_is_over : ℕ → Commit → Bool
wait_is_over now c =
    is_none c.evaluation_started_at
    || (ltb (attempts_of c) 3 && started_before now minute c.evaluation_started_at)
    || (attempts_are 3 c && started_before now (60 * minute) c.evaluation_started_at)
    || (attempts_are 4 c && started_before now (120 * minute) c.evaluation_started_at)

abbrev pub derived_from : ℕ → Derivation → Bool
derived_from i d = opt_eq d.commit_id (some i)

-- The WHERE clause; a commit without a row in `derivations` has d.commit_id NULL in the left join.
unfoldable pub awaits_evaluation : List Derivation → ℕ → Commit → Bool
unfolding wait_is_over
awaits_evaluation ds now c =
    not (exists (derived_from c.id) ds)
    && is_pending c.evaluation_status
    && ltb (attempts_of c) 5
    && wait_is_over now c

-- ORDER BY commit_timestamp DESC
unfoldable pub insert_by_time : Commit → List Commit → List Commit
insert_by_time c [] = c ∷ []
insert_by_time c (d ∷ ds) =
    let rest = insert_by_time c ds in
    if leb d.commit_timestamp c.commit_timestamp then c ∷ d ∷ ds else d ∷ rest

unfoldable pub get_commits_pending_evaluation : List Derivation → ℕ → List Commit → List Commit
unfolding awaits_evaluation insert_by_time
get_commits_pending_evaluation ds now [] = []
get_commits_pending_evaluation ds now (c ∷ cs) =
    let rest = get_commits_pending_evaluation ds now cs in
    if awaits_evaluation ds now c then insert_by_time c rest else rest

unfoldable pub increment_commit_list_attempt_count : Commit → List Commit → List Commit
increment_commit_list_attempt_count commit =
    update_where (commit_has_id commit.id) (λ c. record c { attempt_count = c.attempt_count + 1 })

unfoldable pub is_stuck_evaluation : ℕ → Commit → Bool
is_stuck_evaluation now c =
    is_evaluating c.evaluation_status && started_before now (30 * minute) c.evaluation_started_at

unfoldable pub reset_stuck_commit_evaluations : ℕ → List Commit → List Commit
unfolding is_stuck_evaluation
reset_stuck_commit_evaluations now =
    update_where (is_stuck_evaluation now) (λ c. record c { evaluation_status = pending })

unfoldable pub started_commit : ℕ → Commit → Commit
started_commit now c = record c {
  evaluation_status = in_progress;
  evaluation_started_at = some now;
  evaluation_attempt_count = some (attempts_of c + 1);
}

unfoldable pub mark_commit_evaluation_started : ℕ → ℕ → List Commit → List Commit
unfolding started_commit
mark_commit_evaluation_started i now = update_where (commit_has_id i) (started_commit now)

unfoldable pub completed_commit : ℕ → Commit → Commit
completed_commit now c = record c {
  evaluation_status = complete;
  evaluation_completed_at = some now;
  evaluation_error_message = none;
}

unfoldable pub mark_commit_evaluation_complete : ℕ → ℕ → List Commit → List Commit
unfolding completed_commit
mark_commit_evaluation_complete i now = update_where (commit_has_id i) (completed_commit now)

unfoldable pub failed_commit : String → Commit → Commit
failed_commit error c = record c {
  evaluation_status = if leb 5 (attempts_of c) then failed else pending;
  evaluation_error_message = some error;
}

unfoldable pub mark_commit_evaluation_failed : ℕ → String → List Commit → List Commit
unfolding failed_commit
mark_commit_evaluation_failed i error = update_where (commit_has_id i) (failed_commit error)

-- One commit of the loop: it is marked started, evaluated, and its end is recorded. The answer of
-- the evaluation, or the text of its error, is an argument.
unfoldable pub evaluate_commit : ℕ → Result (Unit {0}) → String → ℕ → ℕ → List Commit → List Commit
unfolding mark_commit_evaluation_started mark_commit_evaluation_complete
    mark_commit_evaluation_failed
evaluate_commit i (ok _) error now later cs =
    mark_commit_evaluation_complete i later (mark_commit_evaluation_started i now cs)
evaluate_commit i (err _) error now later cs =
    mark_commit_evaluation_failed i error (mark_commit_evaluation_started i now cs)
