-- ===== src/Examples/Evaluations.antt =====
-- Commits that fail and commits that are cut off.
use crystal_forge.Prelude.{
  not, ℕ, ◌+◌, ◌*◌, ◌≡◌, refl, false, some, none, List, [], ◌∷◌, ◌&&◌, ltb, arith, err, message,
}
use crystal_forge.Table.{find, exists}
use crystal_forge.Commits.{
  Commit, CommitEvaluationStatus, is_pending, pending, in_progress, commit_has_id,
  awaits_evaluation, derived_from, evaluate_commit, get_commits_pending_evaluation,
  reset_stuck_commit_evaluations, is_stuck_evaluation,
}
use crystal_forge.Commits.Retries.{
  wait_after, evaluate_commit_retry, get_commits_pending_evaluation_lem, has_waited, NewestFirst,
  reset_strands_commit,
}

abbrev pub commit : ℕ → CommitEvaluationStatus → ℕ → Commit
commit id status attempts = record {
  id = id;
  flake_id = 1;
  git_commit_hash = "a1b2c3";
  commit_timestamp = 10 * id;
  attempt_count = 0;
  evaluation_status = status;
  evaluation_started_at = some 100;
  evaluation_completed_at = none;
  evaluation_attempt_count = some attempts;
  evaluation_error_message = none;
}

abbrev commits : List Commit
commits = commit 1 pending 2 ∷ commit 2 in_progress 5 ∷ []

retry_example :
    (c : Commit) × (find
        (commit_has_id 1)
        (evaluate_commit 1 (err (message "eval")) "eval" 90000 95000 commits)
      ≡ some c)
    × ((t : ℕ) → awaits_evaluation [] t c ≡ (ltb 3 5 && ltb (90000 + wait_after 3) t))
unfolding find exists
retry_example =
    evaluate_commit_retry [] 1 (commit 1 pending 2) (message "eval") "eval" 90000 95000 commits refl
      (omega arith) refl

pending_commits_example :
    (exists (commit_has_id 1) (get_commits_pending_evaluation [] 90000 commits) ≡ (
      not (exists (derived_from 1) [])
      && is_pending pending
      && ltb 2 5
      && has_waited 90000 (commit 1 pending 2)))
    × NewestFirst (get_commits_pending_evaluation [] 90000 commits)
unfolding find
pending_commits_example =
    get_commits_pending_evaluation_lem [] 90000 1 commits (commit 1 pending 2)
      ((omega arith, tt), (tt, tt)) refl

strands_example :
    (c : Commit) × (find (commit_has_id 2) (reset_stuck_commit_evaluations 9000000 commits)
      ≡ some c)
    × (c.evaluation_status ≡ pending)
    × ((t : ℕ) → awaits_evaluation [] t c ≡ false)
unfolding find is_stuck_evaluation
strands_example =
    reset_strands_commit [] 2 (commit 2 in_progress 5) 9000000 commits refl refl (omega arith)
