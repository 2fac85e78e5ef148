-- ===== src/Derivation/Reset.antt =====
-- queries/derivations.rs: `reset_non_terminal_derivations`, run when the server starts.
pub mod Outcome
use crystal_forge.Prelude.{
  ℕ, Bool, Option, some, List, ◌&&◌, ◌||◌, ◌==◌, not, leb, ltb, is_none, is_some,
}
use crystal_forge.Table.{update_where}
use crystal_forge.Derivation.{
  Derivation, EvaluationStatus, has_status, as_id, dry_run_pending, dry_run_complete,
  dry_run_failed, build_pending, build_complete, build_failed,
}

-- status_id NOT IN (DryRunComplete, BuildComplete)
unfoldable pub not_success : Derivation → Bool
not_success d = not (has_status dry_run_complete d || has_status build_complete d)

set_status : EvaluationStatus → Derivation → Derivation
set_status status d = record d { status_id = as_id status }

reschedule : EvaluationStatus → ℕ → Derivation → Derivation
reschedule status now d = record d { status_id = as_id status; scheduled_at = some now }

-- The four statements, in order.
unfoldable pub fail_dry_runs : List Derivation → List Derivation
unfolding set_status
fail_dry_runs =
    update_where
      (λ d. is_none d.derivation_path && leb 5 d.attempt_count && not (has_status dry_run_failed d))
      (set_status dry_run_failed)

unfoldable pub fail_builds : List Derivation → List Derivation
unfolding set_status
fail_builds =
    update_where
      (λ d. is_some d.derivation_path && leb 5 d.attempt_count && not (has_status build_failed d))
      (set_status build_failed)

unfoldable pub retry_dry_runs : ℕ → List Derivation → List Derivation
unfolding not_success reschedule
retry_dry_runs now =
    update_where (λ d. is_none d.derivation_path && ltb d.attempt_count 5 && not_success d)
      (reschedule dry_run_pending now)

unfoldable pub retry_builds : ℕ → List Derivation → List Derivation
unfolding not_success reschedule
retry_builds now =
    update_where (λ d. is_some d.derivation_path && ltb d.attempt_count 5 && not_success d)
      (reschedule build_pending now)

unfoldable pub reset_non_terminal_derivations : ℕ → List Derivation → List Derivation
unfolding fail_dry_runs fail_builds retry_dry_runs retry_builds
reset_non_terminal_derivations now ds =
    retry_builds now (retry_dry_runs now (fail_builds (fail_dry_runs ds)))
