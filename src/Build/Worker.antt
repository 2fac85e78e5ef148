-- ===== src/Build/Worker.antt =====
-- packages/default/src/builder/mod.rs: the end of a build, and one round of `build_worker`. What
-- `Derivation::build` answers within the timeout is an argument; signing and the GC root, whose
-- errors are only logged, are left out.
use crystal_forge.Prelude.{ℕ, String, Option, none, some, Result, ok, err}
use crystal_forge.Derivation.{Derivation}
use crystal_forge.Derivation.Queue.{mark_target_build_complete, handle_derivation_failure}
use crystal_forge.CachePush.{create_cache_push_job}
use crystal_forge.Build.{Database, delete_reservation}
use crystal_forge.Build.Claim.{BuildableDerivation, claim_next_derivation}

unfoldable pub mark_build_complete_and_release : String → ℕ → String → ℕ → Database → Database
unfolding delete_reservation mark_target_build_complete
mark_build_complete_and_release worker_id derivation_id store_path now db =
    let db' = delete_reservation worker_id derivation_id db in
    record db' {
      derivations = mark_target_build_complete derivation_id store_path now db'.derivations;
    }

unfoldable pub mark_build_failed_and_release :
    String → Derivation → String → ℕ → Database → Database
unfolding delete_reservation handle_derivation_failure
mark_build_failed_and_release worker_id derivation error now db =
    let db' = delete_reservation worker_id derivation.id db in
    record db' {
      derivations = handle_derivation_failure derivation.id "build" error now db'.derivations;
    }

-- The arms of the match on the build's result; the texts are those of the errors.
pub data BuildOutcome : Type 0 where
  built : String → BuildOutcome
  build_error : String → BuildOutcome
  timed_out : String → BuildOutcome

-- A failure to queue the push is logged, and the build completes all the same.
unfoldable pub finish_build :
    String → Option String → ℕ → ℕ → Derivation → BuildOutcome → Database → Database
unfolding mark_build_complete_and_release mark_build_failed_and_release
finish_build worker_id push_to job_id now derivation (built store_path) db =
    let jobs =
      (create_cache_push_job job_id derivation.id store_path push_to now db.cache_push_jobs).0 in
    mark_build_complete_and_release worker_id derivation.id store_path now
      (record db { cache_push_jobs = jobs })
finish_build worker_id push_to job_id now derivation (build_error error) db =
    mark_build_failed_and_release worker_id derivation error now db
finish_build worker_id push_to job_id now derivation (timed_out error) db =
    mark_build_failed_and_release worker_id derivation error now db

-- After the claim: no derivation, or an error, is a pause.
abbrev pub after_claim :
    String → Option String → ℕ → ℕ → BuildOutcome → Database × Result (Option Derivation) → Database
after_claim worker_id push_to job_id now outcome (db, ok (some d)) =
    finish_build worker_id push_to job_id now d outcome db
after_claim worker_id push_to job_id now outcome (db, ok none) = db
after_claim worker_id push_to job_id now outcome (db, err e) = db

-- A round with nothing of the other workers between the claim and the end.
unfoldable pub build_worker_round :
    Option BuildableDerivation
    → String
    → Option String
    → ℕ
    → ℕ
    → ℕ
    → ℕ
    → BuildOutcome
    → Database
    → Database
unfolding claim_next_derivation finish_build
build_worker_round buildable worker_id push_to id job_id now later outcome db =
    after_claim worker_id push_to job_id later outcome
      (claim_next_derivation buildable worker_id id now db)
