-- ===== src/Derivation.antt =====
-- packages/default/src/derivations/mod.rs and the status ids of queries/derivations.rs: a row of
-- the table `derivations`, and the statuses that the code writes by name.
-- Times are milliseconds since the epoch, ids and counters are natural numbers.
pub mod Update
pub mod UpdateLaws
pub mod Insert
pub mod Queue
pub mod Reset
use crystal_forge.Prelude.{ℕ, String, Bool, true, false, Option, none, some, ℤ, ◌&&◌, ◌==◌}

pub data EvaluationStatus : Type 0 where
  dry_run_pending dry_run_in_progress dry_run_complete dry_run_failed : EvaluationStatus
  build_pending build_in_progress build_complete build_failed : EvaluationStatus

abbrev pub as_id : EvaluationStatus → ℕ
as_id dry_run_pending = 3
as_id dry_run_in_progress = 4
as_id dry_run_complete = 5
as_id dry_run_failed = 6
as_id build_pending = 7
as_id build_in_progress = 8
as_id build_complete = 10
as_id build_failed = 12

unfoldable pub is_terminal : EvaluationStatus → Bool
is_terminal dry_run_complete = true
is_terminal dry_run_failed = true
is_terminal build_complete = true
is_terminal build_failed = true
is_terminal _ = false

unfoldable pub is_in_progress : EvaluationStatus → Bool
is_in_progress dry_run_in_progress = true
is_in_progress build_in_progress = true
is_in_progress _ = false

pub data DerivationType : Type 0 where
  nixos_type package_type : DerivationType

abbrev pub type_eq : DerivationType → DerivationType → Bool
type_eq nixos_type nixos_type = true
type_eq package_type package_type = true
type_eq _ _ = false

pub record Derivation : Type 0 where
  pub id : ℕ
  pub commit_id : Option ℕ
  pub derivation_type : DerivationType
  pub derivation_name : String
  pub derivation_path : Option String
  pub scheduled_at : Option ℕ
  pub completed_at : Option ℕ
  pub started_at : Option ℕ
  pub attempt_count : ℕ
  pub evaluation_duration_ms : Option ℤ
  pub error_message : Option String
  pub pname : Option String
  pub version : Option String
  pub status_id : ℕ
  pub derivation_target : Option String
  pub build_elapsed_seconds : Option ℕ
  pub build_current_target : Option String
  pub build_last_activity_seconds : Option ℕ
  pub build_last_heartbeat : Option ℕ
  pub cf_agent_enabled : Option Bool
  pub store_path : Option String

-- `None` counts as not enabled.
abbrev enabled_or_false : Option Bool → Bool
enabled_or_false none = false
enabled_or_false (some b) = b

unfoldable pub is_deployment_safe : Derivation → Bool
is_deployment_safe d = enabled_or_false d.cf_agent_enabled

unfoldable pub is_deployable : Derivation → Bool
unfolding is_deployment_safe
is_deployable d = type_eq d.derivation_type nixos_type && is_deployment_safe d

-- WHERE id = $i
abbrev pub has_id : ℕ → Derivation → Bool
has_id i d = d.id == i

-- WHERE status_id = $s
abbrev pub has_status : EvaluationStatus → Derivation → Bool
has_status s d = d.status_id == as_id s
