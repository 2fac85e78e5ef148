-- ===== src/Derivation/Queue.antt =====
-- queries/derivations.rs: the updates of single columns, the failure and completion of a build,
-- and the operations that queue derivations for the builders.
pub mod Ready
use crystal_forge.Prelude.{
  numeric_value_out_of_range, ℕ, ◌+◌, String, Bool, true, false, Option, none, some, List, [], ◌∷◌,
  ◌&&◌, ◌||◌, ◌==◌, not, coalesce, is_none, if◌then◌else◌, Result, ok, err, message,
}
use Prim.Native.String.{◌++◌}
use crystal_forge.Table.{exists, update_where, delete_where, count_where, contains}
use crystal_forge.Derivation.{
  Derivation, nixos_type, type_eq, has_id, has_status, as_id, dry_run_pending, dry_run_in_progress,
  dry_run_complete, dry_run_failed, build_pending, build_complete, build_failed,
}
use crystal_forge.Derivation.Update.{fits_column, duration_ms}
use crystal_forge.Derivation.Insert.{opt_eq, has_terminal_status}

unfoldable pub update_scheduled_at : ℕ → List Derivation → List Derivation
unfolding has_terminal_status
update_scheduled_at now =
    update_where (λ d. not (has_terminal_status d)) (λ d. record d { scheduled_at = some now })

unfoldable pub increment_derivation_attempt_count : ℕ → List Derivation → List Derivation
increment_derivation_attempt_count i =
    update_where (has_id i) (λ d. record d { attempt_count = d.attempt_count + 1 })

-- The status is BuildFailed whatever the phase.
unfoldable pub handle_derivation_failure :
    ℕ → String → String → ℕ → List Derivation → List Derivation
handle_derivation_failure i phase error now = update_where (has_id i) λ d. record d {
  status_id = as_id build_failed;
  error_message = some (phase ++ ": " ++ error);
  attempt_count = d.attempt_count + 1;
  completed_at = some now;
}

unfoldable pub mark_target_build_complete : ℕ → String → ℕ → List Derivation → List Derivation
mark_target_build_complete i store_path now = update_where (has_id i) λ d. record d {
  status_id = as_id build_complete;
  completed_at = some now;
  store_path = some store_path;
}

unfoldable pub update_derivation_path_and_metadata :
    ℕ → String → Option String → Option String → List Derivation → Result (List Derivation)
update_derivation_path_and_metadata i path none version ds = err (message "missing pname")
update_derivation_path_and_metadata i path (some pname) none ds = err (message "missing version")
update_derivation_path_and_metadata i path (some pname) (some version) ds = ok (
    update_where (has_id i)
      (λ d. record d {
        derivation_name = pname ++ "-" ++ version;
        derivation_path = some path;
        pname = some pname;
        version = some version;
      })
      ds)

unfoldable pub update_derivation_build_status :
    ℕ → ℕ → Option String → ℕ → ℕ → List Derivation → List Derivation
update_derivation_build_status i elapsed_seconds current_build_target last_activity_seconds now =
    update_where (has_id i) λ d. record d {
      build_elapsed_seconds = some elapsed_seconds;
      build_current_target = current_build_target;
      build_last_activity_seconds = some last_activity_seconds;
      build_last_heartbeat = some now;
    }

unfoldable pub clear_derivation_build_status : ℕ → List Derivation → List Derivation
clear_derivation_build_status i = update_where (has_id i) λ d. record d {
  build_elapsed_seconds = none;
  build_current_target = none;
  build_last_activity_seconds = none;
  build_last_heartbeat = none;
}

-- 14 is the id of the status cache-pushed.
unfoldable pub mark_derivation_cache_pushed : ℕ → List Derivation → List Derivation
mark_derivation_cache_pushed i = update_where (has_id i) (λ d. record d { status_id = 14 })

unfoldable pub update_cf_agent_enabled : ℕ → Bool → List Derivation → List Derivation
update_cf_agent_enabled i b = update_where (has_id i) (λ d. record d { cf_agent_enabled = some b })

unfoldable pub reset_derivation_for_rebuild : ℕ → List Derivation → List Derivation
reset_derivation_for_rebuild i = update_where (has_id i) λ d. record d {
  status_id = 5;
  store_path = none;
  completed_at = none;
  error_message = some "Store path was garbage collected, needs rebuild";
}

-- SET status_id = BuildPending, scheduled_at = COALESCE(scheduled_at, NOW())
unfoldable pub queue_columns : ℕ → Derivation → Derivation
queue_columns now d = record d {
  status_id = as_id build_pending;
  scheduled_at = coalesce d.scheduled_at (some now);
}

-- An UPDATE that counts the rows it returns.
abbrev pub update_count :
    (Derivation → Bool) → (Derivation → Derivation) → List Derivation → List Derivation × ℕ
update_count p f ds = (update_where p f ds, count_where p ds)

unfoldable pub ready_for_build : Derivation → Bool
ready_for_build d = has_status dry_run_complete d && type_eq d.derivation_type nixos_type

unfoldable pub queue_derivations_for_build : ℕ → ℕ → List Derivation → List Derivation × ℕ
unfolding queue_columns ready_for_build
queue_derivations_for_build commit_id now =
    update_count (λ d. opt_eq d.commit_id (some commit_id) && ready_for_build d) (queue_columns now)

unfoldable pub queue_all_ready_derivations : ℕ → List Derivation → List Derivation × ℕ
unfolding queue_columns ready_for_build
queue_all_ready_derivations now = update_count ready_for_build (queue_columns now)

-- cf_agent_enabled = true: a NULL is not equal to true.
abbrev is_true : Option Bool → Bool
is_true (some b) = b
is_true none = false

unfoldable pub agent_candidate : ℕ → Derivation → Bool
agent_candidate commit_id d =
    opt_eq d.commit_id (some commit_id)
    && is_true d.cf_agent_enabled
    && type_eq d.derivation_type nixos_type
    && (has_status dry_run_pending d || has_status dry_run_complete d)

unfoldable pub auto_queue_cf_agent_systems : ℕ → ℕ → List Derivation → List Derivation × ℕ
unfolding queue_columns agent_candidate
auto_queue_cf_agent_systems commit_id now =
    update_count (agent_candidate commit_id) (queue_columns now)

unfoldable pub cleanup_partial_derivations : List Derivation → List Derivation
cleanup_partial_derivations = delete_where λ d.
    is_none d.derivation_path && (has_status dry_run_pending d || has_status dry_run_in_progress d)

-- `store_path_of` is the pairing that UNNEST makes of the two arrays; a row whose id is not in it
-- is not updated. A duration that its column cannot hold makes the statement fail.
unfoldable pub batch_mark_derivations_complete :
    (ℕ → Option String) → ℕ → List Derivation → List Derivation × Result (Unit {0})
batch_mark_derivations_complete store_path_of now ds =
    let listed : Derivation → Bool = λ d. not (is_none (store_path_of d.id)) in
    if exists (λ d. listed d && not (fits_column (duration_ms now d.started_at))) ds
    then (ds, err numeric_value_out_of_range)
    else (
      update_where listed
          (λ d. record d {
            status_id = as_id dry_run_complete;
            completed_at = some now;
            evaluation_duration_ms = duration_ms now d.started_at;
            store_path = store_path_of d.id;
          })
          ds,
      ok tt,
    )
