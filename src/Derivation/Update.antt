-- ===== src/Derivation/Update.antt =====
-- queries/derivations.rs: `update_derivation_status` and the operations that call it.
-- The match on (derivation_path, error_message, store_path) has the source's eight arms; each arm's
-- UPDATE sets the columns that its statement names. `now` is the database's NOW().
use text.Mathlib.Text.{◌==◌}
use crystal_forge.Prelude.{
  ℕ, String, Bool, true, false, ◌||◌, ◌&&◌, not, Option, none, some, List, Result, ok, err,
  row_not_found, unique_violation, numeric_value_out_of_range, message, if◌then◌else◌, sub_ℕ, ℤ,
  fits_int4,
}
use crystal_forge.Table.{update_where, find, exists}
use crystal_forge.Derivation.{
  Derivation, EvaluationStatus, as_id, is_terminal, is_in_progress, has_id, dry_run_in_progress,
  dry_run_complete, dry_run_failed, build_in_progress, build_complete, build_failed,
}

-- EXTRACT(EPOCH FROM (NOW() - started_at)) * 1000, NULL where started_at is NULL
abbrev pub duration_ms : ℕ → Option ℕ → Option ℤ
duration_ms now none = none
duration_ms now (some t) = some (sub_ℕ now t)

-- evaluation_duration_ms is a column of 32 bits (migration 0008), or NULL.
abbrev pub fits_column : Option ℤ → Bool
fits_column none = true
fits_column (some ms) = fits_int4 ms

-- A terminal status writes the duration.
unfoldable pub duration_fits : EvaluationStatus → ℕ → Derivation → Bool
unfolding is_terminal
duration_fits status now d = not (is_terminal status) || fits_column (duration_ms now d.started_at)

abbrev pub has_path : String → Derivation → Bool
has_path path d = elim d.derivation_path [ none ↦ false | some p ↦ p == path ]

-- derivation_path is UNIQUE (migration 0020): whether a row with another id has the path.
abbrev pub path_taken : ℕ → Option String → List Derivation → Bool
path_taken i none ds = false
path_taken i (some path) ds = exists (λ d. not (has_id i d) && has_path path d) ds

-- SET status_id, completed_at = NOW(), evaluation_duration_ms
terminal_columns : EvaluationStatus → ℕ → Derivation → Derivation
terminal_columns status now d = record d {
  status_id = as_id status;
  completed_at = some now;
  evaluation_duration_ms = duration_ms now d.started_at;
}

-- SET status_id, started_at = NOW()
started_columns : EvaluationStatus → ℕ → Derivation → Derivation
started_columns status now d = record d { status_id = as_id status; started_at = some now }

-- The SET clauses of the arms, by what is given.
path_error_store_columns : EvaluationStatus → String → String → String → ℕ → Derivation → Derivation
unfolding is_terminal terminal_columns started_columns
path_error_store_columns status path error nix_store now d =
    let t = terminal_columns status now d in
    let s = started_columns status now d in
    if is_terminal status
    then record t {
      derivation_path = some path;
      error_message = some error;
      store_path = some nix_store;
    }
    else record s {
      derivation_path = some path;
      error_message = some error;
      store_path = some nix_store;
    }

path_store_columns : EvaluationStatus → String → String → ℕ → Derivation → Derivation
unfolding is_terminal terminal_columns started_columns
path_store_columns status path nix_store now d =
    let t = terminal_columns status now d in
    let s = started_columns status now d in
    if is_terminal status
    then record t { derivation_path = some path; store_path = some nix_store }
    else record s { derivation_path = some path; store_path = some nix_store }

path_columns : EvaluationStatus → String → ℕ → Derivation → Derivation
unfolding is_terminal terminal_columns started_columns
path_columns status path now d =
    let t = terminal_columns status now d in
    let s = started_columns status now d in
    if is_terminal status
    then record t { derivation_path = some path }
    else record s { derivation_path = some path }

path_error_columns : EvaluationStatus → String → String → ℕ → Derivation → Derivation
unfolding is_terminal terminal_columns started_columns
path_error_columns status path error now d =
    let t = terminal_columns status now d in
    let s = started_columns status now d in
    if is_terminal status
    then record t { derivation_path = some path; error_message = some error }
    else record s { derivation_path = some path; error_message = some error }

error_store_columns : EvaluationStatus → String → String → ℕ → Derivation → Derivation
unfolding is_terminal terminal_columns started_columns
error_store_columns status error nix_store now d =
    let t = terminal_columns status now d in
    let s = started_columns status now d in
    if is_terminal status
    then record t { error_message = some error; store_path = some nix_store }
    else record s { error_message = some error; store_path = some nix_store }

error_columns : EvaluationStatus → String → ℕ → Derivation → Derivation
unfolding is_terminal terminal_columns started_columns
error_columns status error now d =
    let t = terminal_columns status now d in
    let s = started_columns status now d in
    if is_terminal status
    then record t { error_message = some error }
    else record s { error_message = some error }

store_columns : EvaluationStatus → String → ℕ → Derivation → Derivation
unfolding is_terminal is_in_progress terminal_columns started_columns
store_columns status nix_store now d =
    let t = terminal_columns status now d in
    let s = started_columns status now d in
    if is_terminal status
    then record t { store_path = some nix_store }
    else if is_in_progress status
    then record s { store_path = some nix_store }
    else record d { status_id = as_id status; store_path = some nix_store }

bare_columns : EvaluationStatus → ℕ → Derivation → Derivation
unfolding is_terminal is_in_progress terminal_columns started_columns
bare_columns status now d =
    if is_in_progress status
    then started_columns status now d
    else if is_terminal status
    then terminal_columns status now d
    else record d { status_id = as_id status }

-- The match on (derivation_path, error_message, store_path).
unfoldable pub status_columns :
    EvaluationStatus → Option String → Option String → Option String → ℕ → Derivation → Derivation
unfolding path_error_store_columns path_store_columns path_columns path_error_columns
    error_store_columns error_columns store_columns bare_columns
status_columns status (some path) (some error) (some nix_store) =
    path_error_store_columns status path error nix_store
status_columns status (some path) none (some nix_store) = path_store_columns status path nix_store
status_columns status (some path) none none = path_columns status path
status_columns status (some path) (some error) none = path_error_columns status path error
status_columns status none (some error) (some nix_store) =
    error_store_columns status error nix_store
status_columns status none (some error) none = error_columns status error
status_columns status none none (some nix_store) = store_columns status nix_store
status_columns status none none none = bare_columns status

-- A query that returns the updated rows, read by `fetch_one`.
abbrev pub row_or_error : Option Derivation → Result Derivation
row_or_error none = err row_not_found
row_or_error (some d) = ok d

abbrev pub fetch_one : ℕ → List Derivation → Result Derivation
fetch_one i ds = row_or_error (find (has_id i) ds)

unfoldable pub update_derivation_status :
    ℕ
    → EvaluationStatus
    → Option String
    → Option String
    → Option String
    → ℕ
    → List Derivation
    → List Derivation × Result Derivation
unfolding status_columns duration_fits
update_derivation_status target_id status path error store now ds =
    elim (find (has_id target_id) ds) [
      | none ↦ (ds, err row_not_found)
      | some d ↦
          if not (duration_fits status now d)
          then (ds, err numeric_value_out_of_range)
          else if path_taken target_id path ds
          then (ds, err unique_violation)
          else let ds' =
              update_where (has_id target_id) (status_columns status path error store now) ds in
            (ds', fetch_one target_id ds')
    ]

unfoldable pub mark_derivation_dry_run_in_progress :
    ℕ → ℕ → List Derivation → List Derivation × Result Derivation
unfolding update_derivation_status
mark_derivation_dry_run_in_progress i =
    update_derivation_status i dry_run_in_progress none none none

unfoldable pub mark_derivation_dry_run_complete :
    ℕ → String → ℕ → List Derivation → List Derivation × Result Derivation
unfolding update_derivation_status
mark_derivation_dry_run_complete i path =
    update_derivation_status i dry_run_complete (some path) none none

unfoldable pub mark_derivation_build_in_progress :
    ℕ → ℕ → List Derivation → List Derivation × Result Derivation
unfolding update_derivation_status
mark_derivation_build_in_progress i = update_derivation_status i build_in_progress none none none

unfoldable pub mark_derivation_build_complete :
    ℕ → String → ℕ → List Derivation → List Derivation × Result Derivation
unfolding update_derivation_status
mark_derivation_build_complete i store_path =
    update_derivation_status i build_complete none none (some store_path)

-- The status that a phase's failure has; any other phase is an error.
unfoldable pub failed_status : String → Result EvaluationStatus
failed_status phase =
    if phase == "dry-run"
    then ok dry_run_failed
    else if phase == "build"
    then ok build_failed
    else err (message "Invalid phase")

unfoldable pub mark_derivation_failed :
    ℕ → String → String → ℕ → List Derivation → List Derivation × Result Derivation
unfolding update_derivation_status failed_status
mark_derivation_failed i phase error now ds = elim (failed_status phase) [
  | ok status ↦ update_derivation_status i status none (some error) none now ds
  | err e ↦ (ds, err e)
]

unfoldable pub update_derivation_path :
    Derivation → String → String → ℕ → List Derivation → List Derivation × Result Derivation
unfolding update_derivation_status
update_derivation_path target path store_path =
    update_derivation_status target.id dry_run_complete (some path) none (some store_path)
