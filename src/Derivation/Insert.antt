-- ===== src/Derivation/Insert.antt =====
-- queries/derivations.rs: the INSERT ... ON CONFLICT statements. The unique index
-- (COALESCE(commit_id, -1), derivation_name, derivation_type) of migration 0069 finds the
-- conflicting row; ids are positive, so NULL is the one commit that COALESCE sends to -1.
pub mod Unique
pub mod Kept
pub mod Outcome
use text.Mathlib.Text.{◌==◌ as str_eq}
use crystal_forge.Prelude.{
  ℕ, String, Bool, true, false, Option, none, some, List, [], ◌∷◌, ◌++◌, ◌&&◌, ◌||◌, ◌==◌, Result,
  ok, err, unique_violation, coalesce, if◌then◌else◌,
}
use crystal_forge.Table.{update_where, find, exists}
use crystal_forge.Derivation.{
  Derivation, DerivationType, nixos_type, package_type, type_eq, has_status, as_id, dry_run_pending,
  dry_run_complete, dry_run_failed, build_complete, build_failed,
}
use crystal_forge.Derivation.Update.{row_or_error}

abbrev pub opt_eq : Option ℕ → Option ℕ → Bool
opt_eq none none = true
opt_eq (some a) (some b) = a == b
opt_eq _ _ = false

unfoldable pub has_key : Option ℕ → String → DerivationType → Derivation → Bool
has_key commit_id name type d =
    opt_eq d.commit_id commit_id && str_eq d.derivation_name name && type_eq d.derivation_type type

-- A row with the columns that every insert gives; the other columns are NULL, and `scheduled_at`
-- has the default NOW() of migration 0002.
unfoldable pub new_row : ℕ → Option ℕ → DerivationType → String → ℕ → ℕ → Derivation
new_row id commit_id type name status_id now = record {
  id = id;
  commit_id = commit_id;
  derivation_type = type;
  derivation_name = name;
  derivation_path = none;
  scheduled_at = some now;
  completed_at = none;
  started_at = none;
  attempt_count = 0;
  evaluation_duration_ms = none;
  error_message = none;
  pname = none;
  version = none;
  status_id = status_id;
  derivation_target = none;
  build_elapsed_seconds = none;
  build_current_target = none;
  build_last_activity_seconds = none;
  build_last_heartbeat = none;
  cf_agent_enabled = none;
  store_path = none;
}

-- INSERT ... ON CONFLICT (key) DO UPDATE SET f RETURNING: the row `new`, or the update of the
-- rows that have its key.
unfoldable pub upsert :
    (Derivation → Bool)
    → Derivation
    → (Derivation → Derivation)
    → List Derivation
    → List Derivation × Result Derivation
upsert key new f ds =
    let ds' = if exists key ds then update_where key f ds else ds ++ new ∷ [] in
    (ds', row_or_error (find key ds'))

-- The type that `insert_derivation` takes from its text argument.
unfoldable pub type_of_target : String → DerivationType
type_of_target t =
    if str_eq t "nixos" then nixos_type else if str_eq t "package" then package_type else nixos_type

-- WHEN derivations.status_id IN (DryRunComplete, BuildComplete) THEN keep ELSE EXCLUDED
keep_or_pending : Derivation → Derivation
keep_or_pending d = record d {
  status_id =
      if has_status dry_run_complete d || has_status build_complete d
      then d.status_id
      else as_id dry_run_pending;
}

-- `id` is the value that the sequence hands out, `commit_id` that of the commit, if one is given.
unfoldable pub insert_derivation :
    ℕ → Option ℕ → String → String → ℕ → List Derivation → List Derivation × Result Derivation
unfolding type_of_target upsert has_key new_row keep_or_pending
insert_derivation id commit_id target_name target_type now =
    let type = type_of_target target_type in
    upsert (has_key commit_id target_name type)
      (new_row id commit_id type target_name (as_id dry_run_pending) now) keep_or_pending

-- status_id IN ($6, $7, $8, $9)
unfoldable pub has_terminal_status : Derivation → Bool
has_terminal_status d =
    has_status dry_run_complete d
    || has_status dry_run_failed d
    || has_status build_complete d
    || has_status build_failed d

unfoldable pub refresh : Option String → ℕ → Derivation → Derivation
unfolding has_terminal_status
refresh derivation_target now d = record d {
  status_id = if has_terminal_status d then d.status_id else as_id dry_run_pending;
  derivation_target = coalesce derivation_target d.derivation_target;
  scheduled_at = if has_terminal_status d then d.scheduled_at else some now;
}

unfoldable pub insert_derivation_with_target :
    ℕ
    → Option ℕ
    → String
    → DerivationType
    → Option String
    → Option Bool
    → ℕ
    → List Derivation
    → List Derivation × Result Derivation
unfolding upsert has_key new_row refresh
insert_derivation_with_target id commit_id name type target cf_agent_enabled now =
    let row = new_row id commit_id type name (as_id dry_run_pending) now in
    upsert (has_key commit_id name type)
      (record row { derivation_target = target; cf_agent_enabled = cf_agent_enabled })
      (refresh target now)

-- ON CONFLICT (derivation_path) never fires, since the statement leaves the path NULL: a row with
-- the same key makes the insert fail on the unique index.
unfoldable pub insert_package_derivation :
    ℕ
    → String
    → Option String
    → Option String
    → ℕ
    → List Derivation
    → List Derivation × Result Derivation
unfolding has_key new_row
insert_package_derivation id package_name pname version now ds =
    let row = new_row id none package_type package_name (as_id dry_run_complete) now in
    let new = record row { pname = pname; version = version } in
    if exists (has_key none package_name package_type) ds
    then (ds, err unique_violation)
    else (ds ++ new ∷ [], ok new)
