-- ===== src/Build/Running.antt =====
-- packages/default/src/derivations/build.rs: the run of a build by `nix-store`, in a scope of systemd
-- or without one. `W` is the system that the processes run on.
-- Messages of errors are cut short where no code reads them.
pub mod Progress
pub mod Fallback
pub mod Signing
use Prim.Native.String.{◌++◌ as str_append}
use text.Mathlib.Text.{starts_with}
use crystal_forge.Prelude.{
  ℕ, ◌-◌, ◌==◌, String, Bool, true, false, ◌&&◌, ◌||◌, not, Option, none, some, List, [], ◌∷◌, ◌++◌,
  Result, ok, err, Error, message, if◌then◌else◌, str_eq, is_none, concat, str_contains, ends_with,
  to_lowercase,
}
use crystal_forge.Table.{update_where, exists}
use crystal_forge.Derivation.{Derivation, has_id}
use crystal_forge.CachePush.Worker.{error_text}
use crystal_forge.Config.Build.{BuildConfig}
use crystal_forge.Build.Commands.{build_command, direct_command}

-- How a process ends: with a code, or by a signal.
pub data ExitStatus : Type 0 where
  exited : ℕ → ExitStatus
  signalled : ExitStatus

abbrev pub success : ExitStatus → Bool
success (exited code) = code == 0
success signalled = false

-- What the loop of `run_streaming_build` is woken by. A tick of the heartbeat carries the time of
-- NOW() in the database. The end of stdout is the end of the events.
pub data BuildEvent : Type 0 where
  stdout_line stderr_line : String → BuildEvent
  stdout_error stderr_end stderr_error : BuildEvent
  tick : ℕ → BuildEvent

-- A process that is spawned with a program and its arguments gives its events, with the seconds
-- since its start, and its end; `output` runs one and gives the status, stdout and stderr.
pub record BuildHost (W : Type 0) : Type 0 where
  pub spawn : List String → W → W × Result (List (ℕ × BuildEvent) × Result ExitStatus)
  pub output : List String → W → W × Result (ExitStatus × String × String)
  pub trim : String → String
  pub to_text : ℕ → String

-- `update_build_heartbeat` of this file.
unfoldable pub update_build_heartbeat :
    ℕ → ℕ → Option String → ℕ → ℕ → List Derivation → List Derivation
update_build_heartbeat derivation_id elapsed_seconds current_target last_activity_seconds now =
    update_where (has_id derivation_id) λ d. record d {
      build_elapsed_seconds = some elapsed_seconds;
      build_current_target = current_target;
      build_last_activity_seconds = some last_activity_seconds;
      build_last_heartbeat = some now;
    }

-- The target that a line names, else the one before.
unfoldable pub target_of : String → Option String → Option String
target_of line current_target =
    if str_contains line "building '" || str_contains line "copying path '"
    then some line
    else current_target

-- The loop: the last two arguments before the rows are the current target and the time of the last
-- output. An error of a heartbeat is only logged.
unfoldable pub read_events :
    ℕ → List (ℕ × BuildEvent) → Option String → ℕ → List Derivation → List Derivation
read_events id [] target last_output ds = ds
read_events id ((t, stdout_line line) ∷ es) target last_output ds =
    read_events id es (target_of line target) t ds
read_events id ((t, stderr_line line) ∷ es) target last_output ds =
    read_events id es (target_of line target) t ds
read_events id ((t, stdout_error) ∷ es) target last_output ds = ds
read_events id ((t, stderr_end) ∷ es) target last_output ds =
    read_events id es target last_output ds
read_events id ((t, stderr_error) ∷ es) target last_output ds =
    read_events id es target last_output ds
read_events id ((t, tick now) ∷ es) target last_output ds =
    read_events id es target last_output
      (update_build_heartbeat id t target (t - last_output) now ds)

-- error_str.contains(...) on the text in lower case.
unfoldable pub is_systemd_error : Error → Bool
is_systemd_error error =
    let error_str = to_lowercase (error_text error) in
    str_contains error_str "systemd"
    || str_contains error_str "dbus"
    || str_contains error_str "scope"
    || str_contains error_str "failed to create"

-- The rows beside the system.
abbrev pub beside :
    {W : Type 0} → W × Result String → List Derivation → (W × List Derivation) × Result String
beside (w, r) ds = ((w, ds), r)

module _ {W : Type 0} (host : BuildHost W) where
  abbrev pub exit_code : ExitStatus → String
  exit_code (exited code) = host.to_text code
  exit_code signalled = "-1"

  abbrev pub build_failed_text : String → ExitStatus → String
  build_failed_text drv_path status =
      concat ("Build failed for " ∷ drv_path ∷ " with exit code " ∷ exit_code status ∷ [])

  abbrev pub output_path : String → W × Result (ExitStatus × String × String) → W × Result String
  output_path drv_path (w, err e) = (w, err e)
  output_path drv_path (w, ok (status, stdout, stderr)) =
      if not (success status)
      then (
        w,
        err (message (concat ("Failed to get store path for " ∷ drv_path ∷ ": " ∷ stderr ∷ []))),
      )
      else if str_eq (host.trim stdout) ""
      then (w, err (message (str_append "Got empty store path for " drv_path)))
      else (w, ok (host.trim stdout))

  unfoldable pub resolve_store_path_from_drv : String → W → W × Result String
  resolve_store_path_from_drv drv_path w =
      output_path drv_path (host.output ("nix-store" ∷ "--query" ∷ "--outputs" ∷ drv_path ∷ []) w)

  -- After the events: the process is waited for.
  abbrev pub after_wait :
      String → Result ExitStatus → W → List Derivation → (W × List Derivation) × Result String
  after_wait drv_path (err e) w ds = ((w, ds), err e)
  after_wait drv_path (ok status) w ds =
      if success status
      then beside (resolve_store_path_from_drv drv_path w) ds
      else ((w, ds), err (message (build_failed_text drv_path status)))

  abbrev pub after_spawn :
      String
      → ℕ
      → W × Result (List (ℕ × BuildEvent) × Result ExitStatus)
      → List Derivation
      → (W × List Derivation) × Result String
  after_spawn drv_path id (w, err e) ds =
      ((w, ds), err (message (str_append "Failed to spawn build process: " (error_text e))))
  after_spawn drv_path id (w, ok (events, waited)) ds =
      after_wait drv_path waited w (read_events id events none 0 ds)

  unfoldable pub run_streaming_build :
      List String → String → ℕ → W × List Derivation → (W × List Derivation) × Result String
  unfolding resolve_store_path_from_drv read_events
  run_streaming_build command drv_path id (w, ds) =
      after_spawn drv_path id (host.spawn command w) ds

  unfoldable pub build_with_direct_nix_store :
      BuildConfig
      → Derivation
      → String
      → W × List Derivation
      → (W × List Derivation) × Result String
  unfolding run_streaming_build direct_command
  build_with_direct_nix_store c d drv_path s =
      run_streaming_build (direct_command host.to_text c drv_path) drv_path d.id s

  -- After the first run: an error that looks like one of systemd has a second run, without a scope.
  abbrev pub after_run :
      BuildConfig
      → Derivation
      → String
      → (W × List Derivation) × Result String
      → (W × List Derivation) × Result String
  after_run c d drv_path (s, ok path) = (s, ok path)
  after_run c d drv_path (s, err e) =
      if c.use_systemd_scope && is_systemd_error e
      then build_with_direct_nix_store c d drv_path s
      else (s, err e)

  unfoldable pub build_path :
      BuildConfig
      → Derivation
      → W × List Derivation
      → Option String
      → (W × List Derivation) × Result String
  unfolding run_streaming_build build_command build_with_direct_nix_store
  build_path c d s none = (s, err (message "derivation missing derivation_path"))
  build_path c d s (some drv_path) =
      if not (ends_with drv_path ".drv")
      then (s, err (message (str_append "Expected .drv path, got: " drv_path)))
      else after_run c d drv_path
          (run_streaming_build (build_command host.to_text c d.id drv_path) drv_path d.id s)

  unfoldable pub build :
      BuildConfig → Derivation → W × List Derivation → (W × List Derivation) × Result String
  unfolding build_path
  build c d s = build_path c d s d.derivation_path
