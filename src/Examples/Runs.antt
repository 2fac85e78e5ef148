-- ===== src/Examples/Runs.antt =====
-- Builds whose first process fails.
use crystal_forge.Prelude.{
  ℕ, suc, ◌≡◌, refl, ◌⊎◌, String, true, some, none, List, [], ◌∷◌, ◌==◌, ok, err, Error,
  if◌then◌else◌, str_eq, ends_with, false, str_contains, to_lowercase,
}
use crystal_forge.Derivation.{Derivation}
use crystal_forge.Config.Build.{default_build_config}
use crystal_forge.Build.Commands.{direct_command}
use crystal_forge.Build.Running.{
  BuildHost, stderr_line, tick, exited, build_path, build_with_direct_nix_store, is_systemd_error,
  resolve_store_path_from_drv, build, read_events, run_streaming_build,
}
use crystal_forge.Build.Running.Progress.{build_lem, kept}
use crystal_forge.Build.Running.Fallback.{build_falls_back}
use crystal_forge.Examples.Rows.{system_row}

-- The first process fails and the later ones do not; the state counts them.
abbrev host : BuildHost ℕ
host = record {
  spawn = λ args n. (
    suc n,
    ok (
      (1, stderr_line "building 'systemd'") ∷ (6, tick 7000) ∷ [],
      ok (exited (if n == 0 then 1 else 0)),
    ),
  );
  output = λ args n. (n, ok (exited 0, "/nix/store/out", ""));
  trim = λ s. s;
  to_text = λ n. "1";
}

abbrev unit : Derivation
unit = record (system_row 4 8 1) { derivation_path = some "/nix/store/abc-systemd-257.drv" }

abbrev rows : List Derivation
rows = unit ∷ []

build_example :
    let end = build host default_build_config unit (1, rows) in
    (kept end.0.1 ≡ kept rows)
    × (((drv_path path : String) × (end.1 ≡ ok path)
          × (str_eq path "" ≡ false)
          × (unit.derivation_path ≡ some drv_path)
          × (ends_with drv_path ".drv" ≡ true))
        ⊎ ((e : Error) × (end.1 ≡ err e)))
build_example = build_lem host default_build_config unit (1, rows)

build_falls_back_example :
    build host default_build_config unit (0, rows)
    ≡ run_streaming_build host
        (direct_command host.to_text default_build_config "/nix/store/abc-systemd-257.drv")
        "/nix/store/abc-systemd-257.drv"
        4
        (1, read_events 4 ((1, stderr_line "building 'systemd'") ∷ (6, tick 7000) ∷ []) none 0 rows)
unfolding default_build_config ends_with
build_falls_back_example =
    build_falls_back host default_build_config unit "/nix/store/abc-" "-257.drv" 0 1 rows
      ((1, stderr_line "building 'systemd'") ∷ (6, tick 7000) ∷ []) (exited 1) refl refl refl refl
      refl

-- The second run gives the path.
second_run : (build host default_build_config unit (0, rows)).1 ≡ ok "/nix/store/out"
unfolding build build_path run_streaming_build build_with_direct_nix_store is_systemd_error
    str_contains to_lowercase default_build_config ends_with resolve_store_path_from_drv
second_run = refl
