-- ===== src/Build/Running/Progress.antt =====
-- What a build leaves of the rows.
use crystal_forge.Prelude.{
  ℕ, ◌≡◌, refl, ◌∙◌, ap, String, Bool-cases, Option, none, some, true, false, inl, inr, ◌⊎◌, ◌&&◌,
  List, [], ◌∷◌, map, Result, ok, err, Error, str_eq, ends_with,
}
use crystal_forge.Table.{update_where}
use crystal_forge.Derivation.{Derivation, has_id}
use crystal_forge.Config.Build.{BuildConfig}
use crystal_forge.Build.Commands.{build_command, direct_command}
use crystal_forge.Build.Running.{
  BuildHost, BuildEvent, stdout_line, stderr_line, stdout_error, stderr_end, stderr_error, tick,
  update_build_heartbeat, read_events, build_path, build, ExitStatus, success, beside, output_path,
  resolve_store_path_from_drv, after_wait, after_spawn, run_streaming_build, after_run,
  build_with_direct_nix_store, is_systemd_error,
}

-- A row without the columns of the progress of a build.
abbrev pub without_progress : Derivation → Derivation
without_progress d = record d {
  build_elapsed_seconds = none;
  build_current_target = none;
  build_last_activity_seconds = none;
  build_last_heartbeat = none;
}

abbrev pub kept : List Derivation → List Derivation
kept ds = map without_progress ds

heartbeat-kept :
    (id elapsed : ℕ) (target : Option String) (last now : ℕ) (ds : List Derivation)
    → kept (update_build_heartbeat id elapsed target last now ds) ≡ kept ds
unfolding update_build_heartbeat update_where
heartbeat-kept id elapsed target last now [] = refl
heartbeat-kept id elapsed target last now (d ∷ ds) =
    let rest = heartbeat-kept id elapsed target last now ds in
    elim (Bool-cases (has_id id d)) [
      | inl e ↦ rw e (ap (λ r. without_progress d ∷ r) rest)
      | inr e ↦ rw e (ap (λ r. without_progress d ∷ r) rest)
    ]

read_events-kept :
    (id : ℕ) (es : List (ℕ × BuildEvent)) (target : Option String) (last : ℕ) (ds : List Derivation)
    → kept (read_events id es target last ds) ≡ kept ds
unfolding read_events
read_events-kept id [] target last ds = refl
read_events-kept id ((t, stdout_line l) ∷ es) target last ds = read_events-kept id es _ t ds
read_events-kept id ((t, stderr_line l) ∷ es) target last ds = read_events-kept id es _ t ds
read_events-kept id ((t, stdout_error) ∷ es) target last ds = refl
read_events-kept id ((t, stderr_end) ∷ es) target last ds = read_events-kept id es target last ds
read_events-kept id ((t, stderr_error) ∷ es) target last ds = read_events-kept id es target last ds
read_events-kept id ((t, tick now) ∷ es) target last ds =
    read_events-kept id es target last _ ∙ heartbeat-kept id t target _ now ds

-- A run keeps the rows but for their progress, and its path is not empty.
Ends : {W : Type 0} → List Derivation → (W × List Derivation) × Result String → Type 0
Ends ds x =
    (kept x.0.1 ≡ kept ds)
    × (((path : String) × (x.1 ≡ ok path) × (str_eq path "" ≡ false))
        ⊎ ((e : Error) × (x.1 ≡ err e)))

module _ {W : Type 0} (host : BuildHost W) where
  beside-Ends :
      (drv_path : String) (x : W × Result (ExitStatus × String × String)) (ds : List Derivation)
      → Ends ds (beside (output_path host drv_path x) ds)
  unfolding Ends
  beside-Ends drv_path (w, err e) ds = (refl, inr (e, refl))
  beside-Ends drv_path (w, ok (status, stdout, stderr)) ds = elim (Bool-cases (success status)) [
    | inr failed ↦ rw failed (refl, inr (_, refl))
    | inl ended ↦ elim (Bool-cases (str_eq (host.trim stdout) "")) [
      | inl nothing ↦ rw ended rw nothing (refl, inr (_, refl))
      | inr path ↦ rw ended rw path (refl, inl (host.trim stdout, refl, path))
    ]
  ]

  after_wait-Ends :
      (drv_path : String) (waited : Result ExitStatus) (w : W) (ds : List Derivation)
      → Ends ds (after_wait host drv_path waited w ds)
  unfolding Ends resolve_store_path_from_drv
  after_wait-Ends drv_path (err e) w ds = (refl, inr (e, refl))
  after_wait-Ends drv_path (ok status) w ds = elim (Bool-cases (success status)) [
    | inl ended ↦ rw ended (beside-Ends drv_path (host.output _ w) ds)
    | inr failed ↦ rw failed (refl, inr (_, refl))
  ]

  after_spawn-Ends :
      (drv_path : String) (id : ℕ) (x : W × Result (List (ℕ × BuildEvent) × Result ExitStatus))
      (ds : List Derivation)
      → Ends ds (after_spawn host drv_path id x ds)
  unfolding Ends
  after_spawn-Ends drv_path id (w, err e) ds = (refl, inr (_, refl))
  after_spawn-Ends drv_path id (w, ok (events, waited)) ds =
      let (rows, answer) = after_wait-Ends drv_path waited w (read_events id events none 0 ds) in
      (rows ∙ read_events-kept id events none 0 ds, answer)

  run_streaming_build-Ends :
      (command : List String) (drv_path : String) (id : ℕ) (s : W × List Derivation)
      → Ends s.1 (run_streaming_build host command drv_path id s)
  unfolding run_streaming_build
  run_streaming_build-Ends command drv_path id (w, ds) =
      after_spawn-Ends drv_path id (host.spawn command w) ds

  after_run-Ends :
      (c : BuildConfig) (d : Derivation) (drv_path : String) (ds : List Derivation)
      (x : (W × List Derivation) × Result String)
      → Ends ds x
      → Ends ds (after_run host c d drv_path x)
  unfolding Ends build_with_direct_nix_store
  after_run-Ends c d drv_path ds (s, ok path) h = h
  after_run-Ends c d drv_path ds (s, err e) h =
      elim (Bool-cases (c.use_systemd_scope && is_systemd_error e)) [
        | inr final ↦ rw final h
        | inl again ↦
            let (rows, answer) =
              run_streaming_build-Ends (direct_command host.to_text c drv_path) drv_path d.id s in
            rw again (rows ∙ h.0, answer)
      ]

  build_path-Ends :
      (c : BuildConfig) (d : Derivation) (s : W × List Derivation) (set : Option String)
      → let end = build_path host c d s set in
        (kept end.0.1 ≡ kept s.1)
        × (((drv_path path : String) × (end.1 ≡ ok path)
              × (str_eq path "" ≡ false)
              × (set ≡ some drv_path)
              × (ends_with drv_path ".drv" ≡ true))
            ⊎ ((e : Error) × (end.1 ≡ err e)))
  unfolding build_path Ends
  build_path-Ends c d s none = (refl, inr (_, refl))
  build_path-Ends c d s (some drv_path) = elim (Bool-cases (ends_with drv_path ".drv")) [
    | inr other ↦ rw other (refl, inr (_, refl))
    | inl drv ↦
        let (rows, answer) =
          after_run-Ends c d drv_path s.1 _ (
            run_streaming_build-Ends (build_command host.to_text c d.id drv_path) drv_path d.id
              s) in
        rw drv (
          rows,
          elim answer [
            | inl (path, done, full) ↦ inl (drv_path, path, done, full, refl, drv)
            | inr e ↦ inr e
          ],
        )
  ]

  -- A build changes no column of the derivations but the four of its progress. It gives a path that
  -- is not empty, and then the derivation has the path of a .drv file; or it gives an error.
  pub build_lem :
      (c : BuildConfig) (d : Derivation) (s : W × List Derivation)
      → let end = build host c d s in
        (kept end.0.1 ≡ kept s.1)
        × (((drv_path path : String) × (end.1 ≡ ok path)
              × (str_eq path "" ≡ false)
              × (d.derivation_path ≡ some drv_path)
              × (ends_with drv_path ".drv" ≡ true))
            ⊎ ((e : Error) × (end.1 ≡ err e)))
  unfolding build
  build_lem c d s = build_path-Ends c d s d.derivation_path
