-- ===== src/Build/Running/Fallback.antt =====
-- When a failed build is run again without a scope.
use Prim.Native.String.{◌++◌ as str_append}
use text.Mathlib.TextLemmas.{append_assoc}
use crystal_forge.Prelude.{
  ℕ, ◌≡◌, refl, sym, ap, ◌∙◌, String, concat, [], ◌∷◌, true, false, none, some, List, ok, message,
  ends_with, to_lowercase, to_lowercase-append, str_contains, str_contains-append, arith,
}
use crystal_forge.Derivation.{Derivation}
use crystal_forge.Config.Build.{BuildConfig}
use crystal_forge.Build.Commands.{build_command, direct_command}
use crystal_forge.Build.Running.{
  BuildHost, BuildEvent, ExitStatus, success, read_events, is_systemd_error, build_path, build,
  exit_code, run_streaming_build, build_failed_text, build_with_direct_nix_store,
}

contains-to_lowercase :
    (s t : String)
    → str_contains (to_lowercase (str_append s (str_append "systemd" t))) "systemd" ≡ true
unfolding to_lowercase
contains-to_lowercase s t = rw (to_lowercase-append s (str_append "systemd" t)) (
    rw (to_lowercase-append "systemd" t)
      (str_contains-append (to_lowercase s) "systemd" (to_lowercase t)))

-- An error that names systemd anywhere is taken as one of systemd.
names-systemd :
    (s t : String) → is_systemd_error (message (str_append s (str_append "systemd" t))) ≡ true
unfolding is_systemd_error
names-systemd s t = let named = contains-to_lowercase s t in ground arith

module _ {W : Type 0} (host : BuildHost W) (c : BuildConfig) (d : Derivation) where
  failed_text_names :
      (before after : String) (status : ExitStatus)
      → is_systemd_error
          (message (build_failed_text host (str_append before (str_append "systemd" after)) status))
        ≡ true
  failed_text_names before after status =
      let start : String = "Build failed for " in
      let rest = concat (" with exit code " ∷ exit_code host status ∷ []) in
      let moved =
        ap (str_append start) (
          append_assoc before (str_append "systemd" after) rest
          ∙ ap (str_append before) (append_assoc "systemd" after rest))
        ∙ sym (append_assoc start before (str_append "systemd" (str_append after rest))) in
      ap (λ text. is_systemd_error (message text)) moved
      ∙ names-systemd (str_append start before) (str_append after rest)

  -- With scopes of systemd, a build that ends with a failure is run a second time, on the rows that
  -- the first run left, without a scope and without a GC root, whenever the path of the derivation
  -- itself contains the word systemd, as the error repeats the path.
  pub build_falls_back :
      (before after : String) (w w' : W) (ds : List Derivation) (events : List (ℕ × BuildEvent))
      (status : ExitStatus)
      → c.use_systemd_scope ≡ true
      → let drv_path = str_append before (str_append "systemd" after) in
        d.derivation_path ≡ some drv_path
        → ends_with drv_path ".drv" ≡ true
        → host.spawn (build_command host.to_text c d.id drv_path) w ≡ (w', ok (events, ok status))
        → success status ≡ false
        → build host c d (w, ds)
          ≡ run_streaming_build host
              (direct_command host.to_text c drv_path)
              drv_path
              d.id
              (w', read_events d.id events none 0 ds)
  unfolding build build_path run_streaming_build build_with_direct_nix_store
  build_falls_back before after w w' ds events status scope set drv first failed =
      ap (build_path host c d (w, ds)) set
      ∙ rw drv rw first rw failed rw scope rw (failed_text_names before after status) refl
