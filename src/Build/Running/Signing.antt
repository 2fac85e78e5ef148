-- ===== src/Build/Running/Signing.antt =====
-- packages/default/src/derivations/build.rs: the signing of the path that a build gives.
use Prim.Native.String.{◌++◌ as str_append}
use crystal_forge.Prelude.{
  ℕ, String, Bool, true, false, none, some, List, [], ◌∷◌, Result, ok, err, message, if◌then◌else◌,
  is_none,
}
use crystal_forge.Derivation.{Derivation}
use crystal_forge.Config.Cache.{CacheConfig, sign_command}
use crystal_forge.Build.Running.{BuildHost, BuildEvent, ExitStatus, success}

module _ {W : Type 0} (host : BuildHost W) where
  -- `run_streaming_command`: the lines are only logged.
  abbrev pub command_succeeds :
      W × Result (List (ℕ × BuildEvent) × Result ExitStatus) → W × Result Bool
  command_succeeds (w, err e) = (w, err e)
  command_succeeds (w, ok (events, err e)) = (w, err e)
  command_succeeds (w, ok (events, ok status)) = (w, ok (success status))

  abbrev signed : String → W × Result Bool → W × Result (Unit {0})
  signed store_path (w, ok true) = (w, ok tt)
  signed store_path (w, ok false) =
      (w, err (message (str_append "Failed to sign store path: " store_path)))
  signed store_path (w, err e) = (w, err e)

  unfoldable pub run_streaming_command : List String → W → W × Result Bool
  run_streaming_command command w = command_succeeds (host.spawn command w)

  unfoldable pub sign : CacheConfig → Derivation → W → W × Result (Unit {0})
  unfolding run_streaming_command sign_command
  sign c d w = elim d.store_path [
    | none ↦ (w, err (message "Derivation missing store_path"))
    | some store_path ↦ elim (sign_command c store_path) [
      | none ↦ (w, ok tt)
      | some cmd ↦ signed store_path (run_streaming_command (cmd.command ∷ cmd.args) w)
    ]
  ]

  abbrev verified : String → W × Result (ExitStatus × String × String) → W × Result (Unit {0})
  verified store_path (w, err e) = (w, err e)
  verified store_path (w, ok (status, stdout, stderr)) =
      if success status
      then (w, ok tt)
      else (w, err (message (str_append "Failed to verify signatures for " store_path)))

  -- A path without signatures is only logged.
  unfoldable pub verify_signed : CacheConfig → Derivation → W → W × Result (Unit {0})
  verify_signed c d w = if is_none c.signing_key then (w, ok tt) else elim d.store_path [
    | none ↦ (w, err (message "Derivation missing store_path"))
    | some store_path ↦
        verified store_path (host.output ("nix" ∷ "store" ∷ "info" ∷ store_path ∷ "--json" ∷ []) w)
  ]
