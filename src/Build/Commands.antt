-- ===== src/Build/Commands.antt =====
-- packages/default/src/derivations/build.rs and utils.rs: the commands of a build. `to_text` prints a
-- number.
use Prim.Native.String.{◌++◌ as str_append}
use text.Mathlib.Text.{starts_with}
use crystal_forge.Prelude.{ℕ, String, Bool, List, [], ◌∷◌, ◌++◌, if◌then◌else◌}
use crystal_forge.Table.{exists}
use crystal_forge.Config.Build.{BuildConfig, apply_to_command, property_args, text_of}

-- The properties that a scope knows.
unfoldable pub is_scope_property : String → Bool
is_scope_property p =
    exists (starts_with p)
      ("Memory" ∷ "CPU" ∷ "Tasks" ∷ "IO" ∷ "Kill" ∷ "OOM" ∷ "Device" ∷ "IPAccounting" ∷ [])

unfoldable pub scope_properties : List String → List String
scope_properties [] = []
scope_properties (p ∷ ps) =
    let rest = scope_properties ps in if is_scope_property p then "--property" ∷ p ∷ rest else rest

module _ (to_text : ℕ → String) where
  -- `apply_systemd_props_for_scope` of utils.rs.
  unfoldable pub apply_systemd_props_for_scope : BuildConfig → List String
  unfolding scope_properties
  apply_systemd_props_for_scope c =
      property_args to_text "MemoryMax=" c.systemd_memory_max ""
      ++ property_args to_text "CPUQuota=" (text_of to_text c.systemd_cpu_quota) "%"
      ++ property_args to_text "TimeoutStopSec=" (text_of to_text c.systemd_timeout_stop_sec) ""
      ++ scope_properties c.systemd_properties

  unfoldable pub get_gc_root_path : ℕ → String
  get_gc_root_path id = str_append "/var/cache/crystal-forge/gc-roots/derivation-" (to_text id)

  -- The program of a build with its arguments.
  unfoldable pub build_command : BuildConfig → ℕ → String → List String
  unfolding apply_systemd_props_for_scope get_gc_root_path
  build_command c id drv_path =
      (if c.use_systemd_scope
        then ("systemd-run" ∷ "--scope" ∷ "--collect" ∷ "--quiet" ∷ [])
          ++ apply_systemd_props_for_scope c
          ++ "--" ∷ []
        else [])
      ++ ("nix-store"
          ∷ "--realise"
          ∷ "--add-root"
          ∷ get_gc_root_path id
          ∷ "--indirect"
          ∷ drv_path
          ∷ [])
      ++ apply_to_command to_text c

  unfoldable pub direct_command : BuildConfig → String → List String
  direct_command c drv_path =
      ("nix-store" ∷ "--realise" ∷ drv_path ∷ []) ++ apply_to_command to_text c
