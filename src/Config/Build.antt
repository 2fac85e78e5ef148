-- ===== src/Config/Build.antt =====
-- config/build.rs: the limits of a build, its arguments and their check. A `usize` has 64 bits, and a
-- product that is too large wraps in a release build; durations are seconds.
use Prim.Native.String.{◌++◌ as str_append}
use crystal_forge.Prelude.{
  ℕ, ◌+◌, ◌*◌, ◌%◌, ◌^◌, ◌≡◌, refl, String, Bool, true, false, Option, none, some, List, [], ◌∷◌,
  ◌++◌, Result, ok, err, message, ltb, ◌&&◌, if◌then◌else◌, concat,
}

pub record BuildConfig : Type 0 where
  pub cores : ℕ
  pub use_substitutes : Bool
  pub offline : Bool
  pub poll_interval : ℕ
  pub max_silent_time : ℕ
  pub timeout : ℕ
  pub sandbox : Bool
  pub systemd_memory_max : Option String
  pub systemd_cpu_quota : Option ℕ
  pub systemd_timeout_stop_sec : Option ℕ
  pub use_systemd_scope : Bool
  pub systemd_properties : List String
  pub max_concurrent_derivations : ℕ
  pub max_jobs : ℕ
  pub cores_per_job : ℕ

unfoldable pub default_build_config : BuildConfig
default_build_config = record {
  cores = 1;
  use_substitutes = true;
  offline = false;
  poll_interval = 300;
  max_silent_time = 3600;
  timeout = 7200;
  sandbox = true;
  systemd_memory_max = some "4G";
  systemd_cpu_quota = some 300;
  systemd_timeout_stop_sec = some 600;
  use_systemd_scope = true;
  systemd_properties = [];
  max_concurrent_derivations = 1;
  max_jobs = 1;
  cores_per_job = 0;
}

abbrev bool_text : Bool → String
bool_text true = "true"
bool_text false = "false"

module _ (to_text : ℕ → String) where
  -- The arguments that `apply_to_command` adds.
  unfoldable pub apply_to_command : BuildConfig → List String
  apply_to_command c =
      ("--cores" ∷ to_text c.cores_per_job ∷ "--max-jobs" ∷ to_text c.max_jobs ∷ [])
      ++ ("--option" ∷ "max-silent-time" ∷ to_text c.max_silent_time ∷ [])
      ++ ("--option" ∷ "timeout" ∷ to_text c.timeout ∷ [])
      ++ ("--option" ∷ "sandbox" ∷ bool_text c.sandbox ∷ [])
      ++ (if c.use_substitutes then [] else "--no-substitute" ∷ [])
      ++ (if c.offline then "--offline" ∷ [] else [])

  unfoldable pub nix_build_args : BuildConfig → List String
  nix_build_args c = "--max-jobs" ∷ to_text c.max_jobs ∷ "--cores" ∷ to_text c.cores_per_job ∷ []

  abbrev pub property_args : String → Option String → String → List String
  property_args prefix none suffix = []
  property_args prefix (some value) suffix =
      "--property" ∷ concat (prefix ∷ value ∷ suffix ∷ []) ∷ []

  abbrev pub text_of : Option ℕ → Option String
  text_of none = none
  text_of (some n) = some (to_text n)

  custom_properties : List String → List String
  custom_properties [] = []
  custom_properties (p ∷ ps) = "--property" ∷ p ∷ custom_properties ps

  -- The arguments of systemd-run.
  unfoldable pub systemd_scoped_cmd_base : ℕ → BuildConfig → List String
  unfolding custom_properties
  systemd_scoped_cmd_base derivation_id c =
      let unit_name = concat ("crystal-forge-build-" ∷ to_text derivation_id ∷ ".scope" ∷ []) in
      ("--scope"
        ∷ "--collect"
        ∷ "--quiet"
        ∷ "--slice=crystal-forge-builds.slice"
        ∷ str_append "--unit=" unit_name
        ∷ [])
      ++ property_args "MemoryMax=" c.systemd_memory_max ""
      ++ property_args "CPUQuota=" (text_of c.systemd_cpu_quota) "%"
      ++ property_args "TimeoutStopSec=" (text_of c.systemd_timeout_stop_sec) ""
      ++ custom_properties c.systemd_properties
      ++ ("--" ∷ "nix" ∷ "build" ∷ [])

unfoldable pub process_timeout : BuildConfig → ℕ
process_timeout c = c.timeout + 60

-- a * b on 64 bits
abbrev mul_usize : ℕ → ℕ → ℕ
mul_usize a b = (a * b) % 2 ^ 64

unfoldable pub max_cpu_usage : BuildConfig → ℕ
max_cpu_usage c = mul_usize (mul_usize c.max_concurrent_derivations c.max_jobs) c.cores_per_job

-- The message is cut short; the warnings are only printed.
unfoldable pub validate : ℕ → BuildConfig → Result (Unit {0})
unfolding max_cpu_usage
validate cpu_count c =
    if ltb 0 c.cores_per_job && ltb (mul_usize cpu_count 2) (max_cpu_usage c)
    then err (message "Build configuration would severely oversubscribe CPUs")
    else ok tt

-- The defaults are accepted on any machine.
validate-default : (cpu_count : ℕ) → validate cpu_count default_build_config ≡ ok tt
unfolding validate default_build_config
validate-default cpu_count = refl
