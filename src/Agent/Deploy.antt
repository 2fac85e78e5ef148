-- ===== src/Agent/Deploy.antt =====
-- deployment/agent.rs: `AgentDeploymentManager`. The system that it runs on is a state `W` with the
-- operations that the manager calls: links, processes, files, the clock and the environment.
-- Texts of errors are cut short where they only repeat the arguments.
pub mod Outcomes
pub mod Retry
use Prim.Native.String.{◌++◌ as str_append}
use text.Mathlib.Text.{starts_with}
use crystal_forge.Prelude.{
  ℕ, suc, zero, ◌+◌, ◌*◌, ◌-◌, ◌^◌, String, Bool, true, false, Option, none, some, List, [], ◌∷◌,
  ◌++◌, ◌==◌, ltb, not, Result, ok, err, Error, message, if◌then◌else◌, str_eq, concat,
}
use crystal_forge.Evaluation.Policy.{DeploymentPolicy}

pub data CacheType : Type 0 where
  s3 attic http nix : CacheType

abbrev is_attic : CacheType → Bool
is_attic attic = true
is_attic _ = false

-- The key of the server, which is never read from the file, is left out.
pub record DeploymentConfig : Type 0 where
  pub max_deployment_age_minutes : ℕ
  pub dry_run_first : Bool
  pub fallback_to_local_build : Bool
  pub deployment_timeout_minutes : ℕ
  pub cache_url : Option String
  pub cache_public_key : Option String
  pub deployment_poll_interval : ℕ
  pub policies : List DeploymentPolicy
  pub require_sigs : Bool
  pub cache_type : CacheType
  pub attic_cache_name : Option String

pub data DeploymentResult : Type 0 where
  no_deployment_needed already_on_target success_local_build : DeploymentResult
  success_from_cache : String → DeploymentResult
  started : String → DeploymentResult
  -- the error and the desired target
  failed : Error → String → DeploymentResult

unfoldable pub is_success : DeploymentResult → Bool
is_success (failed e target) = false
is_success _ = true

unfoldable pub change_reason : DeploymentResult → String
change_reason (success_from_cache url) = "cf_deployment"
change_reason success_local_build = "cf_deployment"
change_reason (started unit_name) = "cf_deployment"
change_reason _ = "heartbeat"

pub record AgentDeploymentManager : Type 0 where
  pub config : DeploymentConfig
  pub current_target : Option String

unfoldable pub new : DeploymentConfig → AgentDeploymentManager
new config = record { config = config; current_target = none }

-- What the manager calls of the system. `run_nix` is `nix` with these arguments, ended after so many
-- seconds; an answer is an error where the process fails or is ended.
pub record Host (W : Type 0) : Type 0 where
  pub readlink_path : String → W → Result String
  pub run_nix : List String → ℕ → W → W × Result (Unit {0})
  pub systemd_run : List String → W → W × Result (Unit {0})
  pub path_exists : String → W → Bool
  pub remove_dir_all : String → W → W × Result (Unit {0})
  pub home : W → Option String
  pub sleep : ℕ → W → W
  pub seconds : W → ℕ
  pub to_text : ℕ → String

-- The arguments of `nix`.
unfoldable pub copy_args : CacheType → String → String → Bool → List String
copy_args cache_type cache_url store_path refresh =
    "copy" ∷ "--from" ∷ cache_url ∷ (if refresh then "--refresh" ∷ [] else [])
    ++ (if is_attic cache_type then "--option" ∷ "http2" ∷ "false" ∷ [] else [])
    ++ store_path ∷ []

abbrev pub max_retries : ℕ
max_retries = 3

-- The `?` operator.
abbrev pub then_do : {W A B : Type 0} → W × Result A → (A → W → W × Result B) → W × Result B
then_do (w, ok a) next = next a w
then_do (w, err e) next = (w, err e)

module _ {W : Type 0} (host : Host W) (config : DeploymentConfig) where
  unfoldable pub copy_from_cache : String → String → Bool → W → W × Result (Unit {0})
  unfolding copy_args
  copy_from_cache cache_url store_path refresh w =
      host.run_nix (copy_args config.cache_type cache_url store_path refresh)
        (config.deployment_timeout_minutes * 60) w

  abbrev cache_dir : W → String
  cache_dir w = elim (host.home w) [
    | some home ↦ str_append home "/.cache/nix"
    | none ↦ "/var/lib/crystal-forge-agent/.cache/nix"
  ]

  unfoldable pub clear_nix_cache : W → W × Result (Unit {0})
  clear_nix_cache w =
      if host.path_exists (cache_dir w) w then host.remove_dir_all (cache_dir w) w else (w, ok tt)

  -- After a failed attempt that is not the last: the cache is cleared after the second, whose error
  -- is only logged, and then the agent waits, 5 s doubled with each attempt.
  unfoldable pub before_retry : ℕ → W → W
  unfolding clear_nix_cache
  before_retry attempt w =
      let cleared = if attempt == 2 then (clear_nix_cache w).0 else w in
      host.sleep (5 * 2 ^ (attempt - 1)) cleared

  abbrev pub after_copy :
      ℕ → W × Result (Unit {0}) → (W → W × Result (Unit {0})) → W × Result (Unit {0})
  after_copy attempt (w, ok _) retry = (w, ok tt)
  after_copy attempt (w, err e) retry =
      if ltb attempt max_retries then retry (before_retry attempt w) else (w, err e)

  -- The loop over the attempts, `left` of them still to be made.
  unfoldable pub copy_attempts : ℕ → ℕ → String → String → W → W × Result (Unit {0})
  unfolding copy_from_cache before_retry
  copy_attempts zero attempt cache_url store_path w =
      (w, err (message "Cache copy exhausted all retries"))
  copy_attempts (suc left) attempt cache_url store_path w =
      after_copy attempt (copy_from_cache cache_url store_path (attempt == 2) w)
        (λ w'. copy_attempts left (attempt + 1) cache_url store_path w')

  unfoldable pub copy_from_cache_with_retry : String → String → W → W × Result (Unit {0})
  unfolding copy_attempts
  copy_from_cache_with_retry = copy_attempts max_retries 1

  unfoldable pub activate_configuration : String → String → W → W × Result (Unit {0})
  activate_configuration store_path unit_name w =
      let switch_script = str_append store_path "/bin/switch-to-configuration" in
      if not (host.path_exists switch_script w)
      then (w, err (message "switch-to-configuration script not found"))
      else host.systemd_run
          ("--unit" ∷ unit_name ∷ "--no-block" ∷ "--same-dir" ∷ "--collect" ∷ "--" ∷ switch_script
            ∷ "switch" ∷ [])
          w

  unfoldable pub deploy_store_path_from_cache : String → String → W → W × Result DeploymentResult
  unfolding copy_from_cache_with_retry activate_configuration
  deploy_store_path_from_cache store_path cache_url w =
      let unit_name = str_append "crystal-forge-deploy-" (host.to_text (host.seconds w)) in
      then_do (copy_from_cache_with_retry cache_url store_path w) λ _ w1.
        then_do (activate_configuration store_path unit_name w1)
          λ _ w2. (w2, ok (started unit_name))

  -- The lock is free: the agent holds its state while it calls the manager.
  unfoldable pub execute_deployment : String → W → W × Result DeploymentResult
  unfolding deploy_store_path_from_cache
  execute_deployment target w =
      if starts_with target "/nix/store/"
      then elim config.cache_url [
        | none ↦ (w, err (message "Cannot deploy store path without cache configured"))
        | some url ↦ deploy_store_path_from_cache target url w
      ]
      else (w, err (message "This is not a store path we don't know how to handle it"))

module _ {W : Type 0} (host : Host W) where
  unfoldable pub get_current_system : W → Result String
  get_current_system w = host.readlink_path "/run/current-system" w

  abbrev pub after_deployment :
      AgentDeploymentManager
      → String
      → W × Result DeploymentResult
      → (W × AgentDeploymentManager) × Result DeploymentResult
  after_deployment m target (w, ok result) =
      ((w, record m { current_target = some target }), ok result)
  after_deployment m target (w, err e) = ((w, m), ok (failed e target))

  -- `desired_target` is that of the server's response.
  unfoldable pub process_heartbeat_response :
      Option String
      → W
      → AgentDeploymentManager
      → (W × AgentDeploymentManager) × Result DeploymentResult
  unfolding get_current_system execute_deployment
  process_heartbeat_response none w m = ((w, m), ok no_deployment_needed)
  process_heartbeat_response (some target) w m = elim (get_current_system w) [
    | err e ↦ ((w, m), err e)
    | ok actual ↦
        if str_eq actual target
        then ((w, record m { current_target = some target }), ok already_on_target)
        else after_deployment m target (execute_deployment host m.config target w)
  ]

unfoldable pub update_current_target :
    Option String → AgentDeploymentManager → AgentDeploymentManager
update_current_target target m = record m { current_target = target }
