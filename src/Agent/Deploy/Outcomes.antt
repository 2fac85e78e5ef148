-- ===== src/Agent/Deploy/Outcomes.antt =====
-- What the manager answers to a heartbeat's response, and what it then remembers.
use crystal_forge.Prelude.{
  ◌≡◌, refl, sym, String, Bool, true, false, Bool-cases, Option-cases, inl, inr, Option, none, some,
  coalesce, Result, ok, err, if◌then◌else◌, str_eq, Result-cases,
}
use Prim.Native.String.{◌++◌ as str_append}
use text.Mathlib.Text.{starts_with}
use crystal_forge.Agent.Deploy.{
  DeploymentConfig, DeploymentResult, no_deployment_needed, already_on_target, started, failed,
  success_from_cache, success_local_build, is_success, AgentDeploymentManager, Host, then_do,
  deploy_store_path_from_cache, execute_deployment, after_deployment, get_current_system,
  process_heartbeat_response, copy_from_cache_with_retry, activate_configuration,
}

-- The result is one that the manager can give.
abbrev pub is_given : DeploymentResult → Bool
is_given (success_from_cache url) = false
is_given success_local_build = false
is_given _ = true

module _ {W : Type 0} where
  then_do_ok :
      {A B : Type 0} (x : W × Result A) (f : A → W → W × Result B) (b : B)
      → (then_do x f).1 ≡ ok b
      → (a : A) × (w : W) × ((f a w).1 ≡ ok b)
  then_do_ok (w, ok a) f b h = (a, w, h)
  then_do_ok (w, err e) f b h = cc

  module _ (host : Host W) (config : DeploymentConfig) where
    deploy_starts :
        (path url : String) (w : W) (res : DeploymentResult)
        → (deploy_store_path_from_cache host config path url w).1 ≡ ok res
        → (unit_name : String) × (started unit_name ≡ res)
    unfolding deploy_store_path_from_cache
    deploy_starts path url w res h =
        let (_, w1, copied) =
          then_do_ok (copy_from_cache_with_retry host config url path w) _ res h in
        let (_, w2, activated) =
          then_do_ok (activate_configuration host config path _ w1) _ res copied in
        (str_append "crystal-forge-deploy-" (host.to_text (host.seconds w)), cc)

    execute_starts :
        (target : String) (w : W) (res : DeploymentResult)
        → (execute_deployment host config target w).1 ≡ ok res
        → (unit_name : String) × (started unit_name ≡ res)
    unfolding execute_deployment
    execute_starts target w res h = elim (Bool-cases (starts_with target "/nix/store/")) [
      | inl path ↦
          let local = rw path at h in
          elim (Option-cases config.cache_url) [
            | inl missing ↦ (let refused = rw missing at local in cc)
            | inr (url, given) ↦ deploy_starts target url w res (rw given at local)
          ]
      | inr other ↦ (let refused = rw other at h in cc)
    ]

  module _ (host : Host W) where
    -- What the answer says of the manager.
    abbrev Remembers :
        Option String → AgentDeploymentManager → AgentDeploymentManager → DeploymentResult → Type 0
    Remembers target m m' res =
        (is_given res ≡ true)
        × (m' ≡ record m {
          current_target =
              if is_success res then coalesce target m.current_target else m.current_target;
        })

    after_deployment-Remembers :
        (m : AgentDeploymentManager) (target : String) (x : W × Result DeploymentResult)
        (res : DeploymentResult)
        → ((r : DeploymentResult) → x.1 ≡ ok r → (unit_name : String) × (started unit_name ≡ r))
        → (after_deployment host m target x).1 ≡ ok res
        → Remembers (some target) m (after_deployment host m target x).0.1 res
    unfolding is_success
    after_deployment-Remembers m target (w, ok r) res starts h =
        let (unit_name, is) = starts r refl in
        let same : started unit_name ≡ res = cc in rw (sym same) (refl, refl)
    after_deployment-Remembers m target (w, err e) res starts h =
        let same : failed e target ≡ res = cc in rw (sym same) (refl, refl)

    -- Whatever the system does, an answered response is none, one that is already met, a started unit or
    -- a failure, never one of the two results that report a state change; the manager then keeps its
    -- configuration, and its target is the desired one after a success, where there is one, and else
    -- the target that it had.
    pub process_heartbeat_response_lem :
        (target : Option String) (w : W) (m : AgentDeploymentManager) (res : DeploymentResult)
        → let end = process_heartbeat_response host target w m in
          end.1 ≡ ok res
          → (is_given res ≡ true)
            × (end.0.1 ≡ record m {
              current_target =
                  if is_success res then coalesce target m.current_target else m.current_target;
            })
    unfolding process_heartbeat_response is_success
    process_heartbeat_response_lem none w m res h =
        let same : no_deployment_needed ≡ res = cc in rw (sym same) (refl, refl)
    process_heartbeat_response_lem (some target) w m res h =
        elim (Result-cases (get_current_system host w)) [
          | inr (e, broken) ↦ (let refused = rw (broken, process_heartbeat_response) at h in cc)
          | inl (actual, read) ↦
              let answer = rw (read, process_heartbeat_response) at h in
              elim (Bool-cases (str_eq actual target)) [
                | inl there ↦
                    let arrived = rw there at answer in
                    let same : already_on_target ≡ res = cc in
                    rw (read, process_heartbeat_response) rw there rw (sym same) (refl, refl)
                | inr away ↦
                    rw (read, process_heartbeat_response) rw away
                      (after_deployment-Remembers m target
                        (execute_deployment host m.config target w) res
                        (execute_starts host m.config target w) (rw away at answer))
              ]
        ]
