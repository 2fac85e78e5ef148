-- ===== src/Agent/Heartbeat.antt =====
-- bin/agent.rs: the heartbeats of the agent and its two loops, the one that watches /run and the one
-- that sends a heartbeat every ten minutes. The server is a pair of calls on the same state as the
-- host; making, signing and sending a request is theirs.
pub mod Posts
use Prim.Native.String.{◌++◌ as str_append}
use crystal_forge.Prelude.{
  ℕ, zero, suc, String, Bool, true, false, Option, none, some, List, [], ◌∷◌, ◌==◌, Result, ok, err,
  Error, message, if◌then◌else◌, str_eq, concat,
}
use crystal_forge.Agent.Deploy.{
  DeploymentResult, no_deployment_needed, already_on_target, success_local_build,
  success_from_cache, started, failed, AgentDeploymentManager, Host, process_heartbeat_response,
  then_do,
}

-- The scheme and the port of the URL, by the port.
unfoldable pub scheme_and_port : (ℕ → String) → ℕ → String × String
scheme_and_port to_text port =
    if port == 443
    then ("https", "")
    else if port == 80
    then ("http", "")
    else ("http", str_append ":" (to_text port))

unfoldable pub server_url : (ℕ → String) → String → ℕ → String → String
unfolding scheme_and_port
server_url to_text server_host server_port endpoint = concat (
    (scheme_and_port to_text server_port).0
    ∷ "://"
    ∷ server_host
    ∷ (scheme_and_port to_text server_port).1
    ∷ endpoint
    ∷ [])

-- A call is given the URL, the context and the path of the running system. The answer to a heartbeat
-- is the desired target; an answer that is not a success, or not the JSON expected, is an error.
pub record Server (W : Type 0) : Type 0 where
  pub post_heartbeat : String → String → String → W → W × Result (Option String)
  pub post_state : String → String → String → W → W × Result (Unit {0})
  pub server_host : String
  pub server_port : ℕ

module _ {W : Type 0} (host : Host W) (server : Server W) where
  abbrev pub url_of : String → String
  url_of endpoint = server_url host.to_text server.server_host server.server_port endpoint

  unfoldable pub post_system_state_change : String → String → W → W × Result (Unit {0})
  unfolding server_url
  post_system_state_change current_system context w =
      server.post_state (url_of "/agent/state") context current_system w

  -- The match on the result of the deployment.
  unfoldable pub report_result :
      String
      → DeploymentResult
      → W × AgentDeploymentManager
      → (W × AgentDeploymentManager) × Result (Unit {0})
  unfolding post_system_state_change
  report_result current_system (success_from_cache url) (w, m) =
      let (w', posted) = post_system_state_change current_system "cf_deployment" w in
      ((w', m), posted)
  report_result current_system success_local_build (w, m) =
      let (w', posted) = post_system_state_change current_system "cf_deployment" w in
      ((w', m), posted)
  report_result current_system _ (w, m) = ((w, m), ok tt)

  abbrev pub after_processing :
      String
      → (W × AgentDeploymentManager) × Result DeploymentResult
      → (W × AgentDeploymentManager) × Result (Unit {0})
  after_processing current_system (s, ok result) = report_result current_system result s
  after_processing current_system (s, err e) = (s, err e)

  abbrev pub after_post :
      String
      → AgentDeploymentManager
      → W × Result (Option String)
      → (W × AgentDeploymentManager) × Result (Unit {0})
  after_post current_system m (w, ok desired_target) =
      after_processing current_system (process_heartbeat_response host desired_target w m)
  after_post current_system m (w, err e) = ((w, m), err e)

  unfoldable pub post_system_heartbeat_with_deployment :
      String
      → String
      → W × AgentDeploymentManager
      → (W × AgentDeploymentManager) × Result (Unit {0})
  unfolding server_url report_result
  post_system_heartbeat_with_deployment current_system context (w, m) =
      after_post current_system m
        (server.post_heartbeat (url_of "/agent/heartbeat") context current_system w)

  unfoldable pub report_current_system_derivation_async :
      String
      → String
      → W × AgentDeploymentManager
      → (W × AgentDeploymentManager) × Result (Unit {0})
  unfolding post_system_heartbeat_with_deployment
  report_current_system_derivation_async name context (w, m) =
      if str_eq name "current-system"
      then elim (host.readlink_path "/run/current-system" w) [
        | err e ↦ ((w, m), err e)
        | ok current_system ↦ post_system_heartbeat_with_deployment current_system context (w, m)
      ]
      else ((w, m), ok tt)

  -- So many rounds of the loop of ten minutes; a failed heartbeat is logged.
  unfoldable pub run_periodic_heartbeat_loop_with_deployment :
      ℕ → W × AgentDeploymentManager → W × AgentDeploymentManager
  unfolding report_current_system_derivation_async
  run_periodic_heartbeat_loop_with_deployment zero s = s
  run_periodic_heartbeat_loop_with_deployment (suc n) (w, m) =
      let round =
        report_current_system_derivation_async "current-system" "heartbeat" (host.sleep 600 w, m) in
      run_periodic_heartbeat_loop_with_deployment n round.0

  abbrev pub next_event :
      (W × AgentDeploymentManager) × Result (Unit {0})
      → (W × AgentDeploymentManager → (W × AgentDeploymentManager) × Result (Unit {0}))
      → (W × AgentDeploymentManager) × Result (Unit {0})
  next_event (s, ok _) rest = rest s
  next_event (s, err e) rest = (s, err e)

  -- The events with a name, in order; the first failure ends the loop, and the agent with it.
  unfoldable pub watch_events :
      List String → W × AgentDeploymentManager → (W × AgentDeploymentManager) × Result (Unit {0})
  unfolding report_current_system_derivation_async
  watch_events [] s = (s, ok tt)
  watch_events (name ∷ names) s =
      next_event (report_current_system_derivation_async name "config_change" s)
        (λ s'. watch_events names s')

  unfoldable pub watch_for_system_changes :
      List String → W × AgentDeploymentManager → (W × AgentDeploymentManager) × Result (Unit {0})
  unfolding report_current_system_derivation_async watch_events
  watch_for_system_changes names s =
      next_event (report_current_system_derivation_async "current-system" "startup" s)
        (λ s'. watch_events names s')
