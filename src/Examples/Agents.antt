-- ===== src/Examples/Agents.antt =====
-- An agent that is told to deploy, on a host that records what it does.
use crystal_forge.Prelude.{
  ℕ, ◌≡◌, refl, String, Bool, true, false, none, some, [], ◌∷◌, Result, ◌||◌, ok, coalesce,
  if◌then◌else◌, ltb,
}
use crystal_forge.Agent.Deploy.{
  DeploymentConfig, nix, started, is_success, AgentDeploymentManager, copy_args,
  copy_from_cache_with_retry, process_heartbeat_response,
}
use crystal_forge.Agent.Deploy.Outcomes.{is_given, process_heartbeat_response_lem}
use crystal_forge.Agent.Deploy.Retry.{
  Recording, nothing_yet, recording_host, is_ok, copy_from_cache_with_retry_lem,
}
use crystal_forge.Agent.Heartbeat.{
  Server, watch_for_system_changes, run_periodic_heartbeat_loop_with_deployment,
}
use crystal_forge.Agent.Heartbeat.Posts.{with_other, loops_never_post}

abbrev config : DeploymentConfig
config = record {
  max_deployment_age_minutes = 30;
  dry_run_first = true;
  fallback_to_local_build = false;
  deployment_timeout_minutes = 60;
  cache_url = some "https://cache.example";
  cache_public_key = none;
  deployment_poll_interval = 60;
  policies = [];
  require_sigs = true;
  cache_type = nix;
  attic_cache_name = none;
}

-- The first copy fails.
abbrev answers : ℕ → Bool
answers n = ltb 0 n

abbrev manager : AgentDeploymentManager
manager = record { config = config; current_target = some "/nix/store/old" }

abbrev target : String
target = "/nix/store/new"

started_unit :
    (process_heartbeat_response (recording_host answers) (some target) nothing_yet manager).1
    ≡ ok (started "crystal-forge-deploy-")
unfolding process_heartbeat_response
started_unit = refl

response_example :
    let end =
      process_heartbeat_response (recording_host answers) (some target) nothing_yet manager in
    (is_given (started "crystal-forge-deploy-") ≡ true)
    × (end.0.1 ≡ record manager {
      current_target =
          if is_success (started "crystal-forge-deploy-")
          then coalesce (some target) manager.current_target
          else manager.current_target;
    })
response_example =
    process_heartbeat_response_lem (recording_host answers) (some target) nothing_yet manager
      (started "crystal-forge-deploy-") started_unit

copy_example :
    let end =
      copy_from_cache_with_retry
        (recording_host answers)
        config
        "https://cache.example"
        target
        nothing_yet in
    let plain = copy_args nix "https://cache.example" target false in
    (is_ok end.1 ≡ (answers 0 || answers 1 || answers 2))
    × (end.0.runs
        ≡ plain
          ∷ (if answers 0
              then []
              else copy_args nix "https://cache.example" target true
                ∷ (if answers 1 then [] else plain ∷ [])))
    × (end.0.slept ≡ (if answers 0 then 0 else if answers 1 then 5 else 15))
    × (end.0.removed
        ≡ (if answers 0 || answers 1 then [] else "/var/lib/crystal-forge-agent/.cache/nix" ∷ []))
copy_example = copy_from_cache_with_retry_lem answers config "https://cache.example" target

abbrev server : Server Recording
server = record {
  post_heartbeat = λ url context path w. (record w { slept = 7 }, ok (some target));
  post_state = λ url context path w. (w, ok tt);
  server_host = "forge.example";
  server_port = 443;
}

abbrev counted : String → String → String → Recording → Recording × Result (Unit {0})
counted url context path w = (record w { copies = 100 }, ok tt)

posts_example :
    (watch_for_system_changes
        (recording_host answers)
        server
        ("current-system" ∷ [])
        (nothing_yet, manager)
      ≡ watch_for_system_changes
          (recording_host answers)
          (with_other (recording_host answers) server counted)
          ("current-system" ∷ [])
          (nothing_yet, manager))
    × (run_periodic_heartbeat_loop_with_deployment
          (recording_host answers)
          server
          2
          (nothing_yet, manager)
        ≡ run_periodic_heartbeat_loop_with_deployment
            (recording_host answers)
            (with_other (recording_host answers) server counted)
            2
            (nothing_yet, manager))
posts_example =
    loops_never_post (recording_host answers) server counted ("current-system" ∷ []) 2
      (nothing_yet, manager)
