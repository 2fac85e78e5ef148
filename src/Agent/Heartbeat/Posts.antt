-- ===== src/Agent/Heartbeat/Posts.antt =====
-- The endpoint for state changes is never called by the loops of the agent.
use crystal_forge.Prelude.{
  ℕ, zero, suc, ◌≡◌, refl, sym, ◌∙◌, String, true, Bool-cases, inl, inr, Option, List, [], ◌∷◌,
  Result, ok, err, Result-cases, str_eq,
}
use crystal_forge.Agent.Deploy.{
  DeploymentResult, no_deployment_needed, already_on_target, success_local_build,
  success_from_cache, started, failed, AgentDeploymentManager, Host, process_heartbeat_response,
}
use crystal_forge.Agent.Deploy.Outcomes.{is_given, process_heartbeat_response_lem}
use crystal_forge.Agent.Heartbeat.{
  Server, report_result, after_processing, after_post, post_system_heartbeat_with_deployment,
  report_current_system_derivation_async, run_periodic_heartbeat_loop_with_deployment, watch_events,
  watch_for_system_changes, next_event, url_of,
}

module _ {W : Type 0} (host : Host W) (server : Server W) where
  report_given :
      (current : String) (res : DeploymentResult) (s : W × AgentDeploymentManager)
      → is_given res ≡ true
      → report_result host server current res s ≡ (s, ok tt)
  unfolding report_result
  report_given current no_deployment_needed (w, m) h = refl
  report_given current already_on_target (w, m) h = refl
  report_given current success_local_build (w, m) h = cc
  report_given current (success_from_cache url) (w, m) h = cc
  report_given current (started unit_name) (w, m) h = refl
  report_given current (failed e target) (w, m) h = refl

  -- What is left of a heartbeat where the result is not reported.
  abbrev silent :
      (W × AgentDeploymentManager) × Result DeploymentResult
      → (W × AgentDeploymentManager) × Result (Unit {0})
  silent (s, ok result) = (s, ok tt)
  silent (s, err e) = (s, err e)

  processing_silent :
      (current : String) (target : Option String) (w : W) (m : AgentDeploymentManager)
      → after_processing host server current (process_heartbeat_response host target w m)
        ≡ silent (process_heartbeat_response host target w m)
  processing_silent current target w m =
      elim (Result-cases (process_heartbeat_response host target w m).1) [
        | inr (e, broken) ↦ rw broken refl
        | inl (res, given) ↦ rw given (
            report_given current res (process_heartbeat_response host target w m).0
              (process_heartbeat_response_lem host target w m res given).0)
      ]

module _ {W : Type 0} (host : Host W) (server : Server W)
    (other : String → String → String → W → W × Result (Unit {0})) where
  -- The same server with another endpoint for state changes.
  abbrev pub with_other : Server W
  with_other = record server { post_state = other }

  after_post_same :
      (current : String) (m : AgentDeploymentManager) (x : W × Result (Option String))
      → after_post host server current m x ≡ after_post host with_other current m x
  after_post_same current m (w, ok target) =
      processing_silent host server current target w m
      ∙ sym (processing_silent host with_other current target w m)
  after_post_same current m (w, err e) = refl

  heartbeat_same :
      (current context : String) (s : W × AgentDeploymentManager)
      → post_system_heartbeat_with_deployment host server current context s
        ≡ post_system_heartbeat_with_deployment host with_other current context s
  unfolding post_system_heartbeat_with_deployment
  heartbeat_same current context (w, m) =
      after_post_same current m
        (server.post_heartbeat (url_of host server "/agent/heartbeat") context current w)

  report_same :
      (name context : String) (s : W × AgentDeploymentManager)
      → report_current_system_derivation_async host server name context s
        ≡ report_current_system_derivation_async host with_other name context s
  unfolding report_current_system_derivation_async
  report_same name context (w, m) = elim (Bool-cases (str_eq name "current-system")) [
    | inr ignored ↦ rw ignored refl
    | inl here ↦ elim (Result-cases (host.readlink_path "/run/current-system" w)) [
      | inr (e, broken) ↦ rw broken refl
      | inl (current, read) ↦ rw here rw read (heartbeat_same current context (w, m))
    ]
  ]

  next_event_same :
      (x y : (W × AgentDeploymentManager) × Result (Unit {0}))
      (f g : W × AgentDeploymentManager → (W × AgentDeploymentManager) × Result (Unit {0}))
      → x ≡ y
      → ((s : W × AgentDeploymentManager) → f s ≡ g s)
      → next_event host server x f ≡ next_event host with_other y g
  next_event_same (s, ok _) y f g e same = rw (sym e) (same s)
  next_event_same (s, err x) y f g e same = rw (sym e) refl

  watch_same :
      (names : List String) (s : W × AgentDeploymentManager)
      → watch_events host server names s ≡ watch_events host with_other names s
  unfolding watch_events
  watch_same [] s = refl
  watch_same (name ∷ names) s =
      next_event_same _ _ _ _ (report_same name "config_change" s) (watch_same names)

  periodic_same :
      (rounds : ℕ) (s : W × AgentDeploymentManager)
      → run_periodic_heartbeat_loop_with_deployment host server rounds s
        ≡ run_periodic_heartbeat_loop_with_deployment host with_other rounds s
  unfolding run_periodic_heartbeat_loop_with_deployment
  periodic_same zero s = refl
  periodic_same (suc n) (w, m) =
      rw (report_same "current-system" "heartbeat" (host.sleep 600 w, m)) (periodic_same n _)

  -- Whatever the system and the server answer, both loops do the same with any other endpoint for
  -- state changes: its answer is never asked for.
  pub loops_never_post :
      (names : List String) (rounds : ℕ) (s : W × AgentDeploymentManager)
      → (watch_for_system_changes host server names s
          ≡ watch_for_system_changes host with_other names s)
        × (run_periodic_heartbeat_loop_with_deployment host server rounds s
            ≡ run_periodic_heartbeat_loop_with_deployment host with_other rounds s)
  unfolding watch_for_system_changes
  loops_never_post names rounds s = (
    next_event_same _ _ _ _ (report_same "current-system" "startup" s) (watch_same names),
    periodic_same rounds s,
  )
