-- ===== src/Systems.antt =====
-- packages/default/src/models/systems.rs, queries/deployment.rs and deployment/mod.rs: the policy of
-- a system, and the updater that points systems with the policy auto_latest at the newest build.
pub mod Latest
pub mod Deployable
use crystal_forge.Prelude.{
  ℕ, ◌+◌, String, Bool, true, false, Option, none, some, List, [], ◌∷◌, ◌&&◌, not, Result, ok, err,
  message, str_eq, if◌then◌else◌, is_some,
}
use Prim.Native.String.{◌++◌}
use crystal_forge.Table.{update_where, select_where}

pub data DeploymentPolicy : Type 0 where
  manual auto_latest pinned : DeploymentPolicy

unfoldable pub to_string : DeploymentPolicy → String
to_string manual = "manual"
to_string auto_latest = "auto_latest"
to_string pinned = "pinned"

unfoldable pub from_str : String → Result DeploymentPolicy
from_str s =
    if str_eq s "manual"
    then ok manual
    else if str_eq s "auto_latest"
    then ok auto_latest
    else if str_eq s "pinned"
    then ok pinned
    else err (message ("Invalid deployment policy: " ++ s))

pub record System : Type 0 where
  pub id : ℕ
  pub hostname : String
  pub environment_id : Option ℕ
  pub is_active : Bool
  pub public_key : String
  pub flake_id : Option ℕ
  pub derivation : String
  pub created_at : ℕ
  pub updated_at : ℕ
  pub desired_target : Option String
  pub deployment_policy : String

unfoldable pub get_deployment_policy : System → Result DeploymentPolicy
unfolding from_str
get_deployment_policy s = from_str s.deployment_policy

unfoldable pub set_deployment_policy : DeploymentPolicy → System → System
unfolding to_string
set_deployment_policy policy s = record s { deployment_policy = to_string policy }

unfoldable pub has_pending_deployment : System → Bool
has_pending_deployment s = is_some s.desired_target

abbrev pub is_auto_latest : Result DeploymentPolicy → Bool
is_auto_latest (ok auto_latest) = true
is_auto_latest _ = false

unfoldable pub is_auto_deployment_enabled : System → Bool
unfolding get_deployment_policy
is_auto_deployment_enabled s = is_auto_latest (get_deployment_policy s)

abbrev pub has_hostname : String → System → Bool
has_hostname h s = str_eq s.hostname h

-- The rows in the order of the table; ORDER BY hostname is left out.
unfoldable pub get_systems_with_auto_latest_policy : List System → List System
get_systems_with_auto_latest_policy =
    select_where (λ s. str_eq s.deployment_policy "auto_latest" && s.is_active)

unfoldable pub point_at : Option String → ℕ → System → System
point_at target now s = record s { desired_target = target; updated_at = now }

unfoldable pub update_desired_target : String → Option String → ℕ → List System → List System
unfolding point_at
update_desired_target hostname target now =
    update_where (has_hostname hostname) (point_at target now)

unfoldable pub update_deployment_policy : String → String → ℕ → List System → List System
update_deployment_policy hostname policy now =
    update_where (has_hostname hostname)
      (λ s. record s { deployment_policy = policy; updated_at = now })

abbrev pub target_is : Option String → String → Bool
target_is none t = false
target_is (some s) t = str_eq s t

-- What the loop does with a system: nothing without the policy, without a target for its host, or
-- at that target already.
unfoldable pub new_target : (String → Option String) → System → Option String
unfolding is_auto_deployment_enabled
new_target latest_by_host s = elim (latest_by_host s.hostname) [
  | none ↦ none
  | some t ↦
      if is_auto_deployment_enabled s && not (target_is s.desired_target t) then some t else none
]

abbrev pub retarget : String → Option String → ℕ → List System × ℕ → List System × ℕ
retarget hostname none now done = done
retarget hostname (some t) now (table, updated) =
    (update_desired_target hostname (some t) now table, updated + 1)

-- The loop over `systems`, rows read before; `latest_by_host` is the map made of the query's rows.
-- No UPDATE is assumed to fail.
unfoldable pub update_flake_systems_to_latest :
    (String → Option String) → ℕ → List System → List System × ℕ → List System × ℕ
unfolding new_target update_desired_target
update_flake_systems_to_latest latest_by_host now [] done = done
update_flake_systems_to_latest latest_by_host now (s ∷ systems) done =
    update_flake_systems_to_latest latest_by_host now systems
      (retarget s.hostname (new_target latest_by_host s) now done)
