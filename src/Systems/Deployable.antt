-- ===== src/Systems/Deployable.antt =====
-- packages/default/src/queries/derivations.rs and deployment/mod.rs: the newest deployable build of
-- each host, and a pass of the policy manager over all flakes. `repo_url_of` reads the table flakes.
pub mod Newest
pub mod Origin
pub mod Pushed
use crystal_forge.Prelude.{
  ℕ, ◌+◌, String, Bool, true, false, ◌&&◌, not, Option, none, some, List, [], ◌∷◌, map, is_some,
  str_eq, ltb, ◌==◌, if◌then◌else◌,
}
use crystal_forge.Table.{select_where, find, contains, exists}
use crystal_forge.Derivation.{Derivation, nixos_type, type_eq}
use crystal_forge.CachePush.{CachePushJob, JobStatus, completed}
use crystal_forge.Commits.{Commit}
use crystal_forge.Evaluation.Flake.{build_agent_target}
use crystal_forge.Systems.{
  System, get_systems_with_auto_latest_policy, update_flake_systems_to_latest,
}

module _ {ℓ} {A : Type ℓ} (before : A → A → Bool) where
  -- ORDER BY ... LIMIT 1: of rows that no order tells apart, the first.
  unfoldable pub first_by : List A → Option A
  first_by [] = none
  first_by (x ∷ xs) = elim (first_by xs) [
    | none ↦ some x
    | some y ↦ if before y x then some y else some x
  ]

-- `x DESC NULLS LAST, ...`: the last argument decides between equal values.
abbrev pub desc_nulls_last : Option ℕ → Option ℕ → Bool → Bool
desc_nulls_last none none rest = rest
desc_nulls_last none (some b) rest = false
desc_nulls_last (some a) none rest = true
desc_nulls_last (some a) (some b) rest = if a == b then rest else ltb b a

unfoldable pub latest_commit : ℕ → List Commit → Option Commit
unfolding first_by
latest_commit flake_id commits =
    first_by (λ c d. ltb d.commit_timestamp c.commit_timestamp)
      (select_where (λ c. c.flake_id == flake_id) commits)

abbrev pub is_completed : JobStatus → Bool
is_completed completed = true
is_completed _ = false

abbrev pub completed_for : Derivation → CachePushJob → Bool
completed_for d j = j.derivation_id == d.id && is_completed j.status

abbrev max_option : Option ℕ → Option ℕ → Option ℕ
max_option none b = b
max_option (some a) none = some a
max_option (some a) (some b) = some (if ltb a b then b else a)

-- MAX(completed_at) over the jobs given; NULLs do not count.
unfoldable pub last_completed_at : List CachePushJob → Option ℕ
last_completed_at [] = none
last_completed_at (j ∷ js) = max_option j.completed_at (last_completed_at js)

-- The rows of `per_host` for one host.
abbrev pub is_deployable_for : List CachePushJob → Commit → String → Derivation → Bool
is_deployable_for jobs c hostname d =
    elim d.commit_id [ none ↦ false | some i ↦ i == c.id ]
    && exists (completed_for d) jobs
    && type_eq d.derivation_type nixos_type
    && is_some d.derivation_target
    && str_eq d.derivation_name hostname

unfoldable pub ranks_before : List CachePushJob → Derivation → Derivation → Bool
unfolding last_completed_at
ranks_before jobs d e =
    desc_nulls_last (last_completed_at (select_where (completed_for d) jobs))
      (last_completed_at (select_where (completed_for e) jobs))
      (desc_nulls_last d.completed_at e.completed_at (ltb e.id d.id))

pub record HostLatestTarget : Type 0 where
  pub hostname : String
  pub derivation_id : ℕ
  pub derivation_target : Option String
  pub store_path : Option String
  pub last_cache_completed_at : Option ℕ

module _ (repo_url_of : ℕ → String) (jobs : List CachePushJob) where
  unfoldable pub host_target : Commit → String → Derivation → HostLatestTarget
  host_target c hostname d = record {
    hostname = hostname;
    derivation_id = d.id;
    derivation_target =
        some (build_agent_target (repo_url_of c.flake_id) c.git_commit_hash hostname);
    store_path = d.store_path;
    last_cache_completed_at = last_completed_at (select_where (completed_for d) jobs);
  }

  -- The rows with rn = 1, in the order of the names given.
  unfoldable pub targets_of : Commit → List Derivation → List String → List HostLatestTarget
  unfolding first_by ranks_before host_target
  targets_of c ds [] = []
  targets_of c ds (h ∷ hs) =
      let rest = targets_of c ds hs in
      elim (first_by (ranks_before jobs) (select_where (is_deployable_for jobs c h) ds)) [
        | none ↦ rest
        | some d ↦ host_target c h d ∷ rest
      ]

  unfoldable pub get_latest_deployable_targets_for_flake_hosts :
      List Commit → List Derivation → ℕ → List String → List HostLatestTarget
  unfolding latest_commit targets_of
  get_latest_deployable_targets_for_flake_hosts commits ds flake_id hostnames =
      elim (latest_commit flake_id commits) [ none ↦ [] | some c ↦ targets_of c ds hostnames ]

-- `latest_by_host`: the store paths of the rows that have one. A name has one row.
unfoldable pub latest_by_host : List HostLatestTarget → String → Option String
latest_by_host [] hostname = none
latest_by_host (t ∷ ts) hostname =
    if str_eq t.hostname hostname && is_some t.store_path
    then t.store_path
    else latest_by_host ts hostname

abbrev pub of_flake : ℕ → System → Bool
of_flake flake_id s = elim s.flake_id [ none ↦ false | some i ↦ i == flake_id ]

-- The keys of `systems_by_flake`, each once. The map gives them in any order; here it is the one of
-- the last system of each flake.
unfoldable pub flakes_of : List System → List ℕ
flakes_of [] = []
flakes_of (s ∷ ss) =
    let rest = flakes_of ss in
    elim s.flake_id [ none ↦ rest | some i ↦ if contains rest i then rest else i ∷ rest ]

module _ (repo_url_of : ℕ → String) (jobs : List CachePushJob) (commits : List Commit)
    (ds : List Derivation) (now : ℕ) where
  -- One flake: `update_flake_systems_to_latest` with its query.
  unfoldable pub update_flake : ℕ → List System → List System × ℕ → List System × ℕ
  unfolding get_latest_deployable_targets_for_flake_hosts latest_by_host
      update_flake_systems_to_latest
  update_flake flake_id systems done =
      update_flake_systems_to_latest
        (latest_by_host (
          get_latest_deployable_targets_for_flake_hosts repo_url_of jobs commits ds flake_id
            (map (λ s. s.hostname) systems)))
        now systems done

  unfoldable pub update_flakes : List ℕ → List System → List System × ℕ → List System × ℕ
  unfolding update_flake
  update_flakes [] systems done = done
  update_flakes (f ∷ fs) systems done =
      update_flakes fs systems (update_flake f (select_where (of_flake f) systems) done)

  -- The table afterwards and the number of systems updated; the number checked is only logged.
  unfoldable pub update_auto_latest_policies : List System → List System × ℕ
  unfolding get_systems_with_auto_latest_policy flakes_of update_flakes
  update_auto_latest_policies table =
      let systems = get_systems_with_auto_latest_policy table in
      update_flakes (flakes_of systems) systems (table, 0)
