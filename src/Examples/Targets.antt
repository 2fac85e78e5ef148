-- ===== src/Examples/Targets.antt =====
-- A fleet of two systems, one of them behind.
use crystal_forge.Prelude.{
  ℕ, ◌+◌, ◌≡◌, refl, String, true, some, none, Option, List, [], ◌∷◌, ◌&&◌, if◌then◌else◌,
}
use crystal_forge.Table.{find, exists, count_where}
use crystal_forge.Systems.{System, has_hostname, point_at, update_flake_systems_to_latest}
use crystal_forge.Systems.Latest.{is_behind, update_flake_systems_to_latest_lem}

abbrev pub system : ℕ → String → String → System
system id hostname policy = record {
  id = id;
  hostname = hostname;
  environment_id = none;
  is_active = true;
  public_key = "key";
  flake_id = some 1;
  derivation = "d";
  created_at = 1;
  updated_at = 1;
  desired_target = some "/nix/store/old";
  deployment_policy = policy;
}

abbrev pub fleet : List System
fleet = system 1 "gray" "auto_latest" ∷ system 2 "reckless" "manual" ∷ []

abbrev latest : String → Option String
latest h = some "/nix/store/new"

targets_example :
    let (table, n) = update_flake_systems_to_latest latest 9 fleet (fleet, 0) in
    (find (has_hostname "gray") table
      ≡ some (
          if exists (λ s. has_hostname "gray" s && is_behind latest s) fleet
          then point_at (latest "gray") 9 (system 1 "gray" "auto_latest")
          else system 1 "gray" "auto_latest"))
    × (n ≡ 0 + count_where (is_behind latest) fleet)
unfolding find
targets_example =
    update_flake_systems_to_latest_lem latest 9 "gray" fleet fleet 0 (system 1 "gray" "auto_latest")
      refl
