-- ===== src/Examples/Fleet.antt =====
-- A pass of the policy manager over a fleet whose newest commit is in the cache.
use crystal_forge.Prelude.{
  ℕ, ◌≡◌, refl, ◌⊎◌, String, true, false, some, List, [], ◌∷◌, ◌&&◌, ◌==◌, ltb,
}
use crystal_forge.Table.{find, exists, select_where, contains, update_where}
use crystal_forge.Derivation.{Derivation}
use crystal_forge.CachePush.{CachePushJob, completed}
use crystal_forge.Commits.{Commit, complete}
use crystal_forge.Systems.{System, has_hostname, point_at}
use crystal_forge.Systems.Deployable.{update_auto_latest_policies}
use crystal_forge.Systems.Deployable.Origin.{is_pushed_build, is_system_of}
use crystal_forge.Systems.Deployable.Pushed.{update_auto_latest_policies_lem}
use crystal_forge.Examples.Rows.{system_row, job_row}
use crystal_forge.Examples.Evaluations.{commit}
use crystal_forge.Examples.Targets.{fleet, system}

abbrev repo_url_of : ℕ → String
repo_url_of i = "https://git.example/fleet"

abbrev jobs : List CachePushJob
jobs = job_row 1 4 completed 1 ∷ []

abbrev commits : List Commit
commits = commit 7 complete 1 ∷ commit 6 complete 1 ∷ []

abbrev builds : List Derivation
builds =
    record (system_row 4 10 1) {
      derivation_target = some "fleet#gray";
      store_path = some "/nix/store/new";
    }
    ∷ []

fleet_example :
    let table = (update_auto_latest_policies repo_url_of jobs commits builds 9 fleet).0 in
    (row' : System) × (find (has_hostname "gray") table ≡ some row')
    × ((row' ≡ system 1 "gray" "auto_latest")
        ⊎ ((f : ℕ) × (c : Commit) × (t : String) × (row'
              ≡ point_at (some t) 9 (system 1 "gray" "auto_latest"))
            × ((c.flake_id == f) ≡ true)
            × (exists (λ e. e.flake_id == f && ltb c.commit_timestamp e.commit_timestamp) commits
                ≡ false)
            × (exists (is_pushed_build c.id "gray" t jobs) builds ≡ true)
            × (exists (is_system_of f "gray") fleet ≡ true)))
unfolding find
fleet_example =
    update_auto_latest_policies_lem repo_url_of jobs commits builds 9 fleet "gray"
      (system 1 "gray" "auto_latest") refl

-- The system that is behind moves to the build.
gray_moves :
    find
      (has_hostname "gray")
      (update_auto_latest_policies repo_url_of jobs commits builds 9 fleet).0
    ≡ some (point_at (some "/nix/store/new") 9 (system 1 "gray" "auto_latest"))
unfolding find update_auto_latest_policies select_where contains exists update_where point_at
gray_moves = refl
