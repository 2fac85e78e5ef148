-- ===== src/Systems/Deployable/Pushed.antt =====
-- Where the targets that a pass sets come from.
use mathlib.Core.Path.{subst}
use crystal_forge.Prelude.{
  ℕ, ◌≡◌, refl, sym, ap, ◌∙◌, String, true, ◌&&◌, Bool-cases, ◌⊎◌, inl, inr, some, List, [], ◌∷◌,
  false, ltb, ◌==◌,
}
use crystal_forge.Table.{find, exists, select_where}
use crystal_forge.Systems.Deployable.Newest.{latest_commit_newest}
use crystal_forge.Table.Selected.{exists-weaker}
use crystal_forge.Derivation.{Derivation}
use crystal_forge.CachePush.{CachePushJob}
use crystal_forge.Commits.{Commit}
use crystal_forge.Systems.{System, has_hostname, point_at, get_systems_with_auto_latest_policy}
use crystal_forge.Systems.Latest.{is_behind, update_flake_systems_to_latest_lem}
use crystal_forge.Systems.Deployable.{
  latest_commit, of_flake, flakes_of, update_flake, update_flakes, update_auto_latest_policies,
}
use crystal_forge.Systems.Deployable.Origin.{
  is_pushed, latest_of, is_pushed-latest_of, is_pushed_build, is_system_of, is_managed,
  is_pushed_build_lem, is_system_of_lem, exists-known, exists-managed,
}

module _ (repo_url_of : ℕ → String) (jobs : List CachePushJob) (commits : List Commit)
    (ds : List Derivation) (now : ℕ) (before : List System) (h : String) where
  -- The row is kept, or pointed at what the newest commit of a flake has in the cache for its host,
  -- the flake being that of a system of the host with the policy.
  Moved : System → System → Type 0
  Moved row row' =
      (row' ≡ row)
      ⊎ ((f : ℕ) × (c : Commit) × (t : String) × (row' ≡ point_at (some t) now row)
          × (latest_commit f commits ≡ some c)
          × (is_pushed jobs ds c h t ≡ true)
          × (exists (λ s. is_managed s && (of_flake f s && has_hostname h s)) before ≡ true))

  Moved-Moved : (a b c : System) → Moved a b → Moved b c → Moved a c
  unfolding Moved point_at
  Moved-Moved a b c first (inl same) = subst (λ x. Moved a x) (sym same) first
  Moved-Moved a b c (inl same) second = subst (λ x. Moved x c) same second
  Moved-Moved a b c (inr (_, _, _, e, _, _, _)) (inr (f, k, t, e', newest, pushed, managed)) =
      inr (f, k, t, e' ∙ ap (point_at (some t) now) e, newest, pushed, managed)

  update_flake-Moved :
      (f : ℕ) (done : List System × ℕ) (row : System)
      → find (has_hostname h) done.0 ≡ some row
      → (row' : System) × (find
            (has_hostname h)
            (update_flake repo_url_of jobs commits ds now f
              (select_where (of_flake f) (get_systems_with_auto_latest_policy before))
              done).0
          ≡ some row')
        × Moved row row'
  unfolding update_flake Moved
  update_flake-Moved f (table, n) row found =
      let systems = select_where (of_flake f) (get_systems_with_auto_latest_policy before) in
      let latest = latest_of repo_url_of jobs commits ds f systems in
      let there = (update_flake_systems_to_latest_lem latest now h systems table n row found).0 in
      elim (Bool-cases (exists (λ s. has_hostname h s && is_behind latest s) systems)) [
        | inr current ↦ (row, rw current at there, inl refl)
        | inl behind ↦
            let (t, known) = exists-known latest h systems behind in
            let (c, newest, pushed) =
              is_pushed-latest_of repo_url_of jobs commits ds f systems h t known in
            (
              point_at (some t) now row,
              rw known at rw behind at there,
              inr (f, c, t, refl, newest, pushed, exists-managed latest h f before behind),
            )
      ]

  update_flakes-Moved :
      (fs : List ℕ) (done : List System × ℕ) (row : System)
      → find (has_hostname h) done.0 ≡ some row
      → (row' : System) × (find
            (has_hostname h)
            (update_flakes repo_url_of jobs commits ds now fs
              (get_systems_with_auto_latest_policy before)
              done).0
          ≡ some row')
        × Moved row row'
  unfolding update_flakes Moved
  update_flakes-Moved [] done row found = (row, found, inl refl)
  update_flakes-Moved (f ∷ fs) done row found =
      let (row1, there, first) = update_flake-Moved f done row found in
      let (row2, finally, second) = update_flakes-Moved fs _ row1 there in
      (row2, finally, Moved-Moved row row1 row2 first second)

  -- After a pass over all flakes the row found for a host is the old one, or it is the old one
  -- pointed at the store path of a NixOS derivation of a commit that has the name of the host, a
  -- target, and a completed push job; the commit is one of a flake, and no commit of that flake is
  -- newer; and an active system of the host with the policy auto_latest has that flake.
  pub update_auto_latest_policies_lem :
      (row : System)
      → find (has_hostname h) before ≡ some row
      → let table = (update_auto_latest_policies repo_url_of jobs commits ds now before).0 in
        (row' : System) × (find (has_hostname h) table ≡ some row')
        × ((row' ≡ row)
            ⊎ ((f : ℕ) × (c : Commit) × (t : String) × (row' ≡ point_at (some t) now row)
                × ((c.flake_id == f) ≡ true)
                × (exists
                      (λ e. e.flake_id == f && ltb c.commit_timestamp e.commit_timestamp)
                      commits
                    ≡ false)
                × (exists (is_pushed_build c.id h t jobs) ds ≡ true)
                × (exists (is_system_of f h) before ≡ true)))
  unfolding update_auto_latest_policies Moved
  update_auto_latest_policies_lem row found =
      let (row', there, moved) =
        update_flakes-Moved (flakes_of (get_systems_with_auto_latest_policy before)) (before, 0) row
          found in
      (
        row',
        there,
        elim moved [
          | inl same ↦ inl same
          | inr (f, c, t, e, newest, pushed, managed) ↦
              let (of, last) = latest_commit_newest f commits c newest in
              inr (
                f,
                c,
                t,
                e,
                of,
                last,
                exists-weaker _ _ ds (λ d m. is_pushed_build_lem jobs c h t d m) pushed,
                exists-weaker _ _ before (λ s m. is_system_of_lem f h s m) managed,
              )
        ],
      )
