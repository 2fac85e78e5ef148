-- ===== src/Systems/Deployable/Origin.antt =====
-- Where the target of a host comes from: the builds with a completed push job, and the systems that
-- are managed.
use mathlib.Core.Path.{subst}
use text.Mathlib.TextEquality.{eq_iff}
use crystal_forge.Prelude.{
  ℕ, ◌≡◌, refl, ap, String, Bool, true, ◌&&◌, Bool-cases, Option-cases, inl, inr, Option, none,
  some, List, [], ◌∷◌, map, is_some, str_eq, arith, false, ◌==◌,
}
use crystal_forge.Table.{exists, select_where}
use crystal_forge.Table.Selected.{exists-select_where, exists-weaker}
use crystal_forge.Derivation.{Derivation, DerivationType, type_eq, nixos_type, package_type}
use crystal_forge.Derivation.Insert.{opt_eq}
use crystal_forge.CachePush.{
  CachePushJob, JobStatus, pending, in_progress, completed, failed, permanently_failed,
}
use crystal_forge.Commits.{Commit}
use crystal_forge.Systems.{System, has_hostname, target_is, get_systems_with_auto_latest_policy}
use crystal_forge.Systems.Latest.{is_behind}
use crystal_forge.Systems.Deployable.{
  first_by, completed_for, is_completed, latest_commit, is_deployable_for, ranks_before,
  host_target, targets_of, get_latest_deployable_targets_for_flake_hosts, latest_by_host, of_flake,
}

module _ {ℓ} {A : Type ℓ} (p : A → Bool) where
  exists-first_by :
      (before : A → A → Bool) (xs : List A) (x : A)
      → first_by before xs ≡ some x
      → p x ≡ true
      → exists p xs ≡ true
  unfolding first_by exists
  exists-first_by before [] x h hx = ground (arith, h)
  exists-first_by before (y ∷ ys) x h hx = elim (Option-cases (first_by before ys)) [
    | inl last ↦ ground (arith, h, last, hx)
    | inr (z, best) ↦ let rest = exists-first_by before ys x in ground (arith, h, best, hx, rest)
  ]

-- A system that is behind has a host with a known target.
known-target :
    (latest : String → Option String) (h : String) (s : System)
    → (has_hostname h s && is_behind latest s) ≡ true
    → is_some (latest h) ≡ true
known-target latest h s b = elim (Bool-cases (has_hostname h s)) [
  | inr miss ↦ ground (arith, b, miss)
  | inl hit ↦ elim (Option-cases (latest s.hostname)) [
    | inl unknown ↦ ground (arith, b, unknown)
    | inr (t, known) ↦
        subst (λ x. is_some (latest x) ≡ true) ((eq_iff s.hostname h).0 hit) (ap is_some known)
  ]
]

target_is_self : (o : Option String) (t : String) → o ≡ some t → target_is o t ≡ true
target_is_self none t h = ground (arith, h)
target_is_self (some s) t h = ground (arith, h, eq_iff s t)

-- A derivation of the commit for the host, pushed to the cache, has the store path.
abbrev pub is_pushed : List CachePushJob → List Derivation → Commit → String → String → Bool
is_pushed jobs ds c h t = exists (λ d. is_deployable_for jobs c h d && target_is d.store_path t) ds

module _ (repo_url_of : ℕ → String) (jobs : List CachePushJob) (commits : List Commit)
    (ds : List Derivation) where
  is_pushed-latest_by_host :
      (c : Commit) (hs : List String) (h t : String)
      → latest_by_host (targets_of repo_url_of jobs c ds hs) h ≡ some t
      → is_pushed jobs ds c h t ≡ true
  unfolding latest_by_host targets_of host_target
  is_pushed-latest_by_host c [] h t known = ground (arith, known)
  is_pushed-latest_by_host c (k ∷ hs) h t known =
      elim (Option-cases
        (first_by (ranks_before jobs) (select_where (is_deployable_for jobs c k) ds))) [
          | inl unbuilt ↦ is_pushed-latest_by_host c hs h t (rw (unbuilt, targets_of) at known)
          | inr (d, best) ↦
              let taken = rw (best, targets_of) at known in
              elim (Bool-cases (str_eq k h && is_some d.store_path)) [
                | inr other ↦ is_pushed-latest_by_host c hs h t (rw other at taken)
                | inl this ↦
                    let same : str_eq k h ≡ true = ground (arith, this) in
                    let stored : d.store_path ≡ some t = rw this at taken in
                    subst (λ x. is_pushed jobs ds c x t ≡ true) ((eq_iff k h).0 same)
                      (exists-select_where (λ e. target_is e.store_path t)
                        (is_deployable_for jobs c k) ds
                        (exists-first_by (λ e. target_is e.store_path t) (ranks_before jobs) _ d
                          best (target_is_self d.store_path t stored)))
              ]
        ]

  abbrev pub latest_of : ℕ → List System → String → Option String
  latest_of flake_id systems = latest_by_host (
      get_latest_deployable_targets_for_flake_hosts repo_url_of jobs commits ds flake_id
        (map (λ s. s.hostname) systems))

  pub is_pushed-latest_of :
      (flake_id : ℕ) (systems : List System) (h t : String)
      → latest_of flake_id systems h ≡ some t
      → (c : Commit) × (latest_commit flake_id commits ≡ some c) × (is_pushed jobs ds c h t ≡ true)
  unfolding get_latest_deployable_targets_for_flake_hosts latest_by_host
  is_pushed-latest_of flake_id systems h t known =
      elim (Option-cases (latest_commit flake_id commits)) [
        | inl nothing ↦
            let none_known = rw (nothing, get_latest_deployable_targets_for_flake_hosts) at known in
            ground (arith, none_known)
        | inr (c, newest) ↦ (
          c,
          newest,
          is_pushed-latest_by_host c _ h t
              (rw (newest, get_latest_deployable_targets_for_flake_hosts) at known),
        )
      ]

abbrev is_done : JobStatus → Bool
is_done completed = true
is_done _ = false

abbrev is_nixos : DerivationType → Bool
is_nixos nixos_type = true
is_nixos package_type = false

-- A job that has pushed the derivation.
abbrev pub has_pushed : ℕ → CachePushJob → Bool
has_pushed i j = j.derivation_id == i && is_done j.status

-- A NixOS derivation of the commit, with the name of the host, a target, this store path and a
-- completed job.
abbrev pub is_pushed_build : ℕ → String → String → List CachePushJob → Derivation → Bool
is_pushed_build commit_id h t jobs d =
    opt_eq d.commit_id (some commit_id)
    && str_eq d.derivation_name h
    && is_nixos d.derivation_type
    && is_some d.derivation_target
    && target_is d.store_path t
    && exists (has_pushed d.id) jobs

-- An active system of the host with the policy auto_latest and this flake.
abbrev pub is_system_of : ℕ → String → System → Bool
is_system_of f h s =
    str_eq s.hostname h
    && str_eq s.deployment_policy "auto_latest"
    && s.is_active
    && opt_eq s.flake_id (some f)

-- The rows that a pass works on.
abbrev pub is_managed : System → Bool
is_managed s = str_eq s.deployment_policy "auto_latest" && s.is_active

is_done_lem : (s : JobStatus) → is_completed s ≡ is_done s
is_done_lem pending = refl
is_done_lem in_progress = refl
is_done_lem completed = refl
is_done_lem failed = refl
is_done_lem permanently_failed = refl

is_nixos_lem : (t : DerivationType) → type_eq t nixos_type ≡ is_nixos t
is_nixos_lem nixos_type = refl
is_nixos_lem package_type = refl

pub is_pushed_build_lem :
    (jobs : List CachePushJob) (c : Commit) (h t : String) (d : Derivation)
    → (is_deployable_for jobs c h d && target_is d.store_path t) ≡ true
    → is_pushed_build c.id h t jobs d ≡ true
is_pushed_build_lem jobs c h t d m =
    let waits : exists (completed_for d) jobs ≡ true = ground (arith, m) in
    let done : exists (has_pushed d.id) jobs ≡ true =
      exists-weaker (completed_for d) (has_pushed d.id) jobs
        (λ j p. let same = is_done_lem j.status in ground (arith, p, same)) waits in
    let kind = is_nixos_lem d.derivation_type in
    let target : (is_some d.derivation_target && target_is d.store_path t) ≡ true =
      ground (arith, m) in
    rw done (ground (arith, m, kind, target))

pub is_system_of_lem :
    (f : ℕ) (h : String) (s : System)
    → (is_managed s && (of_flake f s && has_hostname h s)) ≡ true
    → is_system_of f h s ≡ true
is_system_of_lem f h s m = ground (arith, m)

pub exists-known :
    (latest : String → Option String) (h : String) (systems : List System)
    → exists (λ s. has_hostname h s && is_behind latest s) systems ≡ true
    → (t : String) × (latest h ≡ some t)
unfolding exists
exists-known latest h [] b = ground (arith, b)
exists-known latest h (s ∷ systems) b = elim (Bool-cases (has_hostname h s && is_behind latest s)) [
  | inr other ↦ exists-known latest h systems (rw other at b)
  | inl this ↦
      let known = known-target latest h s this in
      elim (Option-cases (latest h)) [
        | inl unknown ↦ ground (arith, known, unknown)
        | inr found ↦ found
      ]
]

pub exists-managed :
    (latest : String → Option String) (h : String) (f : ℕ) (table : List System)
    → exists
        (λ s. has_hostname h s && is_behind latest s)
        (select_where (of_flake f) (get_systems_with_auto_latest_policy table))
      ≡ true
    → exists (λ s. is_managed s && (of_flake f s && has_hostname h s)) table ≡ true
unfolding get_systems_with_auto_latest_policy
exists-managed latest h f table b =
    exists-weaker _ _ table (λ s m. ground (arith, m))
      (exists-select_where _ is_managed table
        (exists-select_where _ (of_flake f) (select_where is_managed table) b))
