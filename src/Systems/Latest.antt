-- ===== src/Systems/Latest.antt =====
-- The policy's text round trip, and what a pass of the updater leaves in the table.
use mathlib.Core.Path.{subst}
use text.Mathlib.TextEquality.{eq_iff}
use crystal_forge.Prelude.{
  ℕ, ◌+◌, ◌≡◌, refl, sym, ap, ◌∙◌, String, Bool, true, false, Bool-cases, Option-cases, inl, inr,
  Option, none, some, List, [], ◌∷◌, ◌&&◌, ◌||◌, not, ok, str_eq, if◌then◌else◌, is_some, arith,
  ◌↔◌,
}
use crystal_forge.Table.{update_where, find, exists, count_where}
use crystal_forge.Systems.{
  DeploymentPolicy, manual, auto_latest, pinned, to_string, from_str, System, has_hostname,
  point_at, update_desired_target, new_target, retarget, target_is, is_auto_latest,
  is_auto_deployment_enabled, update_flake_systems_to_latest,
}

-- A text parses to a policy exactly if it is the text of that policy.
pub from_str-to_string :
    (s : String) (p : DeploymentPolicy) → (from_str s ≡ ok p) ↔ (s ≡ to_string p)
unfolding from_str to_string
from_str-to_string s manual = (
  λ h. ground (arith, eq_iff s "manual", eq_iff s "auto_latest", eq_iff s "pinned"),
  λ e. rw e refl,
)
from_str-to_string s auto_latest = (
  λ h. ground (arith, eq_iff s "manual", eq_iff s "auto_latest", eq_iff s "pinned"),
  λ e. rw e refl,
)
from_str-to_string s pinned = (
  λ h. ground (arith, eq_iff s "manual", eq_iff s "auto_latest", eq_iff s "pinned"),
  λ e. rw e refl,
)

find-point_at :
    (h host : String) (target : Option String) (now : ℕ) (table : List System) (row : System)
    → find (has_hostname h) table ≡ some row
    → find (has_hostname h) (update_desired_target host target now table)
      ≡ some (if str_eq host h then point_at target now row else row)
unfolding update_desired_target find update_where
find-point_at h host target now [] row found = cc
find-point_at h host target now (x ∷ xs) row found = ground (
  arith,
  eq_iff x.hostname h,
  eq_iff host h,
  eq_iff x.hostname host,
  find-point_at h host target now xs row,
)

twice :
    {A : Type 0} (a b : Bool) (f : A → A) (x : A)
    → f (f x) ≡ f x
    → (if b then f (if a then f x else x) else (if a then f x else x)) ≡ (if a || b then f x else x)
twice true true f x h = h
twice true false f x h = refl
twice false true f x h = refl
twice false false f x h = refl

-- A system with the policy auto_latest, for whose host a target is known that it does not have.
abbrev pub is_behind : (String → Option String) → System → Bool
is_behind latest s =
    str_eq s.deployment_policy "auto_latest"
    && elim (latest s.hostname) [ none ↦ false | some t ↦ not (target_is s.desired_target t) ]

is_auto_latest-from_str : (p : String) → is_auto_latest (from_str p) ≡ str_eq p "auto_latest"
unfolding from_str
is_auto_latest-from_str p = elim (Bool-cases (str_eq p "auto_latest")) [
  | inl auto ↦ rw ((eq_iff p "auto_latest").0 auto) refl
  | inr other ↦ elim (Bool-cases (str_eq p "manual")) [
    | inl by_hand ↦ rw (other, by_hand) refl
    | inr unset ↦ elim (Bool-cases (str_eq p "pinned")) [
      | inl fixed ↦ rw (other, unset, fixed) refl
      | inr bad ↦ rw (other, unset, bad) refl
    ]
  ]
]

is_auto_enabled_lem :
    (s : System) → is_auto_deployment_enabled s ≡ str_eq s.deployment_policy "auto_latest"
unfolding is_auto_deployment_enabled
is_auto_enabled_lem s = is_auto_latest-from_str s.deployment_policy

is_some_guard : {A : Type 0} (b : Bool) (x : A) → is_some (if b then some x else none) ≡ b
is_some_guard true x = refl
is_some_guard false x = refl

new_target-is_behind :
    (latest : String → Option String) (s : System)
    → is_some (new_target latest s) ≡ is_behind latest s
unfolding new_target
new_target-is_behind latest s = elim (Option-cases (latest s.hostname)) [
  | inl unknown ↦ rw unknown (ground arith)
  | inr (t, known) ↦
      rw (known, new_target, is_auto_enabled_lem s)
        (is_some_guard
          (str_eq s.deployment_policy "auto_latest" && not (target_is s.desired_target t)) t)
]

module _ (latest : String → Option String) (now : ℕ) where
  target-of : (s : System) (t : String) → new_target latest s ≡ some t → latest s.hostname ≡ some t
  unfolding new_target
  target-of s t h = elim (Option-cases (latest s.hostname)) [
    | inl unknown ↦ ground (arith, h, unknown)
    | inr (u, known) ↦ ground (arith, h, known)
  ]

  find-retarget :
      (h : String) (s : System) (table : List System) (n : ℕ) (row : System)
      → find (has_hostname h) table ≡ some row
      → find (has_hostname h) (retarget s.hostname (new_target latest s) now (table, n)).0
        ≡ some (if has_hostname h s && is_behind latest s then point_at (latest h) now row else row)
  find-retarget h s table n row found =
      rw (sym (new_target-is_behind latest s)) (elim (Option-cases (new_target latest s)) [
        | inl same ↦ rw same (ground (arith, found))
        | inr (t, new) ↦ rw new (elim (Bool-cases (has_hostname h s)) [
          | inl hit ↦
              let known : latest h ≡ some t =
                subst (λ x. latest x ≡ some t) ((eq_iff s.hostname h).0 hit) (target-of s t new) in
              rw (find-point_at h s.hostname (some t) now table row found, hit, known) refl
          | inr miss ↦ rw (find-point_at h s.hostname (some t) now table row found, miss) refl
        ])
      ])

  count-retarget :
      (s : System) (table : List System) (n : ℕ)
      → (retarget s.hostname (new_target latest s) now (table, n)).1
        ≡ (if is_behind latest s then n + 1 else n)
  count-retarget s table n =
      rw (sym (new_target-is_behind latest s)) (elim (Option-cases (new_target latest s)) [
        | inl same ↦ rw same refl
        | inr (t, new) ↦ rw new refl
      ])

  -- After a pass over `systems`, the row found for a host is the old one, or, if the list holds a
  -- system of that host that is behind, the old one with the host's latest target; and the count
  -- grows by the number of systems that are behind.
  pub update_flake_systems_to_latest_lem :
      (h : String) (systems table : List System) (n : ℕ) (row : System)
      → find (has_hostname h) table ≡ some row
      → let (table', n') = update_flake_systems_to_latest latest now systems (table, n) in
        (find (has_hostname h) table'
          ≡ some (
              if exists (λ s. has_hostname h s && is_behind latest s) systems
              then point_at (latest h) now row
              else row))
        × (n' ≡ n + count_where (is_behind latest) systems)
  unfolding update_flake_systems_to_latest exists count_where
  update_flake_systems_to_latest_lem h [] table n row found = (found, omega arith)
  update_flake_systems_to_latest_lem h (s ∷ systems) table n row found =
      let (table', n') = retarget s.hostname (new_target latest s) now (table, n) in
      let (there, counted) =
        update_flake_systems_to_latest_lem h systems table' n' _
          (find-retarget h s table n row found) in
      (
        there
            ∙ ap some (
                twice (has_hostname h s && is_behind latest s)
                  (exists (λ s. has_hostname h s && is_behind latest s) systems)
                  (point_at (latest h) now) row (unfold point_at in refl)),
        ground (arith, counted, count-retarget s table n),
      )
