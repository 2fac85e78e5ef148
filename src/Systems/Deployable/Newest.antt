-- ===== src/Systems/Deployable/Newest.antt =====
-- The newest commit of a flake.
use mathlib.Core.Option.{some-injective}
use mathlib.Core.Path.{subst}
use crystal_forge.Prelude.{
  ℕ, ◌≤◌, ◌≡◌, refl, ◌∙◌, sym, Bool, true, false, ◌&&◌, ◌||◌, Bool-cases, Option-cases, inl, inr,
  none, some, List, [], ◌∷◌, ltb, ◌==◌, arith,
}
use crystal_forge.Table.{exists, select_where}
use crystal_forge.Table.Selected.{exists-select_where_eq}
use crystal_forge.Commits.{Commit}
use crystal_forge.Systems.Deployable.{first_by, latest_commit}

abbrev later_than : ℕ → Commit → Bool
later_than t d = ltb t d.commit_timestamp

abbrev newer : Commit → Commit → Bool
newer c d = ltb d.commit_timestamp c.commit_timestamp

first_by-none :
    (p : Commit → Bool) (cs : List Commit) → first_by newer cs ≡ none → exists p cs ≡ false
unfolding first_by exists
first_by-none p [] h = refl
first_by-none p (c ∷ cs) h = elim (Option-cases (first_by newer cs)) [
  | inl last ↦ ground (arith, h, last)
  | inr (d, best) ↦ ground (arith, h, best)
]

later_than_le :
    (a b : ℕ) (cs : List Commit)
    → a ≤ b
    → exists (later_than a) cs ≡ false
    → exists (later_than b) cs ≡ false
unfolding exists
later_than_le a b [] low h = refl
later_than_le a b (c ∷ cs) low h = ground (arith, later_than_le a b cs low)

first_by_newest :
    (cs : List Commit) (c : Commit)
    → first_by newer cs ≡ some c
    → exists (later_than c.commit_timestamp) cs ≡ false
unfolding first_by exists
first_by_newest [] c h = cc
first_by_newest (d ∷ cs) c h = elim (Option-cases (first_by newer cs)) [
  | inl last ↦
      let same : d ≡ c = some-injective d c (rw last at h) in
      let empty = first_by-none (later_than c.commit_timestamp) cs last in
      rw empty rw same (ground arith)
  | inr (e, best) ↦
      let rest = first_by_newest cs e best in
      let chosen = rw best at h in
      elim (Bool-cases (newer e d)) [
        | inl behind ↦
            let same : e ≡ c = some-injective e c (rw behind at chosen) in
            subst
              (λ x.
                (later_than x.commit_timestamp d || exists (later_than x.commit_timestamp) cs)
                ≡ false)
              same (rw rest (ground arith))
        | inr ahead ↦
            let same : d ≡ c = some-injective d c (rw ahead at chosen) in
            let none_later =
              later_than_le e.commit_timestamp d.commit_timestamp cs (ground arith) rest in
            subst
              (λ x.
                (later_than x.commit_timestamp d || exists (later_than x.commit_timestamp) cs)
                ≡ false)
              same (rw none_later (ground arith))
      ]
]

first_by_from :
    (p : Commit → Bool) (cs : List Commit) (c : Commit)
    → first_by newer (select_where p cs) ≡ some c
    → p c ≡ true
unfolding first_by select_where
first_by_from p [] c h = cc
first_by_from p (d ∷ cs) c h = elim (Bool-cases (p d)) [
  | inr other ↦ first_by_from p cs c (rw other at h)
  | inl this ↦
      let chosen = rw this at h in
      elim (Option-cases (first_by newer (select_where p cs))) [
        | inl last ↦ subst (λ x. p x ≡ true) (some-injective d c (rw last at chosen)) this
        | inr (e, best) ↦
            let rest = first_by_from p cs e best in
            let taken = rw best at chosen in
            elim (Bool-cases (newer e d)) [
              | inl behind ↦ subst (λ x. p x ≡ true) (some-injective e c (rw behind at taken)) rest
              | inr ahead ↦ subst (λ x. p x ≡ true) (some-injective d c (rw ahead at taken)) this
            ]
      ]
]

-- The commit is one of the flake, and no commit of the flake is newer.
pub latest_commit_newest :
    (f : ℕ) (commits : List Commit) (c : Commit)
    → latest_commit f commits ≡ some c
    → ((c.flake_id == f) ≡ true)
      × (exists (λ d. d.flake_id == f && ltb c.commit_timestamp d.commit_timestamp) commits ≡ false)
unfolding latest_commit
latest_commit_newest f commits c h = (
  first_by_from (λ d. d.flake_id == f) commits c h,
  sym (exists-select_where_eq (later_than c.commit_timestamp) (λ d. d.flake_id == f) commits)
      ∙ first_by_newest (select_where (λ d. d.flake_id == f) commits) c h,
)
