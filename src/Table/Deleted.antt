-- ===== src/Table/Deleted.antt =====
-- What a search by key finds after a DELETE, an INSERT or an UPDATE.
use mathlib.Core.Path.{subst}
use crystal_forge.Prelude.{
  ℕ, ◌≡◌, ◌≢◌, refl, Bool, true, false, Bool-cases, inl, inr, Option, none, some, List, [], ◌∷◌,
  ◌++◌, ◌==◌, ==_iff, All, arith, if◌then◌else◌,
}
use crystal_forge.Table.{delete_where, find, exists}
use crystal_forge.Table.Rows.{All-delete_where}
use crystal_forge.Table.Keys.{IsUnique}

-- What is left of a row that was found when the rows that pass a test are deleted.
abbrev pub survivor {ℓ} : {A : Type ℓ} → (A → Bool) → Option A → Option A
survivor p none = none
survivor p (some x) = if p x then none else some x

module _ {ℓ} {A : Type ℓ} (key : A → ℕ) (i : ℕ) where
  find-absent : (xs : List A) → All (λ y. key y ≢ i) xs → find (λ y. key y == i) xs ≡ none
  unfolding find
  find-absent [] h = refl
  find-absent (x ∷ xs) h = ground (arith, find-absent xs h.1, h.0)

  -- Under unique keys a DELETE takes away the row found, or nothing of it.
  pub find-delete_where :
      (p : A → Bool) (xs : List A)
      → IsUnique key xs
      → find (λ y. key y == i) (delete_where p xs) ≡ survivor p (find (λ y. key y == i) xs)
  unfolding find delete_where
  find-delete_where p [] u = refl
  find-delete_where p (x ∷ xs) u =
      let rest = find-delete_where p xs u.1 in
      elim (Bool-cases (key x == i)) [
        | inr other ↦ elim (Bool-cases (p x)) [
          | inl gone ↦ rw other rw gone rest
          | inr kept ↦ rw other rw kept rw other rest
        ]
        | inl this ↦
            let k = (==_iff (key x) i).0 this in
            elim (Bool-cases (p x)) [
              | inl gone ↦ rw this rw gone (
                  find-absent (delete_where p xs) (
                    All-delete_where (λ y. key y ≢ i) p xs
                      (subst (λ n. All (λ y. key y ≢ n) xs) k u.0)))
              | inr kept ↦ rw this rw kept rw this refl
            ]
      ]

  -- A row whose key no row had.
  pub find-snoc_other :
      (xs : List A) (z : A)
      → (key z == i) ≡ false
      → find (λ y. key y == i) (xs ++ z ∷ []) ≡ find (λ y. key y == i) xs
  unfolding find
  find-snoc_other [] z h = rw h refl
  find-snoc_other (x ∷ xs) z h = elim (Bool-cases (key x == i)) [
    | inl e ↦ rw e refl
    | inr e ↦ rw e (find-snoc_other xs z h)
  ]

  pub find-snoc_this :
      (xs : List A) (z : A)
      → exists (λ y. key y == i) xs ≡ false
      → (key z == i) ≡ true
      → find (λ y. key y == i) (xs ++ z ∷ []) ≡ some z
  unfolding find exists
  find-snoc_this [] z e h = rw h refl
  find-snoc_this (x ∷ xs) z e h = ground (arith, find-snoc_this xs z)
