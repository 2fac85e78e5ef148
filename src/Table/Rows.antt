-- ===== src/Table/Rows.antt =====
-- What the statements do to a property of every row, and to EXISTS and find.
use mathlib.Core.Path.{subst}
use mathlib.Core.Option.{some-injective}
use crystal_forge.Prelude.{
  ◌≡◌, sym, Bool, true, false, Bool-cases, some, inl, inr, ◌⊎◌, List, [], ◌∷◌, ◌++◌, All, arith,
}
use crystal_forge.Table.{update_where, delete_where, select_where, find, exists}

module _ {ℓ κ} {A : Type ℓ} (P : A → Type κ) (p : A → Bool) where
  pub All-delete_where : (xs : List A) → All P xs → All P (delete_where p xs)
  unfolding delete_where
  All-delete_where [] h = tt
  All-delete_where (x ∷ xs) h = elim (Bool-cases (p x)) [
    | inl e ↦ rw e (All-delete_where xs h.1)
    | inr e ↦ rw e (h.0, All-delete_where xs h.1)
  ]

  pub All-find : (xs : List A) (x : A) → All P xs → find p xs ≡ some x → P x
  unfolding find
  All-find [] x h e = cc
  All-find (y ∷ xs) x h e = elim (Bool-cases (p y)) [
    | inl hit ↦ subst P (some-injective _ _ (rw hit at e)) h.0
    | inr miss ↦ All-find xs x h.1 (rw miss at e)
  ]

module _ {ℓ κ μ} {A : Type ℓ} (P : A → Type κ) (Q : A → Type μ) (p : A → Bool) (f : A → A) where
  -- Updated rows get the property from the update, the others from what held before.
  pub All-update_where :
      (xs : List A)
      → ((x : A) → P x → p x ≡ true → Q (f x))
      → ((x : A) → P x → p x ≡ false → Q x)
      → All P xs
      → All Q (update_where p f xs)
  unfolding update_where
  All-update_where [] hit miss h = tt
  All-update_where (x ∷ xs) hit miss h = elim (Bool-cases (p x)) [
    | inl e ↦ rw e (hit x h.0 e, All-update_where xs hit miss h.1)
    | inr e ↦ rw e (miss x h.0 e, All-update_where xs hit miss h.1)
  ]

module _ {ℓ} {A : Type ℓ} (p : A → Bool) where
  pub exists-append : (xs ys : List A) → exists p xs ≡ true → exists p (xs ++ ys) ≡ true
  unfolding exists
  exists-append [] ys h = cc
  exists-append (x ∷ xs) ys h = ground (arith, exists-append xs ys)

  pub exists-append_none :
      (xs ys : List A) → exists p xs ≡ false → exists p ys ≡ false → exists p (xs ++ ys) ≡ false
  unfolding exists
  exists-append_none [] ys h g = g
  exists-append_none (x ∷ xs) ys h g = ground (arith, exists-append_none xs ys)

  pub exists-snoc : (xs : List A) (z : A) → p z ≡ true → exists p (xs ++ z ∷ []) ≡ true
  unfolding exists
  exists-snoc [] z h = ground arith
  exists-snoc (x ∷ xs) z h = ground (arith, exists-snoc xs z)

  pub find-IsSome : (xs : List A) → exists p xs ≡ true → (x : A) × (find p xs ≡ some x)
  unfolding exists find
  find-IsSome [] h = cc
  find-IsSome (x ∷ xs) h = elim (Bool-cases (p x)) [
    | inl hit ↦ (x, rw hit)
    | inr miss ↦ rw miss (find-IsSome xs (rw miss at h))
  ]

  -- A row that a DELETE takes away was found by a SELECT with the same test.
  pub exists-delete_where :
      (q : A → Bool) (xs : List A)
      → exists p xs ≡ true
      → (exists p (delete_where q xs) ≡ true) ⊎ (exists p (select_where q xs) ≡ true)
  unfolding exists delete_where select_where
  exists-delete_where q [] h = cc
  exists-delete_where q (x ∷ xs) h = ground (arith, exists-delete_where q xs)

module _ {ℓ κ} {A : Type ℓ} (P : A → Type κ) (p : A → Bool) where
  -- A selected row has the property, and passes the test.
  pub All-select_where :
      (xs : List A) → All P xs → All (λ x. P x × (p x ≡ true)) (select_where p xs)
  unfolding select_where
  All-select_where [] h = tt
  All-select_where (x ∷ xs) h = elim (Bool-cases (p x)) [
    | inl e ↦ rw e ((h.0, e), All-select_where xs h.1)
    | inr e ↦ rw e (All-select_where xs h.1)
  ]

module _ {ℓ} {A : Type ℓ} (p q r : A → Bool) where
  -- A row that passes one test before an UPDATE passes another after it.
  pub exists-update_where :
      (f : A → A) (xs : List A)
      → ((x : A) → p x ≡ true → q x ≡ true → r (f x) ≡ true)
      → ((x : A) → p x ≡ false → q x ≡ true → r x ≡ true)
      → exists q xs ≡ true
      → exists r (update_where p f xs) ≡ true
  unfolding exists update_where
  exists-update_where f [] hit miss h = cc
  exists-update_where f (x ∷ xs) hit miss h =
      ground (arith, hit x, miss x, exists-update_where f xs hit miss)

module _ {ℓ} {A : Type ℓ} (p r : A → Bool) where
  -- A found row is a row, with all else that is known of it.
  pub exists-find :
      (xs : List A) (x : A) → find p xs ≡ some x → (p x ≡ true → r x ≡ true) → exists r xs ≡ true
  unfolding exists find
  exists-find [] x h imp = cc
  exists-find (y ∷ xs) x h imp = elim (Bool-cases (p y)) [
    | inl hit ↦
        let same = some-injective _ _ (rw hit at h) in
        let good : r y ≡ true =
          subst (λ z. r z ≡ true) (sym same) (imp (subst (λ z. p z ≡ true) same hit)) in
        ground arith
    | inr miss ↦ let rest = exists-find xs x (rw miss at h) imp in ground arith
  ]

module _ {ℓ} {A : Type ℓ} (p q : A → Bool) where
  -- No row passes a test after an UPDATE, if none did and no updated row does.
  pub exists-update_where_none :
      (f : A → A) (xs : List A)
      → ((x : A) → q x ≡ false → q (f x) ≡ false)
      → exists q xs ≡ false
      → exists q (update_where p f xs) ≡ false
  unfolding exists update_where
  exists-update_where_none f [] hit h = h
  exists-update_where_none f (x ∷ xs) hit h =
      ground (arith, hit x, exists-update_where_none f xs hit)
