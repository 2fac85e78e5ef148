-- ===== src/Table/Keys.antt =====
-- Tables with a unique key: no two rows agree on it.
use mathlib.Core.Path.{subst}
use crystal_forge.Prelude.{
  ℕ, ◌==◌, ==_refl, ◌≡◌, refl, Bool, false, Bool-cases, none, some, inl, inr, List, [], ◌∷◌, ◌++◌,
  map, All, arith, ◌≢◌, sym, if◌then◌else◌,
}
use crystal_forge.Table.{update_where, delete_where, find, exists}
use crystal_forge.Table.Rows.{All-delete_where, All-update_where}

module _ {ℓ} {A : Type ℓ} (key : A → ℕ) where
  abbrev pub IsUnique : List A → Type 0
  IsUnique [] = Unit
  IsUnique (x ∷ xs) = All (λ y. key y ≢ key x) xs × IsUnique xs

  pub IsUnique-delete_where :
      (p : A → Bool) (xs : List A) → IsUnique xs → IsUnique (delete_where p xs)
  unfolding delete_where
  IsUnique-delete_where p [] u = tt
  IsUnique-delete_where p (x ∷ xs) u = elim (Bool-cases (p x)) [
    | inl e ↦ rw e (IsUnique-delete_where p xs u.1)
    | inr e ↦ rw e (All-delete_where (λ y. key y ≢ key x) p xs u.0, IsUnique-delete_where p xs u.1)
  ]

  -- An UPDATE that leaves the key alone.
  pub IsUnique-update_where :
      (p : A → Bool) (f : A → A) (xs : List A)
      → ((x : A) → key (f x) ≡ key x)
      → IsUnique xs
      → IsUnique (update_where p f xs)
  unfolding update_where
  IsUnique-update_where p f [] same u = tt
  IsUnique-update_where p f (x ∷ xs) same u = (
    All-update_where (λ y. key y ≢ key x) (λ y. key y ≢ key (if p x then f x else x)) p f xs
        (λ y n _. ground (arith, same x, same y)) (λ y n _. ground (arith, same x)) u.0,
    IsUnique-update_where p f xs same u.1,
  )

  pub not-exists-All :
      (i : ℕ) (xs : List A) → exists (λ y. key y == i) xs ≡ false → All (λ y. key y ≢ i) xs
  unfolding exists
  not-exists-All i [] h = tt
  not-exists-All i (x ∷ xs) h = (ground arith, not-exists-All i xs (ground arith))

  All-ne-snoc :
      (x z : A) (xs : List A)
      → All (λ y. key y ≢ key x) xs
      → key z ≢ key x
      → All (λ y. key y ≢ key x) (xs ++ z ∷ [])
  All-ne-snoc x z [] h n = (n, tt)
  All-ne-snoc x z (y ∷ ys) h n = (h.0, All-ne-snoc x z ys h.1 n)

  -- An INSERT of a row whose key no row has.
  pub IsUnique-snoc :
      (z : A) (xs : List A)
      → exists (λ y. key y == key z) xs ≡ false
      → IsUnique xs
      → IsUnique (xs ++ z ∷ [])
  unfolding exists
  IsUnique-snoc z [] h u = (tt, tt)
  IsUnique-snoc z (x ∷ xs) h u =
      (All-ne-snoc x z xs u.0 (ground arith), IsUnique-snoc z xs (ground arith) u.1)

  -- The row that has the key, after an UPDATE of that row.
  pub find-update_where :
      (i : ℕ) (f : A → A) (xs : List A)
      → ((x : A) → key (f x) ≡ key x)
      → (x : A) → find (λ y. key y == i) xs ≡ some x
      → find (λ y. key y == i) (update_where (λ y. key y == i) f xs) ≡ some (f x)
  unfolding find update_where
  find-update_where i f [] same x h = cc
  find-update_where i f (y ∷ ys) same x h = ground (arith, same y, find-update_where i f ys same x)

  -- Rows with another key stay as they are.
  pub find-update_where_ne :
      (i j : ℕ) (f : A → A) (xs : List A)
      → ((x : A) → key (f x) ≡ key x)
      → i ≢ j
      → find (λ y. key y == j) (update_where (λ y. key y == i) f xs) ≡ find (λ y. key y == j) xs
  unfolding find update_where
  find-update_where_ne i j f [] same h = refl
  find-update_where_ne i j f (y ∷ ys) same h =
      ground (arith, same y, find-update_where_ne i j f ys same h)

  pub find-key : (i : ℕ) (xs : List A) (x : A) → find (λ y. key y == i) xs ≡ some x → key x ≡ i
  unfolding find
  find-key i [] x h = cc
  find-key i (y ∷ ys) x h = ground (arith, find-key i ys x)

module _ {ℓ} {A : Type ℓ} (p : A → Bool) where
  pub find-eq-none : (xs : List A) → exists p xs ≡ false → find p xs ≡ none
  unfolding exists find
  find-eq-none [] h = refl
  find-eq-none (x ∷ xs) h = ground (arith, find-eq-none xs)

  pub update_where_none : (f : A → A) (xs : List A) → exists p xs ≡ false → update_where p f xs ≡ xs
  unfolding exists update_where
  update_where_none f [] h = refl
  update_where_none f (x ∷ xs) h = ground (arith, update_where_none f xs)

module _ {ℓ} {A : Type ℓ} (key : A → ℕ) where
  -- The row that has the key, after a change of every row that keeps the key.
  pub find-map :
      (i : ℕ) (f : A → A) (xs : List A)
      → ((x : A) → key (f x) ≡ key x)
      → (x : A) → find (λ y. key y == i) xs ≡ some x
      → find (λ y. key y == i) (map f xs) ≡ some (f x)
  unfolding find
  find-map i f [] same x h = cc
  find-map i f (y ∷ ys) same x h = ground (arith, same y, find-map i f ys same x)

module _ {ℓ κ} {A : Type ℓ} (key : A → ℕ) (P Q : A → Type κ) where
  All-update_absent :
      (i : ℕ) (f : A → A) (xs : List A)
      → All (λ y. key y ≢ i) xs
      → ((x : A) → P x → Q x)
      → All P xs
      → All Q (update_where (λ y. key y == i) f xs)
  unfolding update_where
  All-update_absent i f [] n keep h = tt
  All-update_absent i f (x ∷ xs) n keep h =
      let e : (key x == i) ≡ false = ground arith in
      rw e (keep x h.0, All-update_absent i f xs n.1 keep h.1)

  -- An UPDATE of one row: the row that `find` gives has to get the property, the others keep it.
  pub All-update_key :
      (i : ℕ) (f : A → A) (xs : List A) (x : A)
      → IsUnique key xs
      → find (λ y. key y == i) xs ≡ some x
      → Q (f x)
      → ((y : A) → P y → Q y)
      → All P xs
      → All Q (update_where (λ y. key y == i) f xs)
  unfolding update_where find
  All-update_key i f [] x u e q keep h = tt
  All-update_key i f (y ∷ ys) x u e q keep h = elim (Bool-cases (key y == i)) [
    | inl hit ↦
        let same : y ≡ x = ground arith in
        let k : key y ≡ i = ground arith in
        rw hit (
          subst (λ z. Q (f z)) (sym same) q,
          All-update_absent i f ys (subst (λ n. All (λ z. key z ≢ n) ys) k u.0) keep h.1,
        )
    | inr miss ↦ rw miss (keep y h.0, All-update_key i f ys x u.1 (rw miss at e) q keep h.1)
  ]

module _ {ℓ} {A : Type ℓ} (key : A → ℕ) where
  find-tail :
      (x : A) (xs ys : List A)
      → All (λ y. key y ≢ key x) ys
      → All (λ y. find (λ z. key z == key y) xs ≡ some y) ys
      → All (λ y. find (λ z. key z == key y) (x ∷ xs) ≡ some y) ys
  unfolding find
  find-tail x xs [] n h = tt
  find-tail x xs (y ∷ ys) n h =
      let e : (key x == key y) ≡ false = ground arith in (rw e h.0, find-tail x xs ys n.1 h.1)

  -- Under a unique key every row is found by its key.
  pub IsUnique-find :
      (xs : List A) → IsUnique key xs → All (λ x. find (λ y. key y == key x) xs ≡ some x) xs
  unfolding find
  IsUnique-find [] u = tt
  IsUnique-find (x ∷ xs) u = (rw (==_refl (key x)), find-tail x xs xs u.0 (IsUnique-find xs u.1))
