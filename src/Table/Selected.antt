-- ===== src/Table/Selected.antt =====
-- What a SELECT finds, and tests that follow from others.
use crystal_forge.Prelude.{◌≡◌, refl, Bool, true, ◌&&◌, List, [], ◌∷◌, arith}
use crystal_forge.Table.{exists, select_where}

module _ {ℓ} {A : Type ℓ} (p q : A → Bool) where
  pub exists-select_where :
      (xs : List A) → exists p (select_where q xs) ≡ true → exists (λ x. q x && p x) xs ≡ true
  unfolding exists select_where
  exists-select_where [] h = h
  exists-select_where (x ∷ xs) h = let rest = exists-select_where xs in ground (arith, h, rest)

  pub exists-weaker :
      (xs : List A) → ((x : A) → p x ≡ true → q x ≡ true) → exists p xs ≡ true → exists q xs ≡ true
  unfolding exists
  exists-weaker [] weaker h = h
  exists-weaker (x ∷ xs) weaker h =
      let rest = exists-weaker xs weaker in let here = weaker x in ground (arith, h, rest, here)

  pub exists-select_where_eq :
      (xs : List A) → exists p (select_where q xs) ≡ exists (λ x. q x && p x) xs
  unfolding exists select_where
  exists-select_where_eq [] = refl
  exists-select_where_eq (x ∷ xs) = ground (arith, exists-select_where_eq xs)
