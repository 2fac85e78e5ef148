-- ===== src/Derivation/Insert/Kept.antt =====
-- What an upsert gives, and which rows it keeps.
use crystal_forge.Prelude.{
  ℕ, ◌≡◌, refl, ◌∙◌, ap, Bool, true, false, Bool-cases, inl, inr, Option, some, List, ◌∷◌, [],
  String, ok,
}
use crystal_forge.Table.{find, exists}
use crystal_forge.Table.Rows.{
  exists-append, exists-append_none, exists-snoc, exists-update_where, exists-update_where_none,
  find-IsSome,
}
use crystal_forge.Derivation.{Derivation, DerivationType, as_id, dry_run_pending}
use crystal_forge.Derivation.Update.{row_or_error, has_path}
use crystal_forge.Derivation.Insert.{
  has_key, new_row, upsert, refresh, insert_derivation_with_target,
}
use crystal_forge.Derivation.Insert.Unique.{has_key-new_row, has_key-refresh}

module _ (key : Derivation → Bool) (new : Derivation) (f : Derivation → Derivation)
    (ds : List Derivation) where
  exists-upsert :
      key new ≡ true
      → ((d : Derivation) → key (f d) ≡ key d)
      → exists key (upsert key new f ds).0 ≡ true
  unfolding upsert
  exists-upsert k same = elim (Bool-cases (exists key ds)) [
    | inl e ↦ rw e (exists-update_where key key key f ds (λ d _ h. rw (same d) h) (λ d _ h. h) e)
    | inr e ↦ rw e (exists-snoc key ds new k)
  ]

  -- The row with the key is returned.
  pub upsert_row :
      key new ≡ true
      → ((d : Derivation) → key (f d) ≡ key d)
      → (d : Derivation) × ((upsert key new f ds).1 ≡ ok d)
        × (find key (upsert key new f ds).0 ≡ some d)
  unfolding upsert
  upsert_row k same =
      let (d, found) = find-IsSome key (upsert key new f ds).0 (exists-upsert k same) in
      (d, ap row_or_error found, found)

  -- What the update does not change of a row stays true of some row.
  pub exists-upsert_kept :
      (q : Derivation → Bool)
      → ((d : Derivation) → q (f d) ≡ q d)
      → exists q ds ≡ true
      → exists q (upsert key new f ds).0 ≡ true
  unfolding upsert
  exists-upsert_kept q same h = elim (Bool-cases (exists key ds)) [
    | inl e ↦ rw e (exists-update_where key q q f ds (λ d _ h. rw (same d) h) (λ d _ h. h) h)
    | inr e ↦ rw e (exists-append q ds (new ∷ []) h)
  ]

  -- A test that neither the new row nor an updated one passes.
  pub exists-upsert_none :
      (q : Derivation → Bool)
      → q new ≡ false
      → ((d : Derivation) → q (f d) ≡ q d)
      → exists q ds ≡ false
      → exists q (upsert key new f ds).0 ≡ false
  unfolding upsert
  exists-upsert_none q fails same h = elim (Bool-cases (exists key ds)) [
    | inl e ↦ rw e (exists-update_where_none key q f ds (λ d g. same d ∙ g) h)
    | inr e ↦ rw e (exists-append_none q ds (new ∷ []) h (unfold exists in rw fails refl))
  ]

module _ (id : ℕ) (c : Option ℕ) (name : String) (t : DerivationType) (target : Option String)
    (enabled : Option Bool) (now : ℕ) (ds : List Derivation) where
  pub insert_with_target_row :
      (d : Derivation) × ((insert_derivation_with_target id c name t target enabled now ds).1
        ≡ ok d)
      × (find (has_key c name t) (insert_derivation_with_target id c name t target enabled now ds).0
          ≡ some d)
  unfolding insert_derivation_with_target
  insert_with_target_row =
      upsert_row (has_key c name t) _ (refresh target now) ds
        (has_key-new_row id c t name (as_id dry_run_pending) now)
        (has_key-refresh c name t target now)

  pub insert_with_target_kept :
      (q : Derivation → Bool)
      → ((d : Derivation) → q (refresh target now d) ≡ q d)
      → exists q ds ≡ true
      → exists q (insert_derivation_with_target id c name t target enabled now ds).0 ≡ true
  unfolding insert_derivation_with_target
  insert_with_target_kept q same h =
      exists-upsert_kept (has_key c name t) _ (refresh target now) ds q same h

  pub insert_with_target_none :
      (path : String)
      → exists (has_path path) ds ≡ false
      → exists (has_path path) (insert_derivation_with_target id c name t target enabled now ds).0
        ≡ false
  unfolding insert_derivation_with_target new_row refresh
  insert_with_target_none path h =
      exists-upsert_none (has_key c name t) _ (refresh target now) ds (has_path path) refl
        (λ d. refl) h
