-- ===== src/Build/Recovery.antt =====
-- The cleanup of stale reservations: it keeps the invariant, and frees what a crashed worker held.
use crystal_forge.Prelude.{
  ℕ, ◌≡◌, refl, sym, true, false, inl, inr, ◌⊎◌, List, [], ◌∷◌, ◌==◌, All, arith, ◌&&◌, not, ◌∙◌,
}
use crystal_forge.Table.{update_where, delete_where, select_where, exists, contains}
use crystal_forge.Table.Rows.{All-update_where, exists-delete_where}
use crystal_forge.Table.Keys.{IsUnique, IsUnique-update_where, IsUnique-delete_where}
use crystal_forge.Derivation.{Derivation, has_id, as_id, build_in_progress}
use crystal_forge.Build.{
  Database, BuildReservation, is_reserved, reserves, is_stale, derivation_ids, release_columns,
  release_all, cleanup_stale_reservations,
}
use crystal_forge.Build.Orphans.{IsHeld, Inv, row_id, target_id, exists-ids}

module _ (rs : List BuildReservation) where
  -- Held, or among the ids still to be released.
  abbrev HeldOr : List ℕ → Derivation → Type 0
  HeldOr is d =
      d.status_id ≡ as_id build_in_progress
      → (is_reserved d.id rs ≡ true) ⊎ (contains is d.id ≡ true)

  release-HeldOr :
      (i : ℕ) (is : List ℕ) (d : Derivation) → HeldOr (i ∷ is) d → (d.id == i) ≡ false → HeldOr is d
  unfolding contains
  release-HeldOr i is d h miss busy = ground (arith, h busy)

  HeldOr-nil : (d : Derivation) → HeldOr [] d → IsHeld rs d
  unfolding contains
  HeldOr-nil d h busy = ground (arith, h busy)

  release_all-IsHeld :
      (is : List ℕ) (ds : List Derivation)
      → All (HeldOr is) ds
      → All (IsHeld rs) (release_all is ds)
  unfolding release_all
  release_all-IsHeld [] [] h = tt
  release_all-IsHeld [] (d ∷ ds) h = (HeldOr-nil d h.0, release_all-IsHeld [] ds h.1)
  release_all-IsHeld (i ∷ is) ds h =
      release_all-IsHeld is (update_where (has_id i) release_columns ds) (
        All-update_where (HeldOr (i ∷ is)) (HeldOr is) (has_id i) release_columns ds
          (λ d _ _ busy. absurd (omega arith)) (λ d k miss. release-HeldOr i is d k miss) h)

ids-release_all :
    (is : List ℕ) (ds : List Derivation) → IsUnique row_id ds → IsUnique row_id (release_all is ds)
unfolding release_all
ids-release_all [] ds u = u
ids-release_all (i ∷ is) ds u = ids-release_all is (update_where (has_id i) release_columns ds) (
    IsUnique-update_where row_id (has_id i) release_columns ds (λ d. unfold release_columns in refl)
      u)

module _ (threshold now : ℕ) where
  stale_or_kept :
      (rs : List BuildReservation) (ds : List Derivation)
      → All (IsHeld rs) ds
      → All
          (HeldOr
            (delete_where (is_stale threshold now) rs)
            (derivation_ids (select_where (is_stale threshold now) rs)))
          ds
  stale_or_kept rs [] h = tt
  stale_or_kept rs (d ∷ ds) h = (
    λ busy. elim (exists-delete_where (reserves d.id) (is_stale threshold now) rs (h.0 busy)) [
      | inl kept ↦ inl kept
      | inr stale ↦ inr (sym (exists-ids d.id (select_where (is_stale threshold now) rs)) ∙ stale)
    ],
    stale_or_kept rs ds h.1,
  )

  pub cleanup-Inv : (db : Database) → Inv db → Inv (cleanup_stale_reservations threshold now db).0
  unfolding cleanup_stale_reservations
  cleanup-Inv db inv =
      let live = delete_where (is_stale threshold now) db.reservations in
      let ids = derivation_ids (select_where (is_stale threshold now) db.reservations) in
      record {
        ids = ids-release_all ids db.derivations inv.ids;
        reserved_once =
            IsUnique-delete_where target_id (is_stale threshold now) db.reservations
              inv.reserved_once;
        held =
            release_all-IsHeld live ids db.derivations
              (stale_or_kept db.reservations db.derivations inv.held);
      }

  live_holder :
      (i : ℕ) (rs : List BuildReservation)
      → is_reserved i (delete_where (is_stale threshold now) rs) ≡ true
      → exists
          (λ r. reserves i r && not (is_stale threshold now r))
          (delete_where (is_stale threshold now) rs)
        ≡ true
  unfolding exists delete_where
  live_holder i [] h = cc
  live_holder i (r ∷ rs) h = ground (arith, live_holder i rs)

  map-IsHeld :
      (rs : List BuildReservation) (ds : List Derivation)
      → All (IsHeld (delete_where (is_stale threshold now) rs)) ds
      → All
          (λ d.
            d.status_id ≡ as_id build_in_progress
            → exists
                (λ r. reserves d.id r && not (is_stale threshold now r))
                (delete_where (is_stale threshold now) rs)
              ≡ true)
          ds
  map-IsHeld rs [] h = tt
  map-IsHeld rs (d ∷ ds) h = (λ busy. live_holder d.id rs (h.0 busy), map-IsHeld rs ds h.1)

  -- From a database with the invariant, after a cleanup every derivation in the status
  -- BuildInProgress has a reservation whose heartbeat is within the threshold: what a dead worker
  -- held is free again.
  pub cleanup_recovers :
      (db : Database)
      → Inv db
      → let db' = (cleanup_stale_reservations threshold now db).0 in
        All
          (λ d.
            d.status_id ≡ as_id build_in_progress
            → exists (λ r. reserves d.id r && not (is_stale threshold now r)) db'.reservations
              ≡ true)
          db'.derivations
  unfolding cleanup_stale_reservations
  cleanup_recovers db inv =
      map-IsHeld db.reservations
        (release_all (derivation_ids (select_where (is_stale threshold now) db.reservations))
          db.derivations)
        (unfold cleanup_stale_reservations in (cleanup-Inv db inv).held)
