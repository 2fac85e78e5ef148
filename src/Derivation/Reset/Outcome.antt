-- ===== src/Derivation/Reset/Outcome.antt =====
-- What the four statements of `reset_non_terminal_derivations` do together to a row.
use crystal_forge.Prelude.{
  ℕ, ◌≤◌, ◌≡◌, refl, true, some, List, [], ◌∷◌, map, is_none, is_some, leb, if◌then◌else◌, arith,
}
use crystal_forge.Table.{update_where, find}
use crystal_forge.Table.Keys.{find-map}
use crystal_forge.Derivation.{
  Derivation, as_id, dry_run_pending, dry_run_failed, build_pending, build_failed, build_complete,
  has_id,
}
use crystal_forge.Derivation.Reset.{not_success, reset_non_terminal_derivations}

-- With five attempts or more the row fails, in the phase that its path shows; with fewer it is
-- rescheduled in that phase, unless its status is DryRunComplete or BuildComplete.
unfoldable pub reset_row : ℕ → Derivation → Derivation
unfolding not_success
reset_row now d =
    if leb 5 d.attempt_count
    then (record d {
      status_id = if is_none d.derivation_path then as_id dry_run_failed else as_id build_failed;
    })
    else if not_success d
    then (record d {
      status_id = if is_none d.derivation_path then as_id dry_run_pending else as_id build_pending;
      scheduled_at = some now;
    })
    else d

-- The four statements, in this order, have on every row of the table the effect of `reset_row`.
pub reset_non_terminal_derivations-eq-map :
    (now : ℕ) (ds : List Derivation)
    → reset_non_terminal_derivations now ds ≡ map (reset_row now) ds
unfolding reset_non_terminal_derivations reset_row update_where
reset_non_terminal_derivations-eq-map now [] = refl
reset_non_terminal_derivations-eq-map now (d ∷ ds) =
    ground (arith, reset_non_terminal_derivations-eq-map now ds)

reset_row_idem : (now : ℕ) (d : Derivation) → reset_row now (reset_row now d) ≡ reset_row now d
unfolding reset_row
reset_row_idem now d = ground arith

map-reset_row_idem :
    (now : ℕ) (ds : List Derivation)
    → map (reset_row now) (map (reset_row now) ds) ≡ map (reset_row now) ds
map-reset_row_idem now [] = refl
map-reset_row_idem now (d ∷ ds) = cc (reset_row_idem now d, map-reset_row_idem now ds)

-- A second reset at the same time changes nothing more.
pub reset_non_terminal_derivations_idem :
    (now : ℕ) (ds : List Derivation)
    → reset_non_terminal_derivations now (reset_non_terminal_derivations now ds)
      ≡ reset_non_terminal_derivations now ds
reset_non_terminal_derivations_idem now ds =
    simp reset_non_terminal_derivations-eq-map (map-reset_row_idem now ds)

id-reset_row : (now : ℕ) (d : Derivation) → (reset_row now d).id ≡ d.id
unfolding reset_row
id-reset_row now d = ground arith

find-reset :
    (now i : ℕ) (ds : List Derivation) (d : Derivation)
    → find (has_id i) ds ≡ some d
    → find (has_id i) (reset_non_terminal_derivations now ds) ≡ some (reset_row now d)
find-reset now i ds d h =
    rw reset_non_terminal_derivations-eq-map
      (find-map (λ (r : Derivation). r.id) i (reset_row now) ds (id-reset_row now) d h)

reset_row_spent :
    (now : ℕ) (d : Derivation)
    → 5 ≤ d.attempt_count
    → is_some d.derivation_path ≡ true
    → (reset_row now d).status_id ≡ as_id build_failed
unfolding reset_row
reset_row_spent now d h p = ground arith

-- A derivation whose build is complete, found by its id with a path and with five attempts or
-- more, is marked BuildFailed by the reset.
pub reset_fails_complete :
    (now i : ℕ) (ds : List Derivation) (d : Derivation)
    → find (has_id i) ds ≡ some d
    → d.status_id ≡ as_id build_complete
    → is_some d.derivation_path ≡ true
    → 5 ≤ d.attempt_count
    → (d' : Derivation) × (find (has_id i) (reset_non_terminal_derivations now ds) ≡ some d')
      × (d'.status_id ≡ as_id build_failed)
reset_fails_complete now i ds d found complete path spent =
    (reset_row now d, find-reset now i ds d found, reset_row_spent now d spent path)
