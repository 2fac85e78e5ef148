-- ===== src/CveScans/Rounds.antt =====
-- The scan loop as steps on the records, and which derivations are offered to it.
use mathlib.Core.Path.{subst}
use crystal_forge.Prelude.{
  ℕ, ◌≤◌, ◌≡◌, refl, sym, String, false, Option, List, [], ◌∷◌, ◌&&◌, ◌||◌, ◌==◌, not, is_some, All,
  All-map, arith,
}
use crystal_forge.Table.{exists}
use crystal_forge.Derivation.{Derivation, has_status, build_complete}
use crystal_forge.CveScans.{
  CveScan, scan_has_id, create_cve_scan, mark_scan_in_progress, complete_cve_scan,
  mark_cve_scan_failed, completed_for, exhausted_for, needs_cve_scan,
}
use crystal_forge.CveScans.Attempts.{
  IsYoung, ScansInv, create-ScansInv, start-ScansInv, fail-ScansInv, complete-ScansInv,
}

-- What the scan loop does to the records: it starts a scan under a new id, it stops right after
-- making the record, it completes a scan, it marks a failure.
pub data ScansStep : List CveScan → List CveScan → Type 0 where
  start :
      {scans scans' : List CveScan} (id d : ℕ) (name : String) (version : Option String) (now : ℕ)
      → exists (scan_has_id id) scans ≡ false
      → scans' ≡ mark_scan_in_progress id (create_cve_scan id d name version now scans)
      → ScansStep scans scans'
  create :
      {scans scans' : List CveScan} (id d : ℕ) (name : String) (version : Option String) (now : ℕ)
      → exists (scan_has_id id) scans ≡ false
      → scans' ≡ create_cve_scan id d name version now scans
      → ScansStep scans scans'
  complete :
      {scans scans' : List CveScan} (i p v c h m l : ℕ) (duration : Option ℕ) (now : ℕ)
      → scans' ≡ complete_cve_scan i p v c h m l duration now scans
      → ScansStep scans scans'
  fail :
      {scans scans' : List CveScan} (new_id : ℕ) (target : Derivation) (now : ℕ)
      → exists (scan_has_id new_id) scans ≡ false
      → scans' ≡ mark_cve_scan_failed new_id target now scans
      → ScansStep scans scans'

pub data ScansReach : List CveScan → Type 0 where
  no_scans : ScansReach []
  step :
      {scans scans' : List CveScan} → ScansReach scans → ScansStep scans scans' → ScansReach scans'

ScansStep-ScansInv :
    {scans scans' : List CveScan} → ScansStep scans scans' → ScansInv scans → ScansInv scans'
ScansStep-ScansInv (start id d name version now fresh e) inv =
    subst ScansInv (sym e) (start-ScansInv id d name version now _ fresh inv)
ScansStep-ScansInv (create id d name version now fresh e) inv =
    subst ScansInv (sym e) (create-ScansInv id d name version now _ fresh inv)
ScansStep-ScansInv (complete i p v c h m l duration now e) inv =
    subst ScansInv (sym e) (complete-ScansInv i p v c h m l duration now _ inv)
ScansStep-ScansInv (fail new_id target now fresh e) inv =
    subst ScansInv (sym e) (fail-ScansInv new_id target now _ fresh inv)

ScansReach-ScansInv : {scans : List CveScan} → ScansReach scans → ScansInv scans
ScansReach-ScansInv no_scans = record { unique = tt; young = tt }
ScansReach-ScansInv (step r s) = ScansStep-ScansInv s (ScansReach-ScansInv r)

young-not-exhausted :
    (d : ℕ) (scans : List CveScan) → All IsYoung scans → exists (exhausted_for d) scans ≡ false
unfolding exists
young-not-exhausted d [] h = refl
young-not-exhausted d (s ∷ ss) h = ground (arith, h.0.at_most, young-not-exhausted d ss h.1)

-- Every record is tried at most twice, whatever the scan loop does, and so the limit of five
-- attempts never holds a derivation back: one that is built, with a store path and no completed
-- scan, is offered again after any number of failures.
pub ScansReach-needs_cve_scan :
    {scans : List CveScan} (d : Derivation)
    → ScansReach scans
    → All (λ s. s.attempts ≤ 2) scans
      × (needs_cve_scan scans d ≡ (
          (has_status build_complete d || d.status_id == 11)
          && is_some d.store_path
          && not (exists (completed_for d.id) scans)))
unfolding needs_cve_scan
ScansReach-needs_cve_scan {scans} d r =
    let inv = ScansReach-ScansInv r in
    (
      All-map IsYoung (λ s. s.attempts ≤ 2) scans (λ s y. y.at_most) inv.young,
      ground (arith, young-not-exhausted d.id scans inv.young),
    )
