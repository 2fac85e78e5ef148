-- ===== src/CveScans/Scanning.antt =====
-- builder/mod.rs: `scan_derivations`, one round of the scanner on the derivation that it is given.
-- Whether the store path is there and what vulnix answers are arguments; the status shown to the
-- operator is left out.
use crystal_forge.Prelude.{
  ℕ, ◌-◌, ◌≡◌, refl, ap, ◌∙◌, String, true, false, Option, some, List, ==_refl, Result, ok, err,
  arith,
}
use crystal_forge.Table.{find}
use crystal_forge.Derivation.{Derivation, has_id, as_id, dry_run_complete, is_terminal}
use crystal_forge.Derivation.Update.{update_derivation_status, duration_ms, fits_column, path_taken}
use crystal_forge.Derivation.UpdateLaws.{updated_row, update_derivation_status_found, is_written}
use crystal_forge.Build.Claim.{claimable}
use crystal_forge.Vulnix.{Scores, VulnixEntry}
use crystal_forge.CveScans.{
  CveScan, create_cve_scan, mark_scan_in_progress, mark_cve_scan_failed, needs_cve_scan,
}
use crystal_forge.CveScans.Results.{ScanTables, save_scan_results}

-- The answer of try_exists on the store path.
pub data PathState : Type 0 where
  present missing unknown : PathState

abbrev forget {ℓ} : {A : Type ℓ} → Result A → Result (Unit {0})
forget (ok a) = ok tt
forget (err e) = err e

module _ (scores : Scores) {D : Type 0} (from_f32 : scores.Score → Option D)
    (store_path_of : String → Result String) (vulnix_version : Option String) where
  -- After the scan: the report is saved, or the failure is recorded.
  abbrev end_scan :
      Result (List (VulnixEntry scores))
      → ℕ
      → ℕ
      → ℕ
      → ℕ
      → ℕ
      → Derivation
      → ScanTables D
      → ScanTables D × Result (Unit {0})
  end_scan (ok entries) scan_id new_id id now later d db =
      save_scan_results scores from_f32 store_path_of scan_id entries (some (later - now)) id later
        db
  end_scan (err e) scan_id new_id id now later d db =
      (record db { cve_scans = mark_cve_scan_failed new_id d later db.cve_scans }, ok tt)

  -- The store path is not there.
  unfoldable pub mark_missing : ℕ → Derivation → ScanTables D → ScanTables D × Result (Unit {0})
  unfolding update_derivation_status
  mark_missing now d db =
      let (ds, answer) =
        update_derivation_status d.id dry_run_complete d.derivation_path
          (some "Missing Nix Store Path") d.store_path now db.derivations in
      (record db { derivations = ds }, forget answer)

  -- By the store path of the derivation and what is found there.
  abbrev pub scan_at :
      Option String
      → PathState
      → Result (List (VulnixEntry scores))
      → ℕ
      → ℕ
      → ℕ
      → ℕ
      → ℕ
      → Derivation
      → ScanTables D
      → ScanTables D × Result (Unit {0})
  scan_at (some path) present outcome scan_id new_id id now later d db =
      let created = create_cve_scan scan_id d.id "vulnix" vulnix_version now db.cve_scans in
      end_scan outcome scan_id new_id id now later d
        (record db { cve_scans = mark_scan_in_progress scan_id created })
  scan_at (some path) missing outcome scan_id new_id id now later d db = mark_missing now d db
  scan_at _ _ outcome scan_id new_id id now later d db = (db, ok tt)

  -- `scan_id` and `new_id` are fresh ids of scans, `id` the next one of the derivations.
  unfoldable pub scan_derivation :
      PathState
      → Result (List (VulnixEntry scores))
      → ℕ
      → ℕ
      → ℕ
      → ℕ
      → ℕ
      → Derivation
      → ScanTables D
      → ScanTables D × Result (Unit {0})
  unfolding mark_missing save_scan_results
  scan_derivation state outcome scan_id new_id id now later d =
      scan_at d.store_path state outcome scan_id new_id id now later d

  missing_columns :
      (now : ℕ) (d : Derivation)
      → let row =
          updated_row dry_run_complete d.derivation_path
            (some "Missing Nix Store Path")
            d.store_path
            now
            d in
        (claimable d.id row ≡ true) × ((scans : List CveScan) → needs_cve_scan scans row ≡ false)
  unfolding claimable needs_cve_scan
  missing_columns now d = (let same = ==_refl d.id in ground arith, λ scans. refl)

  scan_missing :
      (outcome : Result (List (VulnixEntry scores))) (scan_id new_id id now later : ℕ)
      (d : Derivation) (path : String) (db : ScanTables D)
      → d.store_path ≡ some path
      → scan_derivation missing outcome scan_id new_id id now later d db ≡ mark_missing now d db
  unfolding scan_derivation
  scan_missing outcome scan_id new_id id now later d path db set =
      ap (λ o. scan_at o missing outcome scan_id new_id id now later d db) set

  written_again :
      (now : ℕ) (d : Derivation) (ds : List Derivation)
      → fits_column (duration_ms now d.started_at) ≡ true
      → path_taken d.id d.derivation_path ds ≡ false
      → is_written d.id dry_run_complete d.derivation_path
          (some "Missing Nix Store Path")
          d.store_path
          now
          ds
          d
        ≡ true
  unfolding is_terminal
  written_again now d ds fits free = rw fits rw free refl

  -- A derivation of the table whose store path is set but is not on the disk, whose milliseconds
  -- since the start fit 32 bits, and whose derivation path no other row has, goes back to the status
  -- DryRunComplete, in which a worker can claim it for a build, and keeps its paths; it is then not
  -- offered for a scan, whatever scans there are, and the scans are as they were.
  pub scan_missing_path :
      (outcome : Result (List (VulnixEntry scores))) (scan_id new_id id now later : ℕ)
      (d : Derivation) (path : String) (db : ScanTables D)
      → d.store_path ≡ some path
      → find (has_id d.id) db.derivations ≡ some d
      → fits_column (duration_ms now d.started_at) ≡ true
      → path_taken d.id d.derivation_path db.derivations ≡ false
      → let end = scan_derivation missing outcome scan_id new_id id now later d db in
        (row : Derivation) × (find (has_id d.id) end.0.derivations ≡ some row)
        × (row.status_id ≡ as_id dry_run_complete)
        × (row.store_path ≡ some path)
        × (claimable d.id row ≡ true)
        × ((scans : List CveScan) → needs_cve_scan scans row ≡ false)
        × (end.0.cve_scans ≡ db.cve_scans)
        × (end.1 ≡ ok tt)
  unfolding mark_missing
  scan_missing_path outcome scan_id new_id id now later d path db set found fits free =
      let error = some "Missing Nix Store Path" in
      let (answer, updated, others) =
        update_derivation_status_found d.id dry_run_complete d.derivation_path error d.store_path
          now db.derivations d found (written_again now d db.derivations fits free) in
      let (again, done) = missing_columns now d in
      let same = scan_missing outcome scan_id new_id id now later d path db set in
      (
        updated_row dry_run_complete d.derivation_path error d.store_path now d,
        ap (λ x. find (has_id d.id) x.0.derivations) same ∙ updated,
        refl,
        rw set refl,
        again,
        done,
        ap (λ x. x.0.cve_scans) same,
        ap (λ x. x.1) same ∙ ap forget answer,
      )
