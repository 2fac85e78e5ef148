-- ===== src/CveScans/Results/Whitelist.antt =====
-- A vulnerability that has been whitelisted.
use crystal_forge.Prelude.{ℕ, ◌≡◌, String, Bool, true, Option, List, ◌&&◌, Result, arith}
use crystal_forge.Table.{exists}
use crystal_forge.Vulnix.{Scores, VulnixEntry}
use crystal_forge.CveScans.Results.{
  PackageVulnerability, ScanTables, concerns, found_again, whitelisted_again, save_scan_results,
}
use crystal_forge.CveScans.Results.Kept.{save_scan_results-HasRow}

-- The vulnerability is there, and it is whitelisted.
abbrev pub hidden : ℕ → String → PackageVulnerability → Bool
hidden d c v = concerns d c v && v.is_whitelisted

module _ (d : ℕ) (c : String) where
  hidden-found_again :
      (now : ℕ) (v : PackageVulnerability)
      → hidden d c v ≡ true
      → hidden d c (found_again now v) ≡ true
  unfolding found_again
  hidden-found_again now v h = h

  hidden-whitelisted_again :
      (now : ℕ) (v : PackageVulnerability)
      → hidden d c v ≡ true
      → hidden d c (whitelisted_again now v) ≡ true
  unfolding whitelisted_again
  hidden-whitelisted_again now v h = ground arith

  -- A vulnerability of a package that is once whitelisted stays whitelisted, whatever report is saved
  -- later, also one that lists it as affecting the package.
  pub whitelisted_for_ever :
      (scores : Scores) {D : Type 0} (from_f32 : scores.Score → Option D)
      (store_path_of : String → Result String) (scan_id : ℕ) (entries : List (VulnixEntry scores))
      (duration : Option ℕ) (id now : ℕ) (db : ScanTables D)
      → exists (hidden d c) db.package_vulnerabilities ≡ true
      → let end =
          save_scan_results scores from_f32 store_path_of scan_id entries duration id now db in
        exists (hidden d c) end.0.package_vulnerabilities ≡ true
  whitelisted_for_ever scores from_f32 store_path_of scan_id entries duration id now db h =
      save_scan_results-HasRow (hidden d c) hidden-found_again hidden-whitelisted_again scores
        from_f32 store_path_of scan_id entries duration id now db h
