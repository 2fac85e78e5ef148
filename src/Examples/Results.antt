-- ===== src/Examples/Results.antt =====
-- Reports of vulnix that are saved, and a scan of a path that is gone.
use crystal_forge.Prelude.{
  ℕ, ◌*◌, ◌≡◌, refl, ◌⊎◌, String, true, false, none, some, List, [], ◌∷◌, ◌++◌, Result, ok, err,
  message, leb, ltb,
}
use crystal_forge.Table.{exists, exists, find}
use crystal_forge.Derivation.{as_id, dry_run_complete, Derivation, has_id}
use crystal_forge.Build.Claim.{claimable}
use crystal_forge.Vulnix.{Scores, VulnixEntry}
use crystal_forge.CveScans.{CveScan, needs_cve_scan}
use crystal_forge.CveScans.Results.{PackageVulnerability, ScanTables, save_scan_results}
use crystal_forge.CveScans.Results.Whitelist.{hidden, whitelisted_for_ever}
use crystal_forge.CveScans.Results.Saved.{names, is_ok, save_scan_results_lem}
use crystal_forge.CveScans.Scanning.{missing, scan_derivation, scan_missing_path}
use crystal_forge.Examples.Rows.{system_row}

-- Scores in tenths.
abbrev tenths : Scores
tenths = record { Score = ℕ; at_least = λ s n. leb (10 * n) s; is_positive = λ s. ltb 0 s }

abbrev openssl : VulnixEntry tenths
openssl = record {
  name = "openssl-3.0";
  pname = "openssl";
  version = "3.0";
  affected_by = "CVE-1" ∷ [];
  whitelisted = "CVE-2" ∷ [];
  derivation = "/nix/store/def-openssl.drv";
  cvssv3_basescore = λ c. some 98;
}

abbrev store_path_of : String → Result String
store_path_of drv = ok "/nix/store/def-openssl"

abbrev listed : PackageVulnerability
listed = record {
  derivation_id = 9;
  cve_id = "CVE-1";
  detection_method = "vulnix";
  is_whitelisted = true;
  whitelist_reason = some "vulnix whitelist";
  updated_at = 50;
}

abbrev gone : Derivation
gone = record (system_row 3 10 1) { store_path = some "/nix/store/abc-gray" }

abbrev tables : ScanTables ℕ
tables = record {
  cve_scans = [];
  derivations = gone ∷ [];
  scan_packages = [];
  cves = [];
  package_vulnerabilities = listed ∷ [];
}

whitelisted_example :
    let end =
      save_scan_results tenths (λ s. some s) store_path_of 1 (openssl ∷ []) (some 5) 9 100 tables in
    exists (hidden 9 "CVE-1") end.0.package_vulnerabilities ≡ true
unfolding exists
whitelisted_example =
    whitelisted_for_ever 9 "CVE-1" tenths (λ s. some s) store_path_of 1 (openssl ∷ []) (some 5) 9
      100 tables refl

saved_example :
    let end =
      save_scan_results tenths
        (λ s. some s)
        store_path_of
        1
        ([] ++ openssl ∷ [])
        (some 5)
        9
        100
        tables in
    ((end.1 ≡ ok tt) × (exists (names "CVE-2") end.0.package_vulnerabilities ≡ true))
    ⊎ ((is_ok end.1 ≡ false) × (end.0 ≡ tables))
unfolding exists
saved_example =
    save_scan_results_lem "CVE-2" tenths (λ s. some s) store_path_of 1 [] [] openssl (some 5) 9 100
      tables refl

missing_example :
    let end =
      scan_derivation tenths
        (λ s. some s)
        store_path_of
        none
        missing
        (err (message "vulnix"))
        1
        2
        9
        100
        200
        gone
        tables in
    (row : Derivation) × (find (has_id 3) end.0.derivations ≡ some row)
    × (row.status_id ≡ as_id dry_run_complete)
    × (row.store_path ≡ some "/nix/store/abc-gray")
    × (claimable 3 row ≡ true)
    × ((scans : List CveScan) → needs_cve_scan scans row ≡ false)
    × (end.0.cve_scans ≡ [])
    × (end.1 ≡ ok tt)
unfolding find exists
missing_example =
    scan_missing_path tenths (λ s. some s) store_path_of none (err (message "vulnix")) 1 2 9 100 200
      gone "/nix/store/abc-gray" tables refl refl refl refl
