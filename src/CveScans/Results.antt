-- ===== src/CveScans/Results.antt =====
-- queries/cve_scans.rs: `save_scan_results`, which turns a report into rows of five tables in one
-- transaction. The decimal type of a stored score is a parameter, as is the store path that
-- nix-store gives for a derivation.
pub mod Kept
pub mod Whitelist
pub mod Saved
use crystal_forge.Prelude.{
  ℕ, ◌+◌, String, Bool, true, false, Option, none, some, List, [], ◌∷◌, ◌++◌, ◌&&◌, not, ◌==◌,
  Result, ok, err, unique_violation, coalesce, if◌then◌else◌, str_eq,
}
use crystal_forge.Table.{update_where, exists}
use crystal_forge.Derivation.{Derivation, package_type}
use crystal_forge.Derivation.Insert.{has_key, new_row, upsert}
use crystal_forge.Derivation.Update.{has_path}
use crystal_forge.Vulnix.{Scores, VulnixEntry, calculate_stats}
use crystal_forge.CveScans.{CveScan, complete_cve_scan}

pub record ScanPackage : Type 0 where
  pub scan_id : ℕ
  pub derivation_id : ℕ
  pub is_runtime_dependency : Bool
  pub dependency_depth : ℕ

pub record Cve (D : Type 0) : Type 0 where
  pub id : String
  pub cvss_v3_score : Option D
  pub updated_at : ℕ

pub record PackageVulnerability : Type 0 where
  pub derivation_id : ℕ
  pub cve_id : String
  pub detection_method : String
  pub is_whitelisted : Bool
  pub whitelist_reason : Option String
  pub updated_at : ℕ

pub record ScanTables (D : Type 0) : Type 0 where
  pub cve_scans : List CveScan
  pub derivations : List Derivation
  pub scan_packages : List ScanPackage
  pub cves : List (Cve D)
  pub package_vulnerabilities : List PackageVulnerability

-- SET pname, version, status_id = 11
package_columns : String → String → Derivation → Derivation
package_columns pname version d = record d {
  pname = some pname;
  version = some version;
  status_id = 11;
}

-- A row that is inserted must not have the path of another one (migration 0020); on a conflict of
-- the key the path is not written.
abbrev pub written :
    (Derivation → Bool)
    → String
    → (List Derivation → List Derivation × Result Derivation)
    → List Derivation
    → List Derivation × Result Derivation
written key path upsert_row ds =
    if not (exists key ds) && exists (has_path path) ds
    then (ds, err unique_violation)
    else upsert_row ds

unfoldable pub upsert_package :
    ℕ
    → String
    → String
    → String
    → String
    → String
    → ℕ
    → List Derivation
    → List Derivation × Result Derivation
unfolding has_key new_row upsert package_columns
upsert_package id name derivation pname version store_path now =
    let row = new_row id none package_type name 11 now in
    let new = record row {
      derivation_path = some derivation;
      pname = some pname;
      version = some version;
      store_path = some store_path;
    } in
    written (has_key none name package_type) derivation
      (upsert (has_key none name package_type) new (package_columns pname version))

abbrev pub links : ℕ → ℕ → ScanPackage → Bool
links scan_id derivation_id p = (p.scan_id == scan_id) && (p.derivation_id == derivation_id)

unfoldable pub link_package : ℕ → ℕ → List ScanPackage → List ScanPackage
link_package scan_id derivation_id ps =
    if exists (links scan_id derivation_id) ps
    then ps
    else ps
      ++ record {
        scan_id = scan_id;
        derivation_id = derivation_id;
        is_runtime_dependency = true;
        dependency_depth = 0;
      }
        ∷ []

abbrev pub cve_has_id : {D : Type 0} → String → Cve D → Bool
cve_has_id i c = str_eq c.id i

-- INSERT INTO cves ... ON CONFLICT (id): a score replaces the stored one, and a missing one keeps it.
unfoldable pub upsert_cve : {D : Type 0} → String → Option D → ℕ → List (Cve D) → List (Cve D)
upsert_cve cve_id score now cves =
    if exists (cve_has_id cve_id) cves
    then update_where (cve_has_id cve_id)
        (λ c. record c { cvss_v3_score = coalesce score c.cvss_v3_score; updated_at = now }) cves
    else cves ++ record { id = cve_id; cvss_v3_score = score; updated_at = now } ∷ []

-- The unique key (derivation_id, cve_id).
abbrev pub concerns : ℕ → String → PackageVulnerability → Bool
concerns derivation_id cve_id v = (v.derivation_id == derivation_id) && str_eq v.cve_id cve_id

unfoldable pub found_vulnerability : ℕ → String → ℕ → PackageVulnerability
found_vulnerability derivation_id cve_id now = record {
  derivation_id = derivation_id;
  cve_id = cve_id;
  detection_method = "vulnix";
  is_whitelisted = false;
  whitelist_reason = none;
  updated_at = now;
}

-- SET detection_method, updated_at
unfoldable pub found_again : ℕ → PackageVulnerability → PackageVulnerability
found_again now v = record v { detection_method = "vulnix"; updated_at = now }

-- SET detection_method, is_whitelisted, whitelist_reason, updated_at
unfoldable pub whitelisted_again : ℕ → PackageVulnerability → PackageVulnerability
whitelisted_again now v = record v {
  detection_method = "vulnix";
  is_whitelisted = true;
  whitelist_reason = some "vulnix whitelist";
  updated_at = now;
}

unfoldable pub upsert_vulnerability :
    ℕ → String → ℕ → List PackageVulnerability → List PackageVulnerability
unfolding found_vulnerability found_again
upsert_vulnerability derivation_id cve_id now vs =
    if exists (concerns derivation_id cve_id) vs
    then update_where (concerns derivation_id cve_id) (found_again now) vs
    else vs ++ found_vulnerability derivation_id cve_id now ∷ []

unfoldable pub upsert_whitelisted :
    ℕ → String → ℕ → List PackageVulnerability → List PackageVulnerability
unfolding found_vulnerability whitelisted_again
upsert_whitelisted derivation_id cve_id now vs =
    if exists (concerns derivation_id cve_id) vs
    then update_where (concerns derivation_id cve_id) (whitelisted_again now) vs
    else vs ++ whitelisted_again now (found_vulnerability derivation_id cve_id now) ∷ []

module _ (scores : Scores) {D : Type 0} (from_f32 : scores.Score → Option D) where
  -- entry.cvssv3_basescore.get(cve_id), as a decimal
  abbrev pub score_of : VulnixEntry scores → String → Option D
  score_of entry cve_id = elim (entry.cvssv3_basescore cve_id) [ none ↦ none | some s ↦ from_f32 s ]

  unfoldable pub save_affected :
      VulnixEntry scores → ℕ → ℕ → List String → ScanTables D → ScanTables D
  unfolding upsert_cve upsert_vulnerability
  save_affected entry package_id now [] db = db
  save_affected entry package_id now (cve_id ∷ cve_ids) db =
      save_affected entry package_id now cve_ids (record db {
        cves = upsert_cve cve_id (score_of entry cve_id) now db.cves;
        package_vulnerabilities =
            upsert_vulnerability package_id cve_id now db.package_vulnerabilities;
      })

  unfoldable pub save_whitelisted :
      VulnixEntry scores → ℕ → ℕ → List String → ScanTables D → ScanTables D
  unfolding upsert_cve upsert_whitelisted
  save_whitelisted entry package_id now [] db = db
  save_whitelisted entry package_id now (cve_id ∷ cve_ids) db =
      save_whitelisted entry package_id now cve_ids (record db {
        cves = upsert_cve cve_id (score_of entry cve_id) now db.cves;
        package_vulnerabilities =
            upsert_whitelisted package_id cve_id now db.package_vulnerabilities;
      })

  -- The rest of an entry, once its package has a row.
  unfoldable pub save_package : ℕ → VulnixEntry scores → ℕ → ℕ → ScanTables D → ScanTables D
  unfolding save_affected save_whitelisted link_package
  save_package scan_id entry package_id now db =
      save_whitelisted entry package_id now entry.whitelisted (
        save_affected entry package_id now entry.affected_by
          (record db { scan_packages = link_package scan_id package_id db.scan_packages }))

  -- One entry: an error of nix-store or of the INSERT drops the transaction.
  unfoldable pub save_entry :
      (String → Result String)
      → ℕ
      → VulnixEntry scores
      → ℕ
      → ℕ
      → ScanTables D
      → Result (ScanTables D)
  unfolding upsert_package save_package
  save_entry store_path_of scan_id entry id now db = elim (store_path_of entry.derivation) [
    | err e ↦ err e
    | ok store_path ↦
        let (ds, answer) =
          upsert_package id entry.name entry.derivation entry.pname entry.version store_path now
            db.derivations in
        elim answer [
          | err e ↦ err e
          | ok row ↦ ok (save_package scan_id entry row.id now (record db { derivations = ds }))
        ]
  ]

  abbrev pub next_entry :
      Result (ScanTables D) → (ScanTables D → Result (ScanTables D)) → Result (ScanTables D)
  next_entry (ok db) rest = rest db
  next_entry (err e) rest = err e

  -- The loop; `id` is the next value of the sequence of derivations.
  unfoldable pub save_entries :
      (String → Result String)
      → ℕ
      → List (VulnixEntry scores)
      → ℕ
      → ℕ
      → ScanTables D
      → Result (ScanTables D)
  unfolding save_entry
  save_entries store_path_of scan_id [] id now db = ok db
  save_entries store_path_of scan_id (entry ∷ entries) id now db =
      next_entry (save_entry store_path_of scan_id entry id now db)
        (λ db'. save_entries store_path_of scan_id entries (id + 1) now db')

  abbrev pub commit_or_drop :
      ScanTables D → Result (ScanTables D) → ScanTables D × Result (Unit {0})
  commit_or_drop old (ok db) = (db, ok tt)
  commit_or_drop old (err e) = (old, err e)

  unfoldable pub save_scan_results :
      (String → Result String)
      → ℕ
      → List (VulnixEntry scores)
      → Option ℕ
      → ℕ
      → ℕ
      → ScanTables D
      → ScanTables D × Result (Unit {0})
  unfolding save_entries
  save_scan_results store_path_of scan_id entries duration id now db =
      let stats = calculate_stats scores entries in
      let scans =
        complete_cve_scan scan_id stats.total_packages stats.total_vulnerabilities
          stats.critical_count stats.high_count stats.medium_count stats.low_count duration now
          db.cve_scans in
      commit_or_drop db
        (save_entries store_path_of scan_id entries id now (record db { cve_scans = scans }))
