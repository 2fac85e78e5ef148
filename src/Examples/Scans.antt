-- ===== src/Examples/Scans.antt =====
-- A scan that fails, and a report with two CVEs.
use crystal_forge.Prelude.{
  ℕ, ◌+◌, ◌*◌, ◌≤◌, ◌≡◌, refl, some, none, List, [], ◌∷◌, ◌&&◌, ◌||◌, not, ◌==◌, leb, ltb, All,
  is_some, length,
}
use crystal_forge.Table.{exists, update_where}
use crystal_forge.Derivation.{Derivation, has_status, build_complete}
use crystal_forge.CveScans.{
  CveScan, create_cve_scan, mark_scan_in_progress, mark_cve_scan_failed, needs_cve_scan,
  completed_for,
}
use crystal_forge.CveScans.Rounds.{
  ScansReach, no_scans, step, start, fail, ScansReach-needs_cve_scan,
}
use crystal_forge.Vulnix.{Scores, VulnixEntry, calculate_stats}
use crystal_forge.Vulnix.Totals.{affected_total, listed_total, calculate_stats_lem}
use crystal_forge.Examples.Rows.{system_row}

abbrev built : Derivation
built = record (system_row 3 10 1) { store_path = some "/nix/store/abc-gray" }

abbrev started : List CveScan
started = mark_scan_in_progress 1 (create_cve_scan 1 3 "vulnix" none 100 [])

abbrev failed_once : List CveScan
failed_once = mark_cve_scan_failed 2 built 200 started

failed_once-ScansReach : ScansReach failed_once
unfolding exists update_where mark_scan_in_progress create_cve_scan
failed_once-ScansReach =
    step (step no_scans (start 1 3 "vulnix" none 100 refl refl)) (fail 2 built 200 refl refl)

scans_example :
    All (λ s. s.attempts ≤ 2) failed_once
    × (needs_cve_scan failed_once built ≡ (
        (has_status build_complete built || built.status_id == 11)
        && is_some built.store_path
        && not (exists (completed_for built.id) failed_once)))
scans_example = ScansReach-needs_cve_scan built failed_once-ScansReach

-- Scores in tenths.
abbrev tenths : Scores
tenths = record { Score = ℕ; at_least = λ s n. leb (10 * n) s; is_positive = λ s. ltb 0 s }

abbrev entry : VulnixEntry tenths
entry = record {
  name = "openssl-3.0";
  pname = "openssl";
  version = "3.0";
  affected_by = "CVE-1" ∷ "CVE-2" ∷ [];
  whitelisted = "CVE-2" ∷ [];
  derivation = "/nix/store/def-openssl.drv";
  cvssv3_basescore = λ c. some 98;
}

stats_example :
    let stats = calculate_stats tenths (entry ∷ []) in
    (stats.total_vulnerabilities + stats.unknown_count ≡ affected_total tenths (entry ∷ []))
    × (stats.total_vulnerabilities
        ≡ stats.critical_count + stats.high_count + stats.medium_count + stats.low_count)
    × (stats.total_cves ≤ listed_total tenths (entry ∷ []))
    × (stats.total_packages ≡ length (entry ∷ []))
stats_example = calculate_stats_lem tenths (entry ∷ [])
