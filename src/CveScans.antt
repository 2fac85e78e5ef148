-- ===== src/CveScans.antt =====
-- packages/default/src/queries/cve_scans.rs: the life of a scan record, and which derivations are
-- offered for a scan. A record is identified by a number that stands for its UUID.
pub mod Attempts
pub mod Rounds
pub mod Results
pub mod Scanning
use crystal_forge.Prelude.{
  ℕ, ◌+◌, String, Bool, true, false, Option, none, some, List, [], ◌∷◌, ◌++◌, ◌&&◌, ◌||◌, not, ◌==◌,
  ltb, leb, is_some, if◌then◌else◌,
}
use crystal_forge.Table.{update_where, select_where, exists}
use crystal_forge.Derivation.{Derivation, has_status, build_complete}

pub data ScanStatus : Type 0 where
  pending in_progress completed failed : ScanStatus

abbrev pub is_unfinished : ScanStatus → Bool
is_unfinished pending = true
is_unfinished in_progress = true
is_unfinished _ = false

abbrev pub is_completed : ScanStatus → Bool
is_completed completed = true
is_completed _ = false

abbrev pub is_failed : ScanStatus → Bool
is_failed failed = true
is_failed _ = false

pub record CveScan : Type 0 where
  pub id : ℕ
  pub derivation_id : ℕ
  pub scheduled_at : ℕ
  pub completed_at : Option ℕ
  pub status : ScanStatus
  pub attempts : ℕ
  pub scanner_name : String
  pub scanner_version : Option String
  pub total_packages : ℕ
  pub total_vulnerabilities : ℕ
  pub critical_count : ℕ
  pub high_count : ℕ
  pub medium_count : ℕ
  pub low_count : ℕ
  pub scan_duration_ms : Option ℕ

abbrev pub scan_has_id : ℕ → CveScan → Bool
scan_has_id i s = s.id == i

unfoldable pub new_scan : ℕ → ℕ → String → Option String → ℕ → CveScan
new_scan id derivation_id scanner_name scanner_version now = record {
  id = id;
  derivation_id = derivation_id;
  scheduled_at = now;
  completed_at = none;
  status = pending;
  attempts = 0;
  scanner_name = scanner_name;
  scanner_version = scanner_version;
  total_packages = 0;
  total_vulnerabilities = 0;
  critical_count = 0;
  high_count = 0;
  medium_count = 0;
  low_count = 0;
  scan_duration_ms = none;
}

unfoldable pub create_cve_scan : ℕ → ℕ → String → Option String → ℕ → List CveScan → List CveScan
unfolding new_scan
create_cve_scan id derivation_id scanner_name scanner_version now scans =
    scans ++ new_scan id derivation_id scanner_name scanner_version now ∷ []

unfoldable pub started_scan : CveScan → CveScan
started_scan s = record s { status = in_progress; attempts = s.attempts + 1 }

unfoldable pub mark_scan_in_progress : ℕ → List CveScan → List CveScan
unfolding started_scan
mark_scan_in_progress scan_id = update_where (scan_has_id scan_id) started_scan

-- The six counts of a finished scan, in the order of the statement, without the metadata.
unfoldable pub completed_scan : ℕ → ℕ → ℕ → ℕ → ℕ → ℕ → Option ℕ → ℕ → CveScan → CveScan
completed_scan packages vulnerabilities critical high medium low duration now s = record s {
  status = completed;
  completed_at = some now;
  total_packages = packages;
  total_vulnerabilities = vulnerabilities;
  critical_count = critical;
  high_count = high;
  medium_count = medium;
  low_count = low;
  scan_duration_ms = duration;
}

unfoldable pub complete_cve_scan :
    ℕ → ℕ → ℕ → ℕ → ℕ → ℕ → ℕ → Option ℕ → ℕ → List CveScan → List CveScan
unfolding completed_scan
complete_cve_scan scan_id packages vulnerabilities critical high medium low duration now =
    update_where (scan_has_id scan_id)
      (completed_scan packages vulnerabilities critical high medium low duration now)

-- ORDER BY scheduled_at DESC LIMIT 1
unfoldable pub latest_scan : List CveScan → Option CveScan
latest_scan [] = none
latest_scan (s ∷ ss) = elim (latest_scan ss) [
  | none ↦ some s
  | some t ↦ some (if ltb s.scheduled_at t.scheduled_at then t else s)
]

abbrev pub unfinished_for : ℕ → CveScan → Bool
unfinished_for d s = (s.derivation_id == d) && is_unfinished s.status

unfoldable pub failed_scan : ℕ → CveScan → CveScan
failed_scan now s = record s { status = failed; completed_at = some now; attempts = s.attempts + 1 }

-- `new_id` is the id of the record made if the derivation has no unfinished one; the metadata with
-- the error is left out.
unfoldable pub mark_cve_scan_failed : ℕ → Derivation → ℕ → List CveScan → List CveScan
unfolding failed_scan create_cve_scan latest_scan
mark_cve_scan_failed new_id target now scans =
    elim (latest_scan (select_where (unfinished_for target.id) scans)) [
      | some existing ↦ update_where (scan_has_id existing.id) (failed_scan now) scans
      | none ↦
          update_where (scan_has_id new_id) (failed_scan now)
            (create_cve_scan new_id target.id "vulnix" none now scans)
    ]

abbrev pub completed_for : ℕ → CveScan → Bool
completed_for d s = (s.derivation_id == d) && is_completed s.status

abbrev pub exhausted_for : ℕ → CveScan → Bool
exhausted_for d s = (s.derivation_id == d) && is_failed s.status && leb 5 s.attempts

-- The statuses build-complete and complete have the ids 10 and 11.
unfoldable pub needs_cve_scan : List CveScan → Derivation → Bool
needs_cve_scan scans d =
    (has_status build_complete d || d.status_id == 11)
    && is_some d.store_path
    && not (exists (completed_for d.id) scans)
    && not (exists (exhausted_for d.id) scans)
