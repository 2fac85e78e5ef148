-- ===== src/CveScans/Results/Kept.antt =====
-- What a report leaves of the vulnerabilities that are stored: a test that both updates keep.
use crystal_forge.Prelude.{
  ℕ, ◌+◌, ◌≡◌, String, Bool, true, Bool-cases, Result-cases, inl, inr, Option, List, [], ◌∷◌,
  Result, ok, err,
}
use crystal_forge.Table.{exists}
use crystal_forge.Table.Rows.{exists-append, exists-update_where}
use crystal_forge.Vulnix.{Scores, VulnixEntry}
use crystal_forge.CveScans.Results.{
  PackageVulnerability, ScanTables, concerns, found_vulnerability, found_again, whitelisted_again,
  upsert_vulnerability, upsert_whitelisted, save_affected, save_whitelisted, save_package,
  save_entry, save_entries, save_scan_results, commit_or_drop, upsert_package,
}

module _ (q : PackageVulnerability → Bool)
    (again : (now : ℕ) (v : PackageVulnerability) → q v ≡ true → q (found_again now v) ≡ true)
    (listed : (now : ℕ) (v : PackageVulnerability)
      → q v ≡ true
      → q (whitelisted_again now v) ≡ true) where
  abbrev pub HasRow : List PackageVulnerability → Type 0
  HasRow vs = exists (q) vs ≡ true

  upsert_vulnerability-HasRow :
      (e : ℕ) (cve : String) (now : ℕ) (vs : List PackageVulnerability)
      → HasRow vs
      → HasRow (upsert_vulnerability e cve now vs)
  unfolding upsert_vulnerability
  upsert_vulnerability-HasRow e cve now vs h = elim (Bool-cases (exists (concerns e cve) vs)) [
    | inl known ↦ rw known (
        exists-update_where (concerns e cve) (q) (q) (found_again now) vs (λ v _ k. again now v k)
          (λ v _ k. k) h)
    | inr new ↦ rw new (exists-append (q) vs (found_vulnerability e cve now ∷ []) h)
  ]

  upsert_whitelisted-HasRow :
      (e : ℕ) (cve : String) (now : ℕ) (vs : List PackageVulnerability)
      → HasRow vs
      → HasRow (upsert_whitelisted e cve now vs)
  unfolding upsert_whitelisted
  upsert_whitelisted-HasRow e cve now vs h = elim (Bool-cases (exists (concerns e cve) vs)) [
    | inl known ↦ rw known (
        exists-update_where (concerns e cve) (q) (q) (whitelisted_again now) vs
          (λ v _ k. listed now v k) (λ v _ k. k) h)
    | inr new ↦
        rw new (exists-append (q) vs (whitelisted_again now (found_vulnerability e cve now) ∷ []) h)
  ]

  module _ (scores : Scores) {D : Type 0} (from_f32 : scores.Score → Option D) where
    pub save_affected-HasRow :
        (entry : VulnixEntry scores) (i now : ℕ) (cves : List String) (db : ScanTables D)
        → HasRow db.package_vulnerabilities
        → HasRow (save_affected scores from_f32 entry i now cves db).package_vulnerabilities
    unfolding save_affected
    save_affected-HasRow entry i now [] db h = h
    save_affected-HasRow entry i now (cve ∷ cves) db h =
        save_affected-HasRow entry i now cves _
          (upsert_vulnerability-HasRow i cve now db.package_vulnerabilities h)

    pub save_whitelisted-HasRow :
        (entry : VulnixEntry scores) (i now : ℕ) (cves : List String) (db : ScanTables D)
        → HasRow db.package_vulnerabilities
        → HasRow (save_whitelisted scores from_f32 entry i now cves db).package_vulnerabilities
    unfolding save_whitelisted
    save_whitelisted-HasRow entry i now [] db h = h
    save_whitelisted-HasRow entry i now (cve ∷ cves) db h =
        save_whitelisted-HasRow entry i now cves _
          (upsert_whitelisted-HasRow i cve now db.package_vulnerabilities h)

    abbrev pub KeepsRow : Result (ScanTables D) → Type 0
    KeepsRow (ok db) = HasRow db.package_vulnerabilities
    KeepsRow (err e) = Unit

    save_entry-KeepsRow :
        (store_path_of : String → Result String) (scan_id : ℕ) (entry : VulnixEntry scores)
        (id now : ℕ) (db : ScanTables D)
        → HasRow db.package_vulnerabilities
        → KeepsRow (save_entry scores from_f32 store_path_of scan_id entry id now db)
    unfolding save_entry save_package
    save_entry-KeepsRow store_path_of scan_id entry id now db h =
        elim (Result-cases (store_path_of entry.derivation)) [
          | inr (e, missing) ↦ rw (missing, save_entry, KeepsRow) tt
          | inl (path, there) ↦
              elim (Result-cases
                (upsert_package id entry.name entry.derivation entry.pname entry.version path now
                  db.derivations).1) [
                    | inr (e, failed) ↦ rw (there, save_entry, KeepsRow) rw failed tt
                    | inl (row, given) ↦
                        rw (there, save_entry, KeepsRow) rw given
                          (save_whitelisted-HasRow entry row.id now entry.whitelisted _
                            (save_affected-HasRow entry row.id now entry.affected_by _ h))
                  ]
        ]

    pub save_entries-KeepsRow :
        (store_path_of : String → Result String) (scan_id : ℕ) (entries : List (VulnixEntry scores))
        (id now : ℕ) (db : ScanTables D)
        → HasRow db.package_vulnerabilities
        → KeepsRow (save_entries scores from_f32 store_path_of scan_id entries id now db)
    unfolding save_entries
    save_entries-KeepsRow store_path_of scan_id [] id now db h = h
    save_entries-KeepsRow store_path_of scan_id (entry ∷ entries) id now db h =
        let first = save_entry-KeepsRow store_path_of scan_id entry id now db h in
        elim (Result-cases (save_entry scores from_f32 store_path_of scan_id entry id now db)) [
          | inr (e, failed) ↦ rw failed tt
          | inl (db', saved) ↦ rw saved (
              save_entries-KeepsRow store_path_of scan_id entries (id + 1) now db'
                (rw saved at first))
        ]

    commit-KeepsRow :
        (old : ScanTables D) (r : Result (ScanTables D))
        → HasRow old.package_vulnerabilities
        → KeepsRow r
        → HasRow (commit_or_drop scores from_f32 old r).0.package_vulnerabilities
    commit-KeepsRow old (ok db) h k = k
    commit-KeepsRow old (err e) h k = h

    pub save_scan_results-HasRow :
        (store_path_of : String → Result String) (scan_id : ℕ) (entries : List (VulnixEntry scores))
        (duration : Option ℕ) (id now : ℕ) (db : ScanTables D)
        → HasRow db.package_vulnerabilities
        → HasRow
            (save_scan_results scores from_f32 store_path_of scan_id entries duration id now
              db).0.package_vulnerabilities
    unfolding save_scan_results
    save_scan_results-HasRow store_path_of scan_id entries duration id now db h =
        commit-KeepsRow db _ h (save_entries-KeepsRow store_path_of scan_id entries id now _ h)
