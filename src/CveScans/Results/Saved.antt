-- ===== src/CveScans/Results/Saved.antt =====
-- What a report that is saved leaves in the tables.
use crystal_forge.Prelude.{
  ℕ, ◌+◌, ◌≡◌, refl, String, Bool, true, false, Bool-cases, Result-cases, inl, inr, ◌⊎◌, Option,
  List, [], ◌∷◌, ◌++◌, ◌||◌, ||_cases, sym, eq_iff, Result, ok, err, arith, str_eq,
}
use mathlib.Core.Path.{subst}
use text.Mathlib.TextPositions.{eq_refl}
use crystal_forge.Table.{exists}
use crystal_forge.Table.Rows.{exists-snoc, exists-update_where}
use crystal_forge.Vulnix.{Scores, VulnixEntry, contains_text}
use crystal_forge.CveScans.Results.{
  PackageVulnerability, ScanTables, concerns, found_vulnerability, found_again, whitelisted_again,
  upsert_vulnerability, upsert_whitelisted, save_affected, save_whitelisted, save_package,
  save_entry, save_entries, save_scan_results, commit_or_drop, upsert_package,
}
use crystal_forge.CveScans.Results.Kept.{
  KeepsRow, save_affected-HasRow, save_whitelisted-HasRow, save_entries-KeepsRow,
}

abbrev pub is_ok : Result (Unit {0}) → Bool
is_ok (ok _) = true
is_ok (err e) = false

module _ (c : String) where
  -- The vulnerability is of this CVE.
  abbrev pub names : PackageVulnerability → Bool
  names v = str_eq v.cve_id c

  names-found_again :
      (now : ℕ) (v : PackageVulnerability) → names v ≡ true → names (found_again now v) ≡ true
  unfolding found_again
  names-found_again now v h = h

  names-whitelisted_again :
      (now : ℕ) (v : PackageVulnerability) → names v ≡ true → names (whitelisted_again now v) ≡ true
  unfolding whitelisted_again
  names-whitelisted_again now v h = h

  concerns-names : (e : ℕ) (v : PackageVulnerability) → concerns e c v ≡ true → names v ≡ true
  concerns-names e v h = ground arith

  upsert_vulnerability-names :
      (e now : ℕ) (vs : List PackageVulnerability)
      → exists names (upsert_vulnerability e c now vs) ≡ true
  unfolding upsert_vulnerability found_vulnerability
  upsert_vulnerability-names e now vs = elim (Bool-cases (exists (concerns e c) vs)) [
    | inl known ↦ rw known (
        exists-update_where (concerns e c) (concerns e c) names (found_again now) vs
          (λ v _ k. names-found_again now v (concerns-names e v k)) (λ v _ k. concerns-names e v k)
          known)
    | inr new ↦ rw new (exists-snoc names vs (found_vulnerability e c now) (eq_refl c))
  ]

  upsert_whitelisted-names :
      (e now : ℕ) (vs : List PackageVulnerability)
      → exists names (upsert_whitelisted e c now vs) ≡ true
  unfolding upsert_whitelisted found_vulnerability whitelisted_again
  upsert_whitelisted-names e now vs = elim (Bool-cases (exists (concerns e c) vs)) [
    | inl known ↦ rw known (
        exists-update_where (concerns e c) (concerns e c) names (whitelisted_again now) vs
          (λ v _ k. names-whitelisted_again now v (concerns-names e v k))
          (λ v _ k. concerns-names e v k) known)
    | inr new ↦
        rw new
          (exists-snoc names vs (whitelisted_again now (found_vulnerability e c now)) (eq_refl c))
  ]

  module _ (scores : Scores) {D : Type 0} (from_f32 : scores.Score → Option D) where
    IsSaved : ScanTables D → Type 0
    IsSaved db = exists names db.package_vulnerabilities ≡ true

    affected-IsSaved :
        (entry : VulnixEntry scores) (i now : ℕ) (cves : List String) (db : ScanTables D)
        → contains_text cves c ≡ true
        → IsSaved (save_affected scores from_f32 entry i now cves db)
    unfolding IsSaved save_affected exists
    affected-IsSaved entry i now [] db h = cc
    affected-IsSaved entry i now (cve ∷ cves) db h = elim (Bool-cases (str_eq cve c)) [
      | inl this ↦
          save_affected-HasRow names names-found_again names-whitelisted_again scores from_f32 entry
            i now cves _
            (subst
              (λ x. exists names (upsert_vulnerability i x now db.package_vulnerabilities) ≡ true)
              (sym ((eq_iff cve c).0 this))
              (upsert_vulnerability-names i now db.package_vulnerabilities))
      | inr other ↦ affected-IsSaved entry i now cves _ (rw other at h)
    ]

    whitelisted-IsSaved :
        (entry : VulnixEntry scores) (i now : ℕ) (cves : List String) (db : ScanTables D)
        → contains_text cves c ≡ true
        → IsSaved (save_whitelisted scores from_f32 entry i now cves db)
    unfolding IsSaved save_whitelisted exists
    whitelisted-IsSaved entry i now [] db h = cc
    whitelisted-IsSaved entry i now (cve ∷ cves) db h = elim (Bool-cases (str_eq cve c)) [
      | inl this ↦
          save_whitelisted-HasRow names names-found_again names-whitelisted_again scores from_f32
            entry i now cves _
            (subst
              (λ x. exists names (upsert_whitelisted i x now db.package_vulnerabilities) ≡ true)
              (sym ((eq_iff cve c).0 this))
              (upsert_whitelisted-names i now db.package_vulnerabilities))
      | inr other ↦ whitelisted-IsSaved entry i now cves _ (rw other at h)
    ]

    -- The CVE is one of the entry's.
    abbrev pub lists : VulnixEntry scores → Bool
    lists entry = contains_text entry.affected_by c || contains_text entry.whitelisted c

    package-IsSaved :
        (scan_id : ℕ) (entry : VulnixEntry scores) (i now : ℕ) (db : ScanTables D)
        → lists entry ≡ true
        → IsSaved (save_package scores from_f32 scan_id entry i now db)
    unfolding IsSaved save_package
    package-IsSaved scan_id entry i now db h = elim (||_cases _ _ h) [
      | inl affected ↦
          save_whitelisted-HasRow names names-found_again names-whitelisted_again scores from_f32
            entry i now entry.whitelisted _
            (affected-IsSaved entry i now entry.affected_by _ affected)
      | inr whitelisted ↦ whitelisted-IsSaved entry i now entry.whitelisted _ whitelisted
    ]

    -- Where the entries are saved, there is a row of the CVE.
    abbrev Saves : Result (ScanTables D) → Type 0
    Saves = KeepsRow names names-found_again names-whitelisted_again scores from_f32

    entry-Saves :
        (store_path_of : String → Result String) (scan_id : ℕ) (entry : VulnixEntry scores)
        (id now : ℕ) (db : ScanTables D)
        → lists entry ≡ true
        → Saves (save_entry scores from_f32 store_path_of scan_id entry id now db)
    unfolding save_entry IsSaved
    entry-Saves store_path_of scan_id entry id now db h =
        elim (Result-cases (store_path_of entry.derivation)) [
          | inr (e, missing) ↦ rw (missing, save_entry, KeepsRow) tt
          | inl (path, there) ↦
              elim (Result-cases
                (upsert_package id entry.name entry.derivation entry.pname entry.version path now
                  db.derivations).1) [
                    | inr (e, failed) ↦ rw (there, save_entry, KeepsRow) rw failed tt
                    | inl (row, given) ↦
                        rw (there, save_entry, KeepsRow) rw given
                          (package-IsSaved scan_id entry row.id now _ h)
                  ]
        ]

    entries_save :
        (store_path_of : String → Result String) (scan_id : ℕ)
        (before after : List (VulnixEntry scores)) (entry : VulnixEntry scores) (id now : ℕ)
        (db : ScanTables D)
        → lists entry ≡ true
        → Saves
            (save_entries scores from_f32 store_path_of scan_id (before ++ entry ∷ after) id now db)
    unfolding save_entries
    entries_save store_path_of scan_id [] after entry id now db h =
        let first = entry-Saves store_path_of scan_id entry id now db h in
        elim (Result-cases (save_entry scores from_f32 store_path_of scan_id entry id now db)) [
          | inr (e, failed) ↦ rw failed tt
          | inl (db', saved) ↦ rw saved (
              save_entries-KeepsRow names names-found_again names-whitelisted_again scores from_f32
                store_path_of scan_id after (id + 1) now db' (rw saved at first))
        ]
    entries_save store_path_of scan_id (other ∷ before) after entry id now db h =
        elim (Result-cases (save_entry scores from_f32 store_path_of scan_id other id now db)) [
          | inr (e, failed) ↦ rw failed tt
          | inl (db', saved) ↦
              rw saved (entries_save store_path_of scan_id before after entry (id + 1) now db' h)
        ]

    committed :
        (old : ScanTables D) (r : Result (ScanTables D))
        → Saves r
        → let end = commit_or_drop scores from_f32 old r in
          ((end.1 ≡ ok tt) × (exists names end.0.package_vulnerabilities ≡ true))
          ⊎ ((is_ok end.1 ≡ false) × (end.0 ≡ old))
    committed old (ok db) h = inl (refl, h)
    committed old (err e) h = inr (refl, refl)

    -- Saving a report succeeds, and then every CVE that an entry lists, as affecting its package or as
    -- whitelisted, has a row of vulnerabilities; or it fails and leaves all tables as they were.
    pub save_scan_results_lem :
        (store_path_of : String → Result String) (scan_id : ℕ)
        (before after : List (VulnixEntry scores)) (entry : VulnixEntry scores)
        (duration : Option ℕ) (id now : ℕ) (db : ScanTables D)
        → lists entry ≡ true
        → let end =
            save_scan_results scores from_f32 store_path_of scan_id
              (before ++ entry ∷ after)
              duration
              id
              now
              db in
          ((end.1 ≡ ok tt) × (exists names end.0.package_vulnerabilities ≡ true))
          ⊎ ((is_ok end.1 ≡ false) × (end.0 ≡ db))
    unfolding save_scan_results
    save_scan_results_lem store_path_of scan_id before after entry duration id now db h =
        committed db _ (entries_save store_path_of scan_id before after entry id now _ h)
