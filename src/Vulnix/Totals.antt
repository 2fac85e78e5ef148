-- ===== src/Vulnix/Totals.antt =====
-- Every affected CVE is counted once, in one class.
use crystal_forge.Prelude.{
  ℕ, ◌+◌, ◌≤◌, ◌≡◌, refl, String, Option, none, some, List, [], ◌∷◌, ◌++◌, length, length-append,
  arith,
}
use crystal_forge.Vulnix.{
  Scores, SeverityCounts, VulnixEntry, count_cve, count_all, severity_counts, add_counts,
  total_counts, calculate_stats, no_counts, insert_all, insert_text, all_cve_ids, unique_cves,
}

abbrev sum_of : SeverityCounts → ℕ
sum_of c = c.critical + c.high + c.medium + c.low + c.unknown

length-insert_all : (ss set : List String) → length (insert_all ss set) ≤ length ss + length set
unfolding insert_all
length-insert_all [] set = omega arith
length-insert_all (s ∷ ss) set = ground (arith, length-insert_all ss (insert_text s set))

module _ (scores : Scores) where
  sum-count_cve :
      (s : Option scores.Score) (c : SeverityCounts) → sum_of (count_cve scores s c) ≡ sum_of c + 1
  unfolding count_cve
  sum-count_cve none c = omega arith
  sum-count_cve (some s) c = ground arith

  sum-count_all :
      (e : VulnixEntry scores) (cves : List String) (c : SeverityCounts)
      → sum_of (count_all scores e cves c) ≡ sum_of c + length cves
  unfolding count_all
  sum-count_all e [] c = omega arith
  sum-count_all e (x ∷ xs) c = omega (
    arith,
    sum-count_all e xs (count_cve scores (e.cvssv3_basescore x) c),
    sum-count_cve (e.cvssv3_basescore x) c,
  )

  -- The reported and the whitelisted ids of all entries, counted as they stand.
  abbrev pub affected_total : List (VulnixEntry scores) → ℕ
  affected_total [] = 0
  affected_total (e ∷ es) = length e.affected_by + affected_total es

  abbrev pub listed_total : List (VulnixEntry scores) → ℕ
  listed_total [] = 0
  listed_total (e ∷ es) = length e.affected_by + length e.whitelisted + listed_total es

  sum-total_counts :
      (es : List (VulnixEntry scores)) (c : SeverityCounts)
      → sum_of (total_counts scores es c) ≡ sum_of c + affected_total es
  unfolding total_counts add_counts severity_counts
  sum-total_counts [] c = omega arith
  sum-total_counts (e ∷ es) c = omega (
    arith,
    sum-total_counts es (add_counts scores c (severity_counts scores e)),
    sum-count_all e e.affected_by no_counts,
  )

  length-unique_cves :
      (es : List (VulnixEntry scores)) (set : List String)
      → length (unique_cves scores es set) ≤ listed_total es + length set
  unfolding unique_cves all_cve_ids
  length-unique_cves [] set = omega arith
  length-unique_cves (e ∷ es) set = omega (
    arith,
    length-unique_cves es (insert_all (all_cve_ids scores e) set),
    length-insert_all (all_cve_ids scores e) set,
    length-insert_all (e.affected_by ++ e.whitelisted) [],
    length-append e.affected_by e.whitelisted,
  )

  -- The vulnerabilities of a report and the unknown ones are together its affected CVEs, each entry's
  -- counted; the vulnerabilities are those of the four classes; the distinct CVEs are at most the
  -- ids listed; and every entry is a package.
  pub calculate_stats_lem :
      (es : List (VulnixEntry scores))
      → let stats = calculate_stats scores es in
        (stats.total_vulnerabilities + stats.unknown_count ≡ affected_total es)
        × (stats.total_vulnerabilities
            ≡ stats.critical_count + stats.high_count + stats.medium_count + stats.low_count)
        × (stats.total_cves ≤ listed_total es)
        × (stats.total_packages ≡ length es)
  unfolding calculate_stats
  calculate_stats_lem es = (
    omega (arith, sum-total_counts es no_counts),
    refl,
    omega (arith, length-unique_cves es []),
    refl,
  )
