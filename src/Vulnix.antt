-- ===== src/Vulnix.antt =====
-- packages/default/src/vulnix/vulnix_parser.rs: the counts made of a vulnix report. The score type
-- (f32) with its comparisons is a parameter; a comparison with NaN is false. A HashMap is the
-- function that looks a key up, a HashSet the list of its elements.
pub mod Totals
use crystal_forge.Prelude.{
  ℕ, suc, ◌+◌, String, Bool, true, false, Option, none, some, List, [], ◌∷◌, ◌++◌, length,
  if◌then◌else◌, str_eq, ◌||◌, not,
}
use crystal_forge.Table.{exists}

-- score >= n, and score > 0.0
pub record Scores : Type 1 where
  pub Score : Type 0
  pub at_least : Score → ℕ → Bool
  pub is_positive : Score → Bool

pub record SeverityCounts : Type 0 where
  pub critical : ℕ
  pub high : ℕ
  pub medium : ℕ
  pub low : ℕ
  pub unknown : ℕ

pub record ScanStats : Type 0 where
  pub total_packages : ℕ
  pub total_cves : ℕ
  pub total_vulnerabilities : ℕ
  pub critical_count : ℕ
  pub high_count : ℕ
  pub medium_count : ℕ
  pub low_count : ℕ
  pub unknown_count : ℕ

abbrev pub no_counts : SeverityCounts
no_counts = record { critical = 0; high = 0; medium = 0; low = 0; unknown = 0 }

abbrev pub contains_text : List String → String → Bool
contains_text xs s = exists (λ x. str_eq x s) xs

-- The elements once each: a HashSet filled in order.
abbrev pub insert_text : String → List String → List String
insert_text s set = if contains_text set s then set else s ∷ set

unfoldable pub insert_all : List String → List String → List String
insert_all [] set = set
insert_all (s ∷ ss) set = insert_all ss (insert_text s set)

module _ (scores : Scores) where
  pub record VulnixEntry : Type 0 where
    pub name : String
    pub pname : String
    pub version : String
    pub affected_by : List String
    pub whitelisted : List String
    pub derivation : String
    pub cvssv3_basescore : String → Option scores.Score

  -- One more in the class of a score; what is neither of the four is unknown.
  unfoldable pub count_score : scores.Score → SeverityCounts → SeverityCounts
  count_score s counts =
      if scores.at_least s 9
      then record counts { critical = counts.critical + 1 }
      else if scores.at_least s 7
      then record counts { high = counts.high + 1 }
      else if scores.at_least s 4
      then record counts { medium = counts.medium + 1 }
      else if scores.is_positive s
      then record counts { low = counts.low + 1 }
      else record counts { unknown = counts.unknown + 1 }

  unfoldable pub count_cve : Option scores.Score → SeverityCounts → SeverityCounts
  unfolding count_score
  count_cve (some s) counts = count_score s counts
  count_cve none counts = record counts { unknown = counts.unknown + 1 }

  unfoldable pub count_all : VulnixEntry → List String → SeverityCounts → SeverityCounts
  unfolding count_cve
  count_all entry [] counts = counts
  count_all entry (cve_id ∷ cves) counts =
      count_all entry cves (count_cve (entry.cvssv3_basescore cve_id) counts)

  unfoldable pub severity_counts : VulnixEntry → SeverityCounts
  unfolding count_all
  severity_counts entry = count_all entry entry.affected_by no_counts

  -- Sorted and freed of doubles in the source: each id once, here in some order.
  unfoldable pub all_cve_ids : VulnixEntry → List String
  unfolding insert_all
  all_cve_ids entry = insert_all (entry.affected_by ++ entry.whitelisted) []

  unfoldable pub add_counts : SeverityCounts → SeverityCounts → SeverityCounts
  add_counts total c = record {
    critical = total.critical + c.critical;
    high = total.high + c.high;
    medium = total.medium + c.medium;
    low = total.low + c.low;
    unknown = total.unknown + c.unknown;
  }

  -- The loop over the entries.
  unfoldable pub total_counts : List VulnixEntry → SeverityCounts → SeverityCounts
  unfolding severity_counts add_counts
  total_counts [] total = total
  total_counts (e ∷ es) total = total_counts es (add_counts total (severity_counts e))

  unfoldable pub unique_cves : List VulnixEntry → List String → List String
  unfolding all_cve_ids insert_all
  unique_cves [] set = set
  unique_cves (e ∷ es) set = unique_cves es (insert_all (all_cve_ids e) set)

  unfoldable pub calculate_stats : List VulnixEntry → ScanStats
  unfolding total_counts unique_cves
  calculate_stats entries =
      let total = total_counts entries no_counts in
      record {
        total_packages = length entries;
        total_cves = length (unique_cves entries []);
        total_vulnerabilities = total.critical + total.high + total.medium + total.low;
        critical_count = total.critical;
        high_count = total.high;
        medium_count = total.medium;
        low_count = total.low;
        unknown_count = total.unknown;
      }
