-- ===== src/CveScans/Attempts.antt =====
-- How often a scan record is tried, and what that means for the derivations that are offered.
use mathlib.Core.Path.{subst}
use mathlib.Core.Option.{some-injective}
use crystal_forge.Prelude.{
  ℕ, ◌≤◌, ◌≡◌, refl, String, true, false, Bool-cases, Option-cases, inl, inr, Option, none, some,
  List, [], ◌∷◌, ◌++◌, ltb, All, All-append, arith,
}
use crystal_forge.Table.{update_where, select_where, find, exists}
use crystal_forge.Table.Rows.{All-select_where, All-find, All-update_where}
use crystal_forge.Table.Keys.{
  IsUnique, IsUnique-snoc, IsUnique-update_where, IsUnique-find, All-update_key,
}
use crystal_forge.Derivation.{Derivation}
use crystal_forge.CveScans.{
  is_unfinished, CveScan, scan_has_id, new_scan, create_cve_scan, started_scan,
  mark_scan_in_progress, completed_scan, complete_cve_scan, latest_scan, unfinished_for,
  failed_scan, mark_cve_scan_failed,
}

pub record IsYoung (s : CveScan) : Type 0 where
  pub at_most : s.attempts ≤ 2
  pub unfinished : is_unfinished s.status ≡ true → s.attempts ≤ 1

abbrev scan_id : CveScan → ℕ
scan_id s = s.id

pub record ScansInv (scans : List CveScan) : Type 0 where
  pub unique : IsUnique scan_id scans
  pub young : All IsYoung scans

find-snoc :
    (new : CveScan) (scans : List CveScan)
    → exists (scan_has_id new.id) scans ≡ false
    → find (scan_has_id new.id) (scans ++ new ∷ []) ≡ some new
unfolding find exists
find-snoc new [] h = ground arith
find-snoc new (s ∷ ss) h = ground (arith, find-snoc new ss)

module _ (P : CveScan → Type 0) where
  latest_scan-All : (ss : List CveScan) (s : CveScan) → All P ss → latest_scan ss ≡ some s → P s
  unfolding latest_scan
  latest_scan-All [] s h e = cc
  latest_scan-All (t ∷ ts) s h e = elim (Option-cases (latest_scan ts)) [
    | inl none_yet ↦ subst P (some-injective _ _ (rw (none_yet, latest_scan) at e)) h.0
    | inr (u, later) ↦ elim (Bool-cases (ltb t.scheduled_at u.scheduled_at)) [
      | inl newer ↦
          subst P (some-injective _ _ (rw (later, newer, latest_scan) at e))
            (latest_scan-All ts u h.1 later)
      | inr older ↦ subst P (some-injective _ _ (rw (later, older, latest_scan) at e)) h.0
    ]
  ]

-- The change of the record that is found under an id.
update-ScansInv :
    (i : ℕ) (f : CveScan → CveScan) (scans : List CveScan) (s : CveScan)
    → ((t : CveScan) → (f t).id ≡ t.id)
    → find (scan_has_id i) scans ≡ some s
    → IsYoung (f s)
    → ScansInv scans
    → ScansInv (update_where (scan_has_id i) f scans)
update-ScansInv i f scans s same found y inv = record {
  unique = IsUnique-update_where scan_id (scan_has_id i) f scans same inv.unique;
  young =
      All-update_key scan_id IsYoung IsYoung i f scans s inv.unique found y (λ t h. h) inv.young;
}

module _ (id d : ℕ) (name : String) (version : Option String) (now : ℕ) (scans : List CveScan) where
  pub create-ScansInv :
      exists (scan_has_id id) scans ≡ false
      → ScansInv scans
      → ScansInv (create_cve_scan id d name version now scans)
  unfolding create_cve_scan new_scan
  create-ScansInv fresh inv = record {
    unique = IsUnique-snoc scan_id (new_scan id d name version now) scans fresh inv.unique;
    young =
        All-append IsYoung scans (new_scan id d name version now ∷ []) inv.young
          (record { at_most = omega arith; unfinished = λ _. omega arith }, tt);
  }

  find-created :
      exists (scan_has_id id) scans ≡ false
      → find (scan_has_id id) (create_cve_scan id d name version now scans)
        ≡ some (new_scan id d name version now)
  unfolding create_cve_scan new_scan
  find-created fresh = find-snoc (new_scan id d name version now) scans fresh

  pub start-ScansInv :
      exists (scan_has_id id) scans ≡ false
      → ScansInv scans
      → ScansInv (mark_scan_in_progress id (create_cve_scan id d name version now scans))
  unfolding mark_scan_in_progress started_scan new_scan
  start-ScansInv fresh inv =
      update-ScansInv id started_scan (create_cve_scan id d name version now scans)
        (new_scan id d name version now) (λ t. refl) (find-created fresh)
        (record { at_most = omega arith; unfinished = λ _. omega arith })
        (create-ScansInv fresh inv)

fail-IsYoung : (now : ℕ) (s : CveScan) → s.attempts ≤ 1 → IsYoung (failed_scan now s)
unfolding failed_scan
fail-IsYoung now s h = record { at_most = omega arith; unfinished = λ e. cc }

-- The record that is chosen stands in the table and is unfinished.
unfinished_found :
    (d : ℕ) (scans : List CveScan) (s : CveScan)
    → ScansInv scans
    → latest_scan (select_where (unfinished_for d) scans) ≡ some s
    → (find (scan_has_id s.id) scans ≡ some s) × (unfinished_for d s ≡ true)
unfinished_found d scans s inv e =
    latest_scan-All (λ t. (find (scan_has_id t.id) scans ≡ some t) × (unfinished_for d t ≡ true))
      (select_where (unfinished_for d) scans) s
      (All-select_where (λ t. find (scan_has_id t.id) scans ≡ some t) (unfinished_for d) scans
        (IsUnique-find scan_id scans inv.unique))
      e

pub fail-ScansInv :
    (new_id : ℕ) (target : Derivation) (now : ℕ) (scans : List CveScan)
    → exists (scan_has_id new_id) scans ≡ false
    → ScansInv scans
    → ScansInv (mark_cve_scan_failed new_id target now scans)
unfolding mark_cve_scan_failed failed_scan
fail-ScansInv new_id target now scans fresh inv =
    elim (Option-cases (latest_scan (select_where (unfinished_for target.id) scans))) [
      | inl absent ↦
          rw (absent, mark_cve_scan_failed)
            (update-ScansInv new_id (failed_scan now)
              (create_cve_scan new_id target.id "vulnix" none now scans)
              (new_scan new_id target.id "vulnix" none now) (λ t. refl)
              (find-created new_id target.id "vulnix" none now scans fresh)
              (fail-IsYoung now (new_scan new_id target.id "vulnix" none now)
                (unfold new_scan in omega arith))
              (create-ScansInv new_id target.id "vulnix" none now scans fresh inv))
      | inr (s, chosen) ↦
          rw (chosen, mark_cve_scan_failed)
            (let (found, running) = unfinished_found target.id scans s inv chosen in
              update-ScansInv s.id (failed_scan now) scans s (λ t. refl) found
                (fail-IsYoung now s (
                  (All-find IsYoung (scan_has_id s.id) scans s inv.young found).unfinished
                    (ground arith)))
                inv)
    ]

pub complete-ScansInv :
    (i packages vulnerabilities critical high medium low : ℕ) (duration : Option ℕ) (now : ℕ)
    (scans : List CveScan)
    → ScansInv scans
    → ScansInv
        (complete_cve_scan i packages vulnerabilities critical high medium low duration now scans)
unfolding complete_cve_scan completed_scan
complete-ScansInv i p v c h m l duration now scans inv = record {
  unique =
      IsUnique-update_where scan_id (scan_has_id i) (completed_scan p v c h m l duration now) scans
        (λ t. refl) inv.unique;
  young =
      All-update_where IsYoung IsYoung (scan_has_id i) (completed_scan p v c h m l duration now)
        scans (λ t y _. record { at_most = y.at_most; unfinished = λ e. cc }) (λ t y _. y)
        inv.young;
}
