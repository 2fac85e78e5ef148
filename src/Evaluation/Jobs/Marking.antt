-- ===== src/Evaluation/Jobs/Marking.antt =====
-- What the UPDATEs at the end of an evaluation leave of a row that is tracked.
use crystal_forge.Prelude.{
  ℕ, ◌≡◌, refl, String, Bool, true, false, Bool-cases, inl, inr, some, List, [], ◌∷◌, ◌&&◌, ◌==◌,
  ==_iff, not, arith, is_some, str_eq, eq_iff,
}
use crystal_forge.Table.{exists}
use crystal_forge.Table.Rows.{exists-update_where, exists-update_where_none}
use crystal_forge.Derivation.{Derivation, nixos_type, has_id, has_status, dry_run_complete}
use crystal_forge.Derivation.Update.{path_taken}
use crystal_forge.Derivation.Insert.{has_key}
use crystal_forge.Evaluation.Jobs.{evaluated_columns, mark_row, mark_evaluated}

-- The row of a system of the commit.
abbrev pub is_system : ℕ → String → Derivation → Bool
is_system commit_id name d = has_key (some commit_id) name nixos_type d

abbrev pub row_with : ℕ → String → ℕ → Derivation → Bool
row_with commit_id name id d = is_system commit_id name d && has_id id d

-- The row is ready to be built.
abbrev pub is_evaluated : ℕ → String → Derivation → Bool
is_evaluated commit_id name d =
    is_system commit_id name d && has_status dry_run_complete d && is_some d.derivation_path

-- Whether an id is tracked with a path.
abbrev pub tracks : ℕ → String → ℕ × String → Bool
tracks i path e = (e.0 == i) && str_eq e.1 path

-- Whether another id is tracked with the path.
abbrev pub rivals : ℕ → String → ℕ × String → Bool
rivals i path e = not (e.0 == i) && str_eq e.1 path

module _ (c : ℕ) (name : String) where
  is_system-columns :
      (path : String) (now : ℕ) (d : Derivation)
      → is_system c name (evaluated_columns path now d) ≡ is_system c name d
  unfolding has_key evaluated_columns
  is_system-columns path now d = refl

  is_evaluated-columns :
      (path : String) (now : ℕ) (d : Derivation)
      → is_system c name d ≡ true
      → is_evaluated c name (evaluated_columns path now d) ≡ true
  unfolding has_key evaluated_columns
  is_evaluated-columns path now d h = simp h

  mark_row_keeps :
      (i : ℕ) (path : String) (now : ℕ) (ds : List Derivation)
      → exists (is_evaluated c name) ds ≡ true
      → exists (is_evaluated c name) (mark_row i path now ds) ≡ true
  unfolding mark_row
  mark_row_keeps i path now ds h = elim (Bool-cases (path_taken i (some path) ds)) [
    | inl taken ↦ rw taken h
    | inr free ↦ rw free (
        exists-update_where (has_id i) _ _ (evaluated_columns path now) ds
          (λ d _ g. is_evaluated-columns path now d (ground arith)) (λ d _ g. g) h)
  ]

  -- A row that is marked stays marked.
  mark_keeps :
      (es : List (ℕ × String)) (now : ℕ) (ds : List Derivation)
      → exists (is_evaluated c name) ds ≡ true
      → exists (is_evaluated c name) (mark_evaluated es now ds) ≡ true
  unfolding mark_evaluated
  mark_keeps [] now ds h = h
  mark_keeps ((i, path) ∷ es) now ds h =
      mark_keeps es now (mark_row i path now ds) (mark_row_keeps i path now ds h)

  -- A row whose path is free is marked.
  mark_row_marks :
      (i : ℕ) (path : String) (now : ℕ) (ds : List Derivation)
      → path_taken i (some path) ds ≡ false
      → exists (row_with c name i) ds ≡ true
      → exists (is_evaluated c name) (mark_row i path now ds) ≡ true
  unfolding mark_row
  mark_row_marks i path now ds free h = rw free (
      exists-update_where (has_id i) _ _ (evaluated_columns path now) ds
        (λ d _ g. is_evaluated-columns path now d (ground arith)) (λ d miss g. ground arith) h)

  mark_row_row :
      (i j : ℕ) (path : String) (now : ℕ) (ds : List Derivation)
      → exists (row_with c name i) ds ≡ true
      → exists (row_with c name i) (mark_row j path now ds) ≡ true
  unfolding mark_row
  mark_row_row i j path now ds h = elim (Bool-cases (path_taken j (some path) ds)) [
    | inl taken ↦ rw taken h
    | inr free ↦ rw free (
        exists-update_where (has_id j) _ _ (evaluated_columns path now) ds
          (λ d _ g. rw (is_system-columns path now d) g) (λ d miss g. g) h)
  ]

  -- An UPDATE that gives another path leaves the path free.
  mark_row_free :
      (i j : ℕ) (path p : String) (now : ℕ) (ds : List Derivation)
      → str_eq p path ≡ false
      → path_taken i (some path) ds ≡ false
      → path_taken i (some path) (mark_row j p now ds) ≡ false
  unfolding mark_row evaluated_columns
  mark_row_free i j path p now ds differ h = elim (Bool-cases (path_taken j (some p) ds)) [
    | inl taken ↦ rw taken h
    | inr free ↦ rw free (
        exists-update_where_none (has_id j) _ (evaluated_columns p now) ds
          (λ d g. ground (arith, differ)) h)
  ]

  -- A tracked row is marked, if no other row has its path and no other id is tracked with it.
  pub mark_tracked :
      (i : ℕ) (path : String) (es : List (ℕ × String)) (now : ℕ) (ds : List Derivation)
      → exists (tracks i path) es ≡ true
      → exists (rivals i path) es ≡ false
      → path_taken i (some path) ds ≡ false
      → exists (row_with c name i) ds ≡ true
      → exists (is_evaluated c name) (mark_evaluated es now ds) ≡ true
  unfolding mark_evaluated exists
  mark_tracked i path [] now ds e only free h = cc
  mark_tracked i path ((j, p) ∷ es) now ds e only free h = elim (Bool-cases (str_eq p path)) [
    | inl same ↦
        let this : j == i ≡ true = ground (arith, only, same) in
        let ids : j ≡ i = (==_iff j i).0 this in
        let paths : p ≡ path = (eq_iff p path).0 same in
        mark_keeps es now (mark_row j p now ds)
          (mark_row_marks j p now ds (rw ids rw paths free) (rw ids h))
    | inr differ ↦
        mark_tracked i path es now (mark_row j p now ds) (ground (arith, e, differ))
          (ground (arith, only, differ)) (mark_row_free i j path p now ds differ free)
          (mark_row_row i j p now ds h)
  ]
