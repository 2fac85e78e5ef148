-- ===== src/Derivation/UpdateLaws.antt =====
-- What `update_derivation_status` does to the row, in one description for all arms.
use crystal_forge.Prelude.{
  ℕ, String, Option, none, some, List, false, ◌||◌, ok, ◌≡◌, is_some, coalesce, if◌then◌else◌,
  arith, ap, ◌∙◌, ◌≢◌, err, unique_violation, numeric_value_out_of_range, refl, Bool, Bool-cases,
  inl, inr, true, not, ◌&&◌,
}
use crystal_forge.Table.{find, update_where}
use crystal_forge.Table.Keys.{find-update_where, find-update_where_ne}
use crystal_forge.Derivation.{
  Derivation, EvaluationStatus, as_id, is_terminal, is_in_progress, has_id,
}
use crystal_forge.Derivation.Update.{
  status_columns, update_derivation_status, duration_ms, row_or_error, fits_column, path_taken,
  duration_fits,
}

-- The columns after the update: each optional argument replaces its column if it is given; a
-- terminal status stamps the completion and the duration; the start is stamped by a status that is
-- in progress, and by any status that is not terminal and comes with a path or an error.
abbrev pub updated_row :
    EvaluationStatus → Option String → Option String → Option String → ℕ → Derivation → Derivation
updated_row status path error store now d = record d {
  status_id = as_id status;
  derivation_path = coalesce path d.derivation_path;
  error_message = coalesce error d.error_message;
  store_path = coalesce store d.store_path;
  completed_at = if is_terminal status then some now else d.completed_at;
  evaluation_duration_ms =
      if is_terminal status then duration_ms now d.started_at else d.evaluation_duration_ms;
  started_at =
      if is_terminal status
      then d.started_at
      else if is_in_progress status || is_some path || is_some error
      then some now
      else d.started_at;
}

pub status_columns-eq-updated_row :
    (status : EvaluationStatus) (path error store : Option String) (now : ℕ) (d : Derivation)
    → status_columns status path error store now d ≡ updated_row status path error store now d
unfolding status_columns
status_columns-eq-updated_row status (some p) (some e) (some s) now d = ground arith
status_columns-eq-updated_row status (some p) none (some s) now d = ground arith
status_columns-eq-updated_row status (some p) none none now d = ground arith
status_columns-eq-updated_row status (some p) (some e) none now d = ground arith
status_columns-eq-updated_row status none (some e) (some s) now d = ground arith
status_columns-eq-updated_row status none (some e) none now d = ground arith
status_columns-eq-updated_row status none none (some s) now d = ground arith
status_columns-eq-updated_row status none none none now d = ground arith

id-status_columns :
    (status : EvaluationStatus) (path error store : Option String) (now : ℕ) (d : Derivation)
    → (status_columns status path error store now d).id ≡ d.id
id-status_columns status path error store now d =
    ap (λ (r : Derivation). r.id) (status_columns-eq-updated_row status path error store now d)

module _ (i : ℕ) (status : EvaluationStatus) (path error store : Option String) (now : ℕ)
    (ds : List Derivation) where
  -- The row is written: the duration fits its column, and no other row has the path.
  abbrev pub is_written : Derivation → Bool
  is_written d =
      (if is_terminal status then fits_column (duration_ms now d.started_at) else true)
      && not (path_taken i path ds)

  update_derivation_status_written :
      (d : Derivation)
      → find (has_id i) ds ≡ some d
      → is_written d ≡ true
      → update_derivation_status i status path error store now ds ≡ (
        update_where (has_id i) (status_columns status path error store now) ds,
        row_or_error (
            find
              (has_id i)
              (update_where (has_id i) (status_columns status path error store now) ds)),
      )
  unfolding update_derivation_status duration_fits
  update_derivation_status_written d h w =
      let fits : (not (is_terminal status) || fits_column (duration_ms now d.started_at)) ≡ true =
        ground (arith, w) in
      let free : path_taken i path ds ≡ false = ground (arith, w) in
      rw (h, update_derivation_status) rw fits rw free refl

  -- On a row that exists, `update_derivation_status` returns the updated row, which the table then
  -- holds under the id, if the duration that a terminal status writes has 32 bits and no other row
  -- has the path given; every row with another id is found as before.
  pub update_derivation_status_found :
      (d : Derivation)
      → find (has_id i) ds ≡ some d
      → is_written d ≡ true
      → let (ds', r) = update_derivation_status i status path error store now ds in
        (r ≡ ok (updated_row status path error store now d))
        × (find (has_id i) ds' ≡ some (updated_row status path error store now d))
        × ((j : ℕ) → i ≢ j → find (has_id j) ds' ≡ find (has_id j) ds)
  update_derivation_status_found d h w =
      let hit =
        find-update_where (λ (r : Derivation). r.id) i (status_columns status path error store now)
          ds (id-status_columns status path error store now) d h
        ∙ ap some (status_columns-eq-updated_row status path error store now d) in
      rw (update_derivation_status_written d h w) (
        ap row_or_error hit,
        hit,
        λ j n.
            find-update_where_ne (λ (r : Derivation). r.id) i j
              (status_columns status path error store now) ds
              (id-status_columns status path error store now) n,
      )

  -- On a row that exists, a terminal status whose duration does not fit 32 bits and a path that
  -- another row has are errors, and the row stays as it was; otherwise the answer is the updated
  -- row, which the table then holds under the id. Every row with another id is found as before.
  pub update_derivation_status_lem :
      (d : Derivation)
      → find (has_id i) ds ≡ some d
      → let (ds', r) = update_derivation_status i status path error store now ds in
        let too_long = is_terminal status && not (fits_column (duration_ms now d.started_at)) in
        let row = updated_row status path error store now d in
        (r ≡ (
          if too_long
          then err numeric_value_out_of_range
          else if path_taken i path ds
          then err unique_violation
          else ok row))
        × (find (has_id i) ds' ≡ some (if too_long || path_taken i path ds then d else row))
        × ((j : ℕ) → i ≢ j → find (has_id j) ds' ≡ find (has_id j) ds)
  unfolding update_derivation_status duration_fits
  update_derivation_status_lem d found =
      let too_long = is_terminal status && not (fits_column (duration_ms now d.started_at)) in
      elim (Bool-cases too_long) [
        | inl long ↦
            let fails : (not (is_terminal status) || fits_column (duration_ms now d.started_at))
                ≡ false =
              ground (arith, long) in
            rw (found, update_derivation_status) rw fails rw long (refl, found, λ j n. refl)
        | inr short ↦
            let fits : (not (is_terminal status) || fits_column (duration_ms now d.started_at))
                ≡ true =
              ground (arith, short) in
            elim (Bool-cases (path_taken i path ds)) [
              | inl taken ↦
                  rw (found, update_derivation_status) rw fits rw short rw taken
                    (refl, found, λ j n. refl)
              | inr free ↦
                  let w : is_written d ≡ true = ground (arith, short, free) in
                  let (answer, there, others) = update_derivation_status_found d found w in
                  rw short rw free (answer, there, others)
            ]
      ]
