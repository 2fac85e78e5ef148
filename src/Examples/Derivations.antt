-- ===== src/Examples/Derivations.antt =====
-- The table `derivations` at work.
use crystal_forge.Prelude.{
  ℕ, ◌+◌, ◌≡◌, ◌≢◌, ◌⊎◌, ◌||◌, ◌&&◌, not, if◌then◌else◌, coalesce, unique_violation,
  numeric_value_out_of_range, refl, some, none, List, [], ◌∷◌, map, ok, err, arith,
}
use crystal_forge.Table.{find, count_where, contains}
use crystal_forge.Derivation.{
  Derivation, has_id, has_status, build_failed, build_pending, build_complete, as_id,
  dry_run_pending, dry_run_complete, dry_run_failed, nixos_type, is_terminal,
}
use crystal_forge.Derivation.Update.{
  update_derivation_status, status_columns, fits_column, duration_ms, path_taken,
}
use crystal_forge.Derivation.UpdateLaws.{
  updated_row, status_columns-eq-updated_row, update_derivation_status_lem,
}
use crystal_forge.Derivation.Insert.{insert_derivation_with_target, has_key}
use crystal_forge.Derivation.Insert.Outcome.{insert_with_target_lem}
use crystal_forge.Derivation.Queue.{queue_all_ready_derivations}
use crystal_forge.Derivation.Queue.Ready.{queue_all_ready_derivations_lem}
use crystal_forge.Derivation.Reset.{reset_non_terminal_derivations}
use crystal_forge.Derivation.Reset.Outcome.{
  reset_row, reset_non_terminal_derivations-eq-map, reset_fails_complete,
}
use crystal_forge.Examples.Rows.{system_row}

-- A dry run that is complete, a build in progress and a complete build with its attempts spent.
abbrev three_systems : List Derivation
three_systems = system_row 1 5 0 ∷ system_row 2 8 1 ∷ system_row 3 10 5 ∷ []

abbrev one_system : List Derivation
one_system = system_row 1 8 2 ∷ []

status_columns_example :
    status_columns build_failed none (some "exit 1") none 4000 (system_row 2 8 1)
    ≡ updated_row build_failed none (some "exit 1") none 4000 (system_row 2 8 1)
status_columns_example =
    status_columns-eq-updated_row build_failed none (some "exit 1") none 4000 (system_row 2 8 1)

update_status_example :
    let (ds, r) =
      update_derivation_status 2 build_complete none none
        (some "/nix/store/abc")
        4000
        three_systems in
    let too_long = is_terminal build_complete && not (fits_column (duration_ms 4000 none)) in
    let row =
      updated_row build_complete none none (some "/nix/store/abc") 4000 (system_row 2 8 1) in
    (r ≡ (
      if too_long
      then err numeric_value_out_of_range
      else if path_taken 2 none three_systems
      then err unique_violation
      else ok row))
    × (find (has_id 2) ds
        ≡ some (if too_long || path_taken 2 none three_systems then system_row 2 8 1 else row))
    × ((j : ℕ) → 2 ≢ j → find (has_id j) ds ≡ find (has_id j) three_systems)
unfolding find
update_status_example =
    update_derivation_status_lem 2 build_complete none none (some "/nix/store/abc") 4000
      three_systems (system_row 2 8 1) refl

insert_with_target_example :
    let (ds', answer) =
      insert_derivation_with_target 4 (some 7) "gray" nixos_type (some "t") none 4000 one_system in
    (count_where (has_key (some 7) "gray" nixos_type) ds' ≡ 1)
    × ((d' : Derivation) × (answer ≡ ok d')
        × (find (has_key (some 7) "gray" nixos_type) ds' ≡ some d')
        × (((find (has_key (some 7) "gray" nixos_type) one_system ≡ none)
              × (d'.id ≡ 4)
              × (d'.status_id ≡ as_id dry_run_pending)
              × (d'.scheduled_at ≡ some 4000)
              × (d'.attempt_count ≡ 0)
              × (d'.derivation_target ≡ some "t")
              × (d'.cf_agent_enabled ≡ none))
            ⊎ ((d : Derivation) × (find (has_key (some 7) "gray" nixos_type) one_system ≡ some d)
                × (d' ≡ (
                    if contains
                      (as_id dry_run_complete
                        ∷ as_id dry_run_failed
                        ∷ as_id build_complete
                        ∷ as_id build_failed
                        ∷ [])
                      d.status_id
                    then record d { derivation_target = coalesce (some "t") d.derivation_target }
                    else record d {
                      status_id = as_id dry_run_pending;
                      scheduled_at = some 4000;
                      derivation_target = coalesce (some "t") d.derivation_target;
                    })))))
insert_with_target_example =
    insert_with_target_lem 4 (some 7) "gray" nixos_type (some "t") none 4000 one_system
      (unfold count_where has_key in omega arith)

queue_all_example :
    let (ds, n) = queue_all_ready_derivations 4000 three_systems in
    (count_where (has_status build_pending) ds
      ≡ count_where (has_status build_pending) three_systems + n)
    × (queue_all_ready_derivations 5000 ds ≡ (ds, 0))
queue_all_example = queue_all_ready_derivations_lem 4000 5000 three_systems

reset_map_example :
    reset_non_terminal_derivations 4000 three_systems ≡ map (reset_row 4000) three_systems
reset_map_example = reset_non_terminal_derivations-eq-map 4000 three_systems

reset_fails_example :
    (d : Derivation) × (find (has_id 3) (reset_non_terminal_derivations 4000 three_systems)
      ≡ some d)
    × (d.status_id ≡ as_id build_failed)
unfolding find
reset_fails_example =
    reset_fails_complete 4000 3 three_systems (system_row 3 10 5) refl refl refl (omega arith)
