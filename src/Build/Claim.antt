-- ===== src/Build/Claim.antt =====
-- queries/build_reservations.rs: `claim_next_derivation`. The row that the first statement reads
-- from `view_buildable_derivations` is an argument, so that it may come from an older snapshot than
-- the one the later statements work on; any row at all is allowed.
use crystal_forge.Prelude.{
  ℕ, ◌+◌, String, Bool, true, Option, none, some, List, [], ◌∷◌, ◌++◌, ◌&&◌, ◌||◌, not, ◌==◌,
  Result, ok, err, row_not_found, foreign_key_violation, if◌then◌else◌,
}
use crystal_forge.Table.{update_where, find, exists, count_where}
use crystal_forge.Derivation.{
  Derivation, has_id, has_status, as_id, dry_run_complete, build_pending, build_in_progress,
}
use crystal_forge.Build.{Database, is_reserved, new_reservation}

-- The columns of the view that the claim reads.
pub record BuildableDerivation : Type 0 where
  pub id : ℕ
  pub nixos_id : Option ℕ

-- WHERE id = $2 AND status_id IN (DryRunComplete, BuildPending)
unfoldable pub claimable : ℕ → Derivation → Bool
claimable i d = has_id i d && (has_status dry_run_complete d || has_status build_pending d)

unfoldable pub claim_columns : ℕ → Derivation → Derivation
claim_columns now d = record d {
  status_id = as_id build_in_progress;
  started_at = some now;
  attempt_count = d.attempt_count + 1;
}

abbrev pub parent_exists : Option ℕ → List Derivation → Bool
parent_exists none ds = true
parent_exists (some n) ds = exists (has_id n) ds

-- Whether the reservation's foreign keys point at rows.
abbrev pub parents_exist : BuildableDerivation → List Derivation → Bool
parents_exist b ds = exists (has_id b.id) ds && parent_exists b.nixos_id ds

-- The commit, if the row is read; an error drops the transaction.
abbrev pub read_back :
    Option Derivation → Database → Database → Database × Result (Option Derivation)
read_back none old db = (old, err row_not_found)
read_back (some d) old db = (db, ok (some d))

-- Steps 3 and 4: the status update has to hit one row, and that row is read back.
unfoldable pub start_build :
    BuildableDerivation → ℕ → Database → Database → Database × Result (Option Derivation)
unfolding claimable claim_columns
start_build b now old db =
    let ds = update_where (claimable b.id) (claim_columns now) db.derivations in
    if count_where (claimable b.id) db.derivations == 1
    then read_back (find (has_id b.id) ds) old (record db { derivations = ds })
    else (old, ok none)

unfoldable pub claim_next_derivation :
    Option BuildableDerivation → String → ℕ → ℕ → Database → Database × Result (Option Derivation)
unfolding start_build new_reservation
claim_next_derivation none worker_id id now db = (db, ok none)
claim_next_derivation (some b) worker_id id now db =
    let reserved = record db {
      reservations = db.reservations ++ new_reservation id worker_id b.id b.nixos_id now ∷ [];
    } in
    if is_reserved b.id db.reservations
    then (db, ok none)
    else if not (parents_exist b db.derivations)
    then (db, err foreign_key_violation)
    else start_build b now db reserved
