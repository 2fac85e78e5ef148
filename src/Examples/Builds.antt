-- ===== src/Examples/Builds.antt =====
-- The reservations at work.
use crystal_forge.Prelude.{
  ℕ, ◌++◌, ◌≡◌, ◌≢◌, refl, inr, some, none, true, [], ◌∷◌, ok, arith, All, ◌&&◌, not,
}
use crystal_forge.Table.{find, exists}
use crystal_forge.Derivation.{Derivation, has_id, as_id, build_in_progress}
use crystal_forge.Build.{Database, BuildReservation, reserves, is_stale, cleanup_stale_reservations}
use crystal_forge.Build.Claim.{BuildableDerivation, claim_next_derivation, claim_columns}
use crystal_forge.Build.Claimed.{claim_succeeds, claim_rolls_back, claim_exclusive}
use crystal_forge.Build.Worker.{built, finish_build}
use crystal_forge.Build.Orphans.{Inv}
use crystal_forge.Build.Recovery.{cleanup_recovers}
use crystal_forge.Build.Traces.{Reach, here, next, claim, finish, cleanup, Reach-Inv}
use crystal_forge.Build.Leases.{holder, LeaseReach}
use crystal_forge.Build.Leases.Follows.{Reach-LeaseReach}
use crystal_forge.Examples.Rows.{system_row}

abbrev reservation : BuildReservation
reservation = record {
  id = 1;
  worker_id = "w1";
  derivation_id = 2;
  nixos_derivation_id = none;
  reserved_at = 1000;
  heartbeat_at = 1000;
}

-- Derivation 1 waits, derivation 2 is built by w1.
abbrev database : Database
database = record {
  derivations = system_row 1 7 0 ∷ system_row 2 8 1 ∷ [];
  reservations = reservation ∷ [];
  cache_push_jobs = [];
}

abbrev waiting : BuildableDerivation
waiting = record { id = 1; nixos_id = none }

abbrev taken : BuildableDerivation
taken = record { id = 2; nixos_id = some 1 }

database-Inv : Inv database
unfolding exists
database-Inv = record {
  ids = ((omega arith, tt), (tt, tt));
  reserved_once = (tt, tt);
  held = (λ busy. absurd (omega arith), (λ busy. refl, tt));
}

abbrev claimed_row : Derivation
claimed_row = record (system_row 1 7 0) { status_id = 8; started_at = some 5000; attempt_count = 1 }

claim_succeeds_example :
    let (db, r) = claim_next_derivation (some waiting) "w2" 2 5000 database in
    (r ≡ ok (some claimed_row))
    × (find (has_id 1) db.derivations ≡ some claimed_row)
    × ((i : ℕ) → 1 ≢ i → find (has_id i) db.derivations ≡ find (has_id i) database.derivations)
    × ((new : BuildReservation) × (db.reservations ≡ database.reservations ++ new ∷ [])
        × (new.worker_id ≡ "w2")
        × (new.derivation_id ≡ 1))
unfolding find exists
claim_succeeds_example =
    claim_succeeds waiting "w2" 2 5000 database (system_row 1 7 0) ((omega arith, tt), (tt, tt))
      refl (inr refl) refl refl

taken_fails :
    (d : Derivation) → (claim_next_derivation (some taken) "w2" 2 5000 database).1 ≢ ok (some d)
unfolding claim_next_derivation exists
taken_fails d e = ground arith

claim_rolls_back_example : (claim_next_derivation (some taken) "w2" 2 5000 database).0 ≡ database
claim_rolls_back_example = claim_rolls_back taken "w2" 2 5000 database taken_fails

claim_exclusive_example :
    claim_next_derivation
      (some waiting)
      "w3"
      3
      5001
      (claim_next_derivation (some waiting) "w2" 2 5000 database).0
    ≡ ((claim_next_derivation (some waiting) "w2" 2 5000 database).0, ok none)
unfolding claim_columns
claim_exclusive_example =
    claim_exclusive waiting waiting "w2" "w3" 2 3 5000 5001 database claimed_row refl
      claim_succeeds_example.0

cleanup_recovers_example :
    let db = (cleanup_stale_reservations 300 9000000 database).0 in
    All
      (λ d.
        d.status_id ≡ as_id build_in_progress
        → exists (λ r. reserves d.id r && not (is_stale 300 9000000 r)) db.reservations ≡ true)
      db.derivations
cleanup_recovers_example = cleanup_recovers 300 9000000 database database-Inv

-- w2 claims derivation 1, w1 finishes derivation 2, and the cleanup comes much later.
abbrev claimed : Database
claimed = (claim_next_derivation (some waiting) "w2" 2 5000 database).0

abbrev finished : Database
finished =
    finish_build "w1" (some "s3://cache") 1 6000 (system_row 2 8 1) (built "/nix/store/abc-gray")
      claimed

abbrev cleaned : Database
cleaned = (cleanup_stale_reservations 300 9000000 finished).0

cleaned-Reach : Reach database cleaned
cleaned-Reach =
    next
      (next (next here (claim (some waiting) "w2" 2 5000 refl)) (
        finish "w1" (some "s3://cache") 1 6000 (system_row 2 8 1) (built "/nix/store/abc-gray")
          refl))
      (cleanup 300 9000000 refl)

reach-Inv_example : Inv cleaned
reach-Inv_example = Reach-Inv database-Inv cleaned-Reach

leases_example : LeaseReach (holder database) (holder cleaned)
leases_example = Reach-LeaseReach database-Inv cleaned-Reach
