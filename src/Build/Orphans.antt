-- ===== src/Build/Orphans.antt =====
-- No build is orphaned: whatever a worker, a crash or the cleanup does, a derivation in the status
-- BuildInProgress has a reservation, and a derivation has at most one.
use crystal_forge.Prelude.{
  ℕ, ◌≡◌, ◌≢◌, refl, String, true, false, Bool-cases, Option-cases, Option, none, some, inl, inr,
  List, [], ◌∷◌, ◌++◌, ◌&&◌, ◌==◌, All, arith, ◌∙◌,
}
use crystal_forge.Table.{update_where, delete_where, find, exists, count_where, contains}
use crystal_forge.Table.Rows.{All-update_where, exists-append}
use crystal_forge.Table.Keys.{IsUnique, IsUnique-update_where, IsUnique-delete_where, IsUnique-snoc}
use crystal_forge.Derivation.{Derivation, has_id, as_id, build_in_progress}
use crystal_forge.CachePush.{create_cache_push_job}
use crystal_forge.Build.{
  Database, BuildReservation, is_reserved, reserves, held_by, new_reservation, beat, derivation_ids,
  update_heartbeat,
}
use crystal_forge.Build.Claim.{
  BuildableDerivation, claimable, claim_columns, parents_exist, claim_next_derivation,
}
use crystal_forge.Build.Worker.{
  mark_build_complete_and_release, mark_build_failed_and_release, BuildOutcome, built, build_error,
  timed_out, finish_build,
}

abbrev pub IsHeld : List BuildReservation → Derivation → Type 0
IsHeld rs d = d.status_id ≡ as_id build_in_progress → is_reserved d.id rs ≡ true

pub record Inv (db : Database) : Type 0 where
  pub ids : IsUnique (λ (d : Derivation). d.id) db.derivations
  pub reserved_once : IsUnique (λ (r : BuildReservation). r.derivation_id) db.reservations
  pub held : All (IsHeld db.reservations) db.derivations

abbrev pub row_id : Derivation → ℕ
row_id d = d.id

abbrev pub target_id : BuildReservation → ℕ
target_id r = r.derivation_id

-- Reservations of other derivations survive the release of one.
exists-release :
    (worker_id : String) (i j : ℕ) (rs : List BuildReservation)
    → i ≢ j
    → is_reserved j rs ≡ true
    → is_reserved j (delete_where (λ r. held_by worker_id r && reserves i r) rs) ≡ true
unfolding exists delete_where
exists-release w i j [] n h = cc
exists-release w i j (r ∷ rs) n h = ground (arith, exists-release w i j rs n)

exists-beat :
    (worker_id : String) (now j : ℕ) (rs : List BuildReservation)
    → is_reserved j (update_where (held_by worker_id) (beat now) rs) ≡ is_reserved j rs
unfolding exists update_where beat
exists-beat w now j [] = refl
exists-beat w now j (r ∷ rs) = ground (arith, exists-beat w now j rs)

pub exists-ids :
    (i : ℕ) (rs : List BuildReservation) → is_reserved i rs ≡ contains (derivation_ids rs) i
unfolding exists contains
exists-ids i [] = refl
exists-ids i (r ∷ rs) = ground (arith, exists-ids i rs)

exists-snoc :
    (i : ℕ) (rs : List BuildReservation) (r : BuildReservation)
    → r.derivation_id ≡ i
    → is_reserved i (rs ++ r ∷ []) ≡ true
unfolding exists
exists-snoc i [] r e = ground arith
exists-snoc i (x ∷ xs) r e = ground (arith, exists-snoc i xs r e)

-- The end of a build: the row leaves the status as its reservation goes.
pub release-Inv :
    (worker_id : String) (i : ℕ) (f : Derivation → Derivation) (db : Database)
    → ((d : Derivation) → (f d).id ≡ d.id)
    → ((d : Derivation) → (f d).status_id ≢ as_id build_in_progress)
    → Inv db
    → Inv (record db {
      reservations = delete_where (λ r. held_by worker_id r && reserves i r) db.reservations;
      derivations = update_where (has_id i) f db.derivations;
    })
release-Inv w i f db same ends inv =
    let rs = delete_where (λ r. held_by w r && reserves i r) db.reservations in
    record {
      ids = IsUnique-update_where row_id (has_id i) f db.derivations same inv.ids;
      reserved_once =
          IsUnique-delete_where target_id (λ r. held_by w r && reserves i r) db.reservations
            inv.reserved_once;
      held =
          All-update_where (IsHeld db.reservations) (IsHeld rs) (has_id i) f db.derivations
            (λ d h hit busy. absurd (ends d busy))
            (λ d h miss busy. exists-release w i d.id db.reservations (ground arith) (h busy))
            inv.held;
    }

pub complete-Inv :
    (worker_id : String) (i : ℕ) (store_path : String) (now : ℕ) (db : Database)
    → Inv db
    → Inv (mark_build_complete_and_release worker_id i store_path now db)
unfolding mark_build_complete_and_release
complete-Inv w i path now db inv = release-Inv w i _ db (λ d. refl) (λ d. omega arith) inv

pub fail-Inv :
    (worker_id : String) (d : Derivation) (error : String) (now : ℕ) (db : Database)
    → Inv db
    → Inv (mark_build_failed_and_release worker_id d error now db)
unfolding mark_build_failed_and_release
fail-Inv w d error now db inv = release-Inv w d.id _ db (λ r. refl) (λ r. omega arith) inv

pub finish_build-Inv :
    (worker_id : String) (push_to : Option String) (job_id now : ℕ) (d : Derivation)
    (outcome : BuildOutcome) (db : Database)
    → Inv db
    → Inv (finish_build worker_id push_to job_id now d outcome db)
unfolding finish_build
finish_build-Inv w to job now d (built path) db inv =
    complete-Inv w d.id path now
      (record db {
        cache_push_jobs = (create_cache_push_job job d.id path to now db.cache_push_jobs).0;
      })
      (record { ids = inv.ids; reserved_once = inv.reserved_once; held = inv.held })
finish_build-Inv w to job now d (build_error error) db inv = fail-Inv w d error now db inv
finish_build-Inv w to job now d (timed_out error) db inv = fail-Inv w d error now db inv

pub heartbeat-Inv :
    (worker_id : String) (now : ℕ) (db : Database)
    → Inv db
    → Inv (update_heartbeat worker_id now db).0
unfolding update_heartbeat
heartbeat-Inv w now db inv = record {
  ids = inv.ids;
  reserved_once =
      IsUnique-update_where target_id (held_by w) (beat now) db.reservations
        (λ r. unfold beat in refl) inv.reserved_once;
  held = still db.derivations inv.held;
}
  where
    still :
        (ds : List Derivation)
        → All (IsHeld db.reservations) ds
        → All (IsHeld (update_where (held_by w) (beat now) db.reservations)) ds
    still [] h = tt
    still (d ∷ ds) h = (λ busy. exists-beat w now d.id db.reservations ∙ h.0 busy, still ds h.1)

claimed-Inv :
    (b : BuildableDerivation) (worker_id : String) (id now : ℕ) (db : Database)
    → is_reserved b.id db.reservations ≡ false
    → Inv db
    → Inv (record db {
      reservations = db.reservations ++ new_reservation id worker_id b.id b.nixos_id now ∷ [];
      derivations = update_where (claimable b.id) (claim_columns now) db.derivations;
    })
unfolding new_reservation claim_columns claimable
claimed-Inv b w id now db free inv =
    let new = new_reservation id w b.id b.nixos_id now in
    record {
      ids =
          IsUnique-update_where row_id (claimable b.id) (claim_columns now) db.derivations
            (λ d. refl) inv.ids;
      reserved_once = IsUnique-snoc target_id new db.reservations free inv.reserved_once;
      held =
          All-update_where (IsHeld db.reservations) (IsHeld (db.reservations ++ new ∷ []))
            (claimable b.id) (claim_columns now) db.derivations
            (λ d h hit busy. exists-snoc d.id db.reservations new (ground arith))
            (λ d h miss busy. exists-append (reserves d.id) db.reservations (new ∷ []) (h busy))
            inv.held;
    }

pub claim-Inv :
    (buildable : Option BuildableDerivation) (worker_id : String) (id now : ℕ) (db : Database)
    → Inv db
    → Inv (claim_next_derivation buildable worker_id id now db).0
unfolding claim_next_derivation
claim-Inv none w id now db inv = inv
claim-Inv (some b) w id now db inv = elim (Bool-cases (is_reserved b.id db.reservations)) [
  | inl taken ↦ rw taken inv
  | inr free ↦ elim (Bool-cases (parents_exist b db.derivations)) [
    | inr orphan ↦ rw (free, orphan) inv
    | inl parents ↦ elim (Bool-cases (count_where (claimable b.id) db.derivations == 1)) [
      | inr other ↦ rw (free, parents, other) inv
      | inl one ↦
          elim (Option-cases (
            find (has_id b.id)
              (update_where (claimable b.id) (claim_columns now) db.derivations))) [
                | inl gone ↦ rw (free, parents, one, gone) inv
                | inr (d, got) ↦ rw (free, parents, one, got) (claimed-Inv b w id now db free inv)
              ]
    ]
  ]
]
