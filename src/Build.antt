-- ===== src/Build.antt =====
-- packages/default/src/queries/build_reservations.rs: which worker builds which derivation.
-- The database holds the tables `derivations`, `build_reservations` and `cache_push_jobs`; a
-- transaction that is rolled back leaves it as it was.
pub mod Claim
pub mod Claimed
pub mod Worker
pub mod Orphans
pub mod Recovery
pub mod Traces
pub mod Leases
pub mod Commands
pub mod Running
use crystal_forge.Prelude.{
  ℕ, ◌+◌, String, Bool, true, false, Option, none, some, List, [], ◌∷◌, ◌++◌, map, ◌&&◌, ◌||◌, ◌*◌,
  not, ◌==◌, ltb, Result, ok, err, foreign_key_violation, unique_violation, if◌then◌else◌, str_eq,
}
use crystal_forge.Table.{update_where, delete_where, select_where, exists, count_where, contains}
use crystal_forge.Derivation.{Derivation, has_id, as_id, dry_run_complete}
use crystal_forge.CachePush.{CachePushJob}

pub record BuildReservation : Type 0 where
  pub id : ℕ
  pub worker_id : String
  pub derivation_id : ℕ
  pub nixos_derivation_id : Option ℕ
  pub reserved_at : ℕ
  pub heartbeat_at : ℕ

pub record Database : Type 0 where
  pub derivations : List Derivation
  pub reservations : List BuildReservation
  pub cache_push_jobs : List CachePushJob

abbrev pub reserves : ℕ → BuildReservation → Bool
reserves d r = r.derivation_id == d

abbrev pub is_reserved : ℕ → List BuildReservation → Bool
is_reserved d rs = exists (reserves d) rs

abbrev pub held_by : String → BuildReservation → Bool
held_by worker_id r = str_eq r.worker_id worker_id

-- The row of an INSERT; both times have the default NOW().
unfoldable pub new_reservation : ℕ → String → ℕ → Option ℕ → ℕ → BuildReservation
new_reservation id worker_id derivation_id nixos_id now = record {
  id = id;
  worker_id = worker_id;
  derivation_id = derivation_id;
  nixos_derivation_id = nixos_id;
  reserved_at = now;
  heartbeat_at = now;
}

abbrev missing_parent : Option ℕ → List Derivation → Bool
missing_parent none ds = false
missing_parent (some n) ds = not (exists (has_id n) ds)

-- The insert fails on the unique derivation_id, and on the foreign keys into `derivations`.
unfoldable pub create_reservation : ℕ → String → ℕ → Option ℕ → ℕ → Database → Database × Result ℕ
unfolding new_reservation
create_reservation id worker_id derivation_id nixos_id now db =
    if is_reserved derivation_id db.reservations
    then (db, err unique_violation)
    else if not (exists (has_id derivation_id) db.derivations)
        || missing_parent nixos_id db.derivations
    then (db, err foreign_key_violation)
    else (
      record db {
        reservations =
            db.reservations ++ new_reservation id worker_id derivation_id nixos_id now ∷ [];
      },
      ok id,
    )

unfoldable pub delete_reservation : String → ℕ → Database → Database
delete_reservation worker_id derivation_id db = record db {
  reservations =
      delete_where (λ r. held_by worker_id r && reserves derivation_id r) db.reservations;
}

unfoldable pub beat : ℕ → BuildReservation → BuildReservation
beat now r = record r { heartbeat_at = now }

-- The result is the number of rows updated.
unfoldable pub update_heartbeat : String → ℕ → Database → Database × ℕ
unfolding beat
update_heartbeat worker_id now db = (
  record db { reservations = update_where (held_by worker_id) (beat now) db.reservations },
  count_where (held_by worker_id) db.reservations,
)

-- heartbeat_at < NOW() - threshold, times in milliseconds
unfoldable pub is_stale : ℕ → ℕ → BuildReservation → Bool
is_stale threshold_seconds now r = ltb (r.heartbeat_at + threshold_seconds * 1000) now

abbrev pub derivation_ids : List BuildReservation → List ℕ
derivation_ids [] = []
derivation_ids (r ∷ rs) = r.derivation_id ∷ derivation_ids rs

unfoldable pub release_columns : Derivation → Derivation
release_columns d = record d { status_id = as_id dry_run_complete; started_at = none }

-- UPDATE derivations, once for each id; an error of one UPDATE is dropped, and no UPDATE is
-- assumed to fail here.
unfoldable pub release_all : List ℕ → List Derivation → List Derivation
unfolding release_columns
release_all [] ds = ds
release_all (i ∷ is) ds = release_all is (update_where (has_id i) release_columns ds)

-- The DELETE and the UPDATEs as one step.
unfoldable pub cleanup_stale_reservations : ℕ → ℕ → Database → Database × List ℕ
unfolding is_stale release_all
cleanup_stale_reservations threshold_seconds now db =
    let reclaimed =
      derivation_ids (select_where (is_stale threshold_seconds now) db.reservations) in
    (
      record db {
        reservations = delete_where (is_stale threshold_seconds now) db.reservations;
        derivations = release_all reclaimed db.derivations;
      },
      reclaimed,
    )

unfoldable pub get_worker_reservations : String → Database → List BuildReservation
get_worker_reservations worker_id db = select_where (held_by worker_id) db.reservations
