-- ===== src/Build/Traces.antt =====
-- The builders' database over time: any number of workers, each step in any state, interleaved at
-- the statements' transactions.
use mathlib.Core.Path.{subst}
use crystal_forge.Prelude.{ℕ, ◌≡◌, refl, sym, String, Option, List, arith}
use crystal_forge.Table.Rows.{All-update_where}
use crystal_forge.Table.Keys.{IsUnique-update_where}
use crystal_forge.Derivation.{Derivation}
use crystal_forge.Derivation.Queue.{queue_all_ready_derivations, queue_columns, ready_for_build}
use crystal_forge.CachePush.{CachePushJob}
use crystal_forge.Build.{Database, update_heartbeat, cleanup_stale_reservations}
use crystal_forge.Build.Claim.{BuildableDerivation, claim_next_derivation}
use crystal_forge.Build.Worker.{BuildOutcome, finish_build}
use crystal_forge.Build.Orphans.{IsHeld, Inv, row_id, claim-Inv, finish_build-Inv, heartbeat-Inv}
use crystal_forge.Build.Recovery.{cleanup-Inv}

-- Steps of the builders and of the server beside them. A worker finishes with whatever derivation
-- value it holds, also after its reservation was taken away and given to another worker.
pub data Step (db db' : Database) : Type 0 where
  claim :
      (buildable : Option BuildableDerivation) (worker_id : String) (id now : ℕ)
      → db' ≡ (claim_next_derivation buildable worker_id id now db).0
      → Step db db'
  finish :
      (worker_id : String) (push_to : Option String) (job_id now : ℕ) (d : Derivation)
      (outcome : BuildOutcome)
      → db' ≡ finish_build worker_id push_to job_id now d outcome db
      → Step db db'
  heartbeat :
      (worker_id : String) (now : ℕ) → db' ≡ (update_heartbeat worker_id now db).0 → Step db db'
  cleanup :
      (threshold now : ℕ) → db' ≡ (cleanup_stale_reservations threshold now db).0 → Step db db'
  queue :
      (now : ℕ)
      → db' ≡ record db { derivations = (queue_all_ready_derivations now db.derivations).0 }
      → Step db db'
  push_jobs : (jobs : List CachePushJob) → db' ≡ record db { cache_push_jobs = jobs } → Step db db'

pub data Reach (db : Database) : Database → Type 0 where
  here : Reach db db
  next : {t u : Database} → Reach db t → Step t u → Reach db u

queue-Inv :
    (now : ℕ) (db : Database)
    → Inv db
    → Inv (record db { derivations = (queue_all_ready_derivations now db.derivations).0 })
unfolding queue_all_ready_derivations queue_columns
queue-Inv now db inv = record {
  ids =
      IsUnique-update_where row_id ready_for_build (queue_columns now) db.derivations (λ d. refl)
        inv.ids;
  reserved_once = inv.reserved_once;
  held =
      All-update_where (IsHeld db.reservations) (IsHeld db.reservations) ready_for_build
        (queue_columns now) db.derivations (λ d h hit busy. absurd (omega arith)) (λ d h miss. h)
        inv.held;
}

pub Step-Inv : {db db' : Database} → Step db db' → Inv db → Inv db'
Step-Inv (claim b w id now e) inv = subst Inv (sym e) (claim-Inv b w id now _ inv)
Step-Inv (finish w to job now d outcome e) inv =
    subst Inv (sym e) (finish_build-Inv w to job now d outcome _ inv)
Step-Inv (heartbeat w now e) inv = subst Inv (sym e) (heartbeat-Inv w now _ inv)
Step-Inv (cleanup threshold now e) inv = subst Inv (sym e) (cleanup-Inv threshold now _ inv)
Step-Inv (queue now e) inv = subst Inv (sym e) (queue-Inv now _ inv)
Step-Inv (push_jobs jobs e) inv =
    subst Inv (sym e) (record { ids = inv.ids; reserved_once = inv.reserved_once; held = inv.held })

-- From a database where ids and reservations are unique and every BuildInProgress derivation is
-- reserved, every reachable one has these properties: no derivation is ever reserved twice, and
-- none is left in BuildInProgress without a reservation.
pub Reach-Inv : {db db' : Database} → Inv db → Reach db db' → Inv db'
Reach-Inv inv here = inv
Reach-Inv inv (next r s) = Step-Inv s (Reach-Inv inv r)
