-- ===== src/Build/Leases.antt =====
-- The reservations as leases: for each derivation, the worker that holds it, if any. An abstract
-- machine says how the leases may change.
pub mod Follows
use crystal_forge.Prelude.{ℕ, ◌≡◌, ◌≢◌, ◌⊎◌, String, Option, none, some}
use crystal_forge.Table.{find}
use crystal_forge.Build.{Database, BuildReservation, reserves}

abbrev pub Leases : Type 0
Leases = ℕ → Option String

abbrev pub worker_of : Option BuildReservation → Option String
worker_of none = none
worker_of (some r) = some r.worker_id

-- The worker that holds a derivation.
abbrev pub holder : Database → Leases
holder db i = worker_of (find (reserves i) db.reservations)

-- A free derivation is taken by one worker, one worker gives back one that it holds, or some that are
-- held expire. No step gives a derivation from one worker to another.
pub data LeaseStep (h h' : Leases) : Type 0 where
  stay : ((i : ℕ) → h' i ≡ h i) → LeaseStep h h'
  acquire :
      (d : ℕ) (worker_id : String)
      → h d ≡ none
      → h' d ≡ some worker_id
      → ((i : ℕ) → i ≢ d → h' i ≡ h i)
      → LeaseStep h h'
  give_back :
      (d : ℕ) (worker_id : String)
      → h d ≡ some worker_id
      → h' d ≡ none
      → ((i : ℕ) → i ≢ d → h' i ≡ h i)
      → LeaseStep h h'
  expire : ((i : ℕ) → (h' i ≡ h i) ⊎ (h' i ≡ none)) → LeaseStep h h'

pub data LeaseReach (h : Leases) : Leases → Type 0 where
  at_start : LeaseReach h h
  step : {h1 h2 : Leases} → LeaseReach h h1 → LeaseStep h1 h2 → LeaseReach h h2
