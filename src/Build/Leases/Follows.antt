-- ===== src/Build/Leases/Follows.antt =====
-- Every step of the builders' database is a step of the leases.
use mathlib.Core.Path.{subst}
use crystal_forge.Prelude.{
  ℕ, ◌≡◌, ◌≢◌, refl, sym, ap, ◌∙◌, String, Bool, true, false, Bool-cases, Option-cases, inl, inr,
  ◌⊎◌, Option, none, some, List, [], ◌∷◌, ◌++◌, ◌==◌, ==_iff, ==_refl, ◌&&◌, arith, not, eq_iff,
}
use crystal_forge.Table.{update_where, delete_where, find, count_where}
use crystal_forge.Table.Keys.{IsUnique, find-eq-none, find-key}
use crystal_forge.Table.Deleted.{survivor, find-delete_where, find-snoc_other, find-snoc_this}
use crystal_forge.Derivation.{Derivation, has_id}
use crystal_forge.Build.{
  Database, BuildReservation, reserves, is_reserved, held_by, new_reservation, delete_reservation,
  update_heartbeat, beat, cleanup_stale_reservations, is_stale,
}
use crystal_forge.Build.Claim.{
  BuildableDerivation, claimable, claim_columns, parents_exist, start_build, claim_next_derivation,
}
use crystal_forge.Build.Worker.{
  BuildOutcome, built, build_error, timed_out, finish_build, mark_build_complete_and_release,
  mark_build_failed_and_release,
}
use crystal_forge.Build.Orphans.{Inv}
use crystal_forge.Build.Traces.{
  Step, claim, finish, heartbeat, cleanup, queue, push_jobs, Reach, here, next, Reach-Inv,
}
use crystal_forge.Build.Leases.{
  worker_of, holder, LeaseStep, stay, acquire, give_back, expire, LeaseReach, at_start, step,
}

abbrev reservation_key : BuildReservation → ℕ
reservation_key r = r.derivation_id

-- A claim leaves the reservations alone, or adds one to a derivation that has none.
claim_reserves :
    (b : BuildableDerivation) (worker_id : String) (id now : ℕ) (db : Database)
    → let end = (claim_next_derivation (some b) worker_id id now db).0 in
      (end.reservations ≡ db.reservations)
      ⊎ ((is_reserved b.id db.reservations ≡ false)
          × (end.reservations
              ≡ db.reservations ++ new_reservation id worker_id b.id b.nixos_id now ∷ []))
unfolding claim_next_derivation start_build
claim_reserves b worker_id id now db = elim (Bool-cases (is_reserved b.id db.reservations)) [
  | inl taken ↦ rw taken (inl refl)
  | inr free ↦ elim (Bool-cases (not (parents_exist b db.derivations))) [
    | inl orphan ↦ rw free rw orphan (inl refl)
    | inr present ↦ elim (Bool-cases (count_where (claimable b.id) db.derivations == 1)) [
      | inr missed ↦ rw free rw present rw missed (inl refl)
      | inl hit ↦
          elim (Option-cases (
            find (has_id b.id)
              (update_where (claimable b.id) (claim_columns now) db.derivations))) [
                | inl lost ↦ rw free rw present rw hit rw lost (inl refl)
                | inr (d, found) ↦ rw free rw present rw hit rw found (inr (refl, refl))
              ]
    ]
  ]
]

claim-LeaseStep :
    (b : Option BuildableDerivation) (worker_id : String) (id now : ℕ) (db : Database)
    → LeaseStep (holder db) (holder (claim_next_derivation b worker_id id now db).0)
unfolding claim_next_derivation new_reservation
claim-LeaseStep none worker_id id now db = stay (λ i. refl)
claim-LeaseStep (some b) worker_id id now db =
    let new = new_reservation id worker_id b.id b.nixos_id now in
    elim (claim_reserves b worker_id id now db) [
      | inl same ↦ stay (λ i. ap (λ rs. worker_of (find (reserves i) rs)) same)
      | inr (free, added) ↦
          acquire b.id worker_id (ap worker_of (find-eq-none (reserves b.id) db.reservations free))
            (ap (λ rs. worker_of (find (reserves b.id) rs)) added
              ∙ ap worker_of
                  (find-snoc_this reservation_key b.id db.reservations new free (==_refl b.id)))
            (λ i n.
              ap (λ rs. worker_of (find (reserves i) rs)) added
              ∙ ap worker_of (find-snoc_other reservation_key i db.reservations new (ground arith)))
    ]

-- The test of a DELETE of one worker's reservation of one derivation.
abbrev given_back : String → ℕ → BuildReservation → Bool
given_back worker_id d r = held_by worker_id r && reserves d r

module _ (worker_id : String) (d : ℕ) (rs : List BuildReservation) where
  others_survive :
      (i : ℕ)
      → i ≢ d
      → survivor (given_back worker_id d) (find (reserves i) rs) ≡ find (reserves i) rs
  others_survive i n = elim (Option-cases (find (reserves i) rs)) [
    | inl absent ↦ rw absent refl
    | inr (r, found) ↦
        let k = find-key reservation_key i rs r found in
        let kept : given_back worker_id d r ≡ false = ground arith in rw found rw kept refl
  ]

  all_survive :
      survivor (given_back worker_id d) (find (reserves d) rs) ≡ find (reserves d) rs
      → (i : ℕ) → survivor (given_back worker_id d) (find (reserves i) rs) ≡ find (reserves i) rs
  all_survive h i = elim (Bool-cases (i == d)) [
    | inl this ↦
        subst (λ j. survivor (given_back worker_id d) (find (reserves j) rs) ≡ find (reserves j) rs)
          (sym ((==_iff i d).0 this)) h
    | inr other ↦ others_survive i (ground arith)
  ]

release-LeaseStep :
    (worker_id : String) (d : ℕ) (db db' : Database)
    → IsUnique reservation_key db.reservations
    → db'.reservations ≡ delete_where (given_back worker_id d) db.reservations
    → LeaseStep (holder db) (holder db')
release-LeaseStep worker_id d db db' unique deleted =
    let after : (i : ℕ)
        → holder db' i
          ≡ worker_of (survivor (given_back worker_id d) (find (reserves i) db.reservations)) =
      λ i.
        ap (λ rs. worker_of (find (reserves i) rs)) deleted
        ∙ ap worker_of
            (find-delete_where reservation_key i (given_back worker_id d) db.reservations unique) in
    elim (Option-cases (find (reserves d) db.reservations)) [
      | inl absent ↦
          stay (λ i.
            after i ∙ ap worker_of (all_survive worker_id d db.reservations (rw absent refl) i))
      | inr (r, found) ↦
          let k = find-key reservation_key d db.reservations r found in
          let mine : (r.derivation_id == d) ≡ true = (==_iff r.derivation_id d).1 k in
          elim (Bool-cases (held_by worker_id r)) [
            | inr other ↦ stay (λ i.
                after i
                ∙ ap worker_of (all_survive worker_id d db.reservations (rw found rw other refl) i))
            | inl held ↦
                give_back d worker_id
                  (ap worker_of found ∙ ap some ((eq_iff r.worker_id worker_id).0 held))
                  (after d ∙ (rw found rw held rw mine refl))
                  (λ i n. after i ∙ ap worker_of (others_survive worker_id d db.reservations i n))
          ]
    ]

finish_releases :
    (worker_id : String) (push_to : Option String) (job_id now : ℕ) (d : Derivation)
    (outcome : BuildOutcome) (db : Database)
    → (finish_build worker_id push_to job_id now d outcome db).reservations
      ≡ delete_where (given_back worker_id d.id) db.reservations
unfolding finish_build mark_build_complete_and_release mark_build_failed_and_release
    delete_reservation
finish_releases worker_id push_to job_id now d (built path) db = refl
finish_releases worker_id push_to job_id now d (build_error e) db = refl
finish_releases worker_id push_to job_id now d (timed_out e) db = refl

beat_holder :
    (worker_id : String) (now i : ℕ) (rs : List BuildReservation)
    → worker_of (find (reserves i) (update_where (held_by worker_id) (beat now) rs))
      ≡ worker_of (find (reserves i) rs)
unfolding find update_where beat
beat_holder worker_id now i [] = refl
beat_holder worker_id now i (r ∷ rs) = ground (arith, beat_holder worker_id now i rs)

heartbeat-LeaseStep :
    (worker_id : String) (now : ℕ) (db : Database)
    → LeaseStep (holder db) (holder (update_heartbeat worker_id now db).0)
unfolding update_heartbeat
heartbeat-LeaseStep worker_id now db = stay (λ i. beat_holder worker_id now i db.reservations)

survivor_cases :
    {A : Type 0} (p : A → Bool) (o : Option A) → (survivor p o ≡ o) ⊎ (survivor p o ≡ none)
survivor_cases p none = inl refl
survivor_cases p (some x) = elim (Bool-cases (p x)) [
  | inl gone ↦ rw gone (inr refl)
  | inr kept ↦ rw kept (inl refl)
]

cleanup-LeaseStep :
    (threshold now : ℕ) (db : Database)
    → IsUnique reservation_key db.reservations
    → LeaseStep (holder db) (holder (cleanup_stale_reservations threshold now db).0)
unfolding cleanup_stale_reservations
cleanup-LeaseStep threshold now db unique = expire λ i.
    let after =
      find-delete_where reservation_key i (is_stale threshold now) db.reservations unique in
    elim (survivor_cases (is_stale threshold now) (find (reserves i) db.reservations)) [
      | inl kept ↦ inl (ap worker_of (after ∙ kept))
      | inr gone ↦ inr (ap worker_of (after ∙ gone))
    ]

Step-LeaseStep : {db db' : Database} → Inv db → Step db db' → LeaseStep (holder db) (holder db')
Step-LeaseStep {db = db} inv (claim b w id now e) =
    subst (λ t. LeaseStep (holder db) (holder t)) (sym e) (claim-LeaseStep b w id now db)
Step-LeaseStep {db = db} {db' = db'} inv (finish w to job now d outcome e) =
    release-LeaseStep w d.id db db' inv.reserved_once
      (ap (λ (t : Database). t.reservations) e ∙ finish_releases w to job now d outcome db)
Step-LeaseStep {db = db} inv (heartbeat w now e) =
    subst (λ t. LeaseStep (holder db) (holder t)) (sym e) (heartbeat-LeaseStep w now db)
Step-LeaseStep {db = db} inv (cleanup threshold now e) =
    subst (λ t. LeaseStep (holder db) (holder t)) (sym e)
      (cleanup-LeaseStep threshold now db inv.reserved_once)
Step-LeaseStep {db = db} inv (queue now e) =
    subst (λ t. LeaseStep (holder db) (holder t)) (sym e) (stay (λ i. refl))
Step-LeaseStep {db = db} inv (push_jobs jobs e) =
    subst (λ t. LeaseStep (holder db) (holder t)) (sym e) (stay (λ i. refl))

-- From a database where ids and reservations are unique and every BuildInProgress derivation is
-- reserved, the leases of every reachable one are reachable in the abstract machine, each step of
-- which takes a free derivation, gives back one that the worker holds, lets some expire, or changes
-- no lease.
pub Reach-LeaseReach :
    {db db' : Database} → Inv db → Reach db db' → LeaseReach (holder db) (holder db')
Reach-LeaseReach inv here = at_start
Reach-LeaseReach inv (next r s) = step (Reach-LeaseReach inv r) (Step-LeaseStep (Reach-Inv inv r) s)
