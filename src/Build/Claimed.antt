-- ===== src/Build/Claimed.antt =====
-- When a claim succeeds, what it leaves behind, and that it leaves nothing behind when it fails.
use mathlib.Core.Path.{subst}
use mathlib.Core.Option.{some-injective}
use crystal_forge.Prelude.{
  sym, ℕ, ◌+◌, ◌≡◌, ◌≢◌, refl, String, true, false, Bool-cases, Option-cases, none, some, inl, inr,
  ◌⊎◌, List, [], ◌∷◌, ◌++◌, ◌==◌, All, arith, ok,
}
use crystal_forge.Table.{update_where, find, exists, count_where}
use crystal_forge.Table.Keys.{IsUnique, find-key}
use crystal_forge.Derivation.{
  Derivation, has_id, as_id, dry_run_complete, build_pending, build_in_progress,
}
use crystal_forge.Build.{Database, BuildReservation, is_reserved, reserves, new_reservation}
use crystal_forge.Build.Claim.{
  BuildableDerivation, claimable, claim_columns, parents_exist, parent_exists,
  claim_next_derivation,
}

derivation_id : Derivation → ℕ
derivation_id d = d.id

module _ (i : ℕ) where
  count_absent : (ds : List Derivation) → All (λ d. d.id ≢ i) ds → count_where (claimable i) ds ≡ 0
  unfolding count_where claimable
  count_absent [] n = refl
  count_absent (d ∷ ds) n = ground (arith, count_absent ds n.1)

  -- Under unique ids the row found is the only one that the UPDATE can hit.
  count_found :
      (ds : List Derivation) (d : Derivation)
      → IsUnique (λ (r : Derivation). r.id) ds
      → find (has_id i) ds ≡ some d
      → claimable i d ≡ true
      → count_where (claimable i) ds ≡ 1
  unfolding count_where find claimable
  count_found [] d u f c = cc
  count_found (x ∷ xs) d u f c = elim (Bool-cases (x.id == i)) [
    | inl hit ↦
        let k : x.id ≡ i = ground arith in
        let none_later = count_absent xs (subst (λ n. All (λ z. z.id ≢ n) xs) k u.0) in
        let same : x ≡ d = some-injective x d (rw hit at f) in
        rw (subst (λ z. claimable i z ≡ true) (sym same) c, none_later)
    | inr miss ↦ ground (arith, count_found xs d u.1)
  ]

  -- The UPDATE of a claim, at the row found.
  find_claimed :
      (now : ℕ) (ds : List Derivation) (d : Derivation)
      → find (has_id i) ds ≡ some d
      → claimable i d ≡ true
      → find (has_id i) (update_where (claimable i) (claim_columns now) ds)
        ≡ some (claim_columns now d)
  unfolding find update_where claim_columns claimable
  find_claimed now [] d f c = cc
  find_claimed now (x ∷ xs) d f c = ground (arith, find_claimed now xs d)

  -- No other row is hit.
  find_unclaimed :
      (j now : ℕ) (ds : List Derivation)
      → i ≢ j
      → find (has_id j) (update_where (claimable i) (claim_columns now) ds) ≡ find (has_id j) ds
  unfolding find update_where claim_columns claimable
  find_unclaimed j now [] n = refl
  find_unclaimed j now (x ∷ xs) n = ground (arith, find_unclaimed j now xs n)

  found_exists :
      (ds : List Derivation) (d : Derivation)
      → find (has_id i) ds ≡ some d
      → exists (has_id i) ds ≡ true
  unfolding find exists
  found_exists [] d h = cc
  found_exists (x ∷ xs) d h = ground (arith, found_exists xs d)

  exists-snoc :
      (rs : List BuildReservation) (r : BuildReservation)
      → r.derivation_id ≡ i
      → exists (reserves i) (rs ++ r ∷ []) ≡ true
  unfolding exists
  exists-snoc [] r e = ground arith
  exists-snoc (x ∷ xs) r e = ground (arith, exists-snoc xs r e)

module _ (b : BuildableDerivation) (worker_id : String) (id now : ℕ) (db : Database) where
  claimable-waiting :
      (d : Derivation)
      → d.id ≡ b.id
      → (d.status_id ≡ as_id dry_run_complete) ⊎ (d.status_id ≡ as_id build_pending)
      → claimable b.id d ≡ true
  unfolding claimable
  claimable-waiting d same (inl status) = ground (arith, same, status)
  claimable-waiting d same (inr status) = ground (arith, same, status)

  -- A derivation with a unique id that is free, in the status DryRunComplete or BuildPending and
  -- with the parents of its reservation there is claimed: the answer is the row with the status
  -- BuildInProgress, started now, and with one more attempt; the table holds that row, every other
  -- row is found as before, and the one reservation added is that of the worker.
  pub claim_succeeds :
      (d : Derivation)
      → IsUnique (λ (r : Derivation). r.id) db.derivations
      → find (has_id b.id) db.derivations ≡ some d
      → (d.status_id ≡ as_id dry_run_complete) ⊎ (d.status_id ≡ as_id build_pending)
      → is_reserved b.id db.reservations ≡ false
      → parent_exists b.nixos_id db.derivations ≡ true
      → let (db', r) = claim_next_derivation (some b) worker_id id now db in
        let row = record d {
          status_id = as_id build_in_progress;
          started_at = some now;
          attempt_count = d.attempt_count + 1;
        } in
        (r ≡ ok (some row))
        × (find (has_id b.id) db'.derivations ≡ some row)
        × ((i : ℕ) → b.id ≢ i → find (has_id i) db'.derivations ≡ find (has_id i) db.derivations)
        × ((new : BuildReservation) × (db'.reservations ≡ db.reservations ++ new ∷ [])
            × (new.worker_id ≡ worker_id)
            × (new.derivation_id ≡ b.id))
  unfolding claim_next_derivation claim_columns new_reservation
  claim_succeeds d unique found waiting free parent =
      let same = find-key (λ (x : Derivation). x.id) b.id db.derivations d found in
      let fit = claimable-waiting d same waiting in
      let there = found_exists b.id db.derivations d found in
      let one = count_found b.id db.derivations d unique found fit in
      let after = find_claimed b.id now db.derivations d found fit in
      rw (free, there, parent, one, after)
        (refl, after, λ i n. find_unclaimed b.id i now db.derivations n, (_, refl, refl, refl))

  claim_reserved :
      is_reserved b.id db.reservations ≡ true
      → claim_next_derivation (some b) worker_id id now db ≡ (db, ok none)
  unfolding claim_next_derivation
  claim_reserved taken = rw taken

  -- A claim that gives a row has reserved it; any other claim leaves the database alone.
  claim_cases :
      ((d : Derivation) × ((claim_next_derivation (some b) worker_id id now db).1 ≡ ok (some d))
        × (is_reserved b.id (claim_next_derivation (some b) worker_id id now db).0.reservations
            ≡ true))
      ⊎ (((claim_next_derivation (some b) worker_id id now db).0 ≡ db)
          × ((d : Derivation)
              → (claim_next_derivation (some b) worker_id id now db).1 ≢ ok (some d)))
  unfolding claim_next_derivation
  claim_cases = elim (Bool-cases (is_reserved b.id db.reservations)) [
    | inl taken ↦ rw taken (inr (refl, λ d e. cc))
    | inr free ↦ elim (Bool-cases (parents_exist b db.derivations)) [
      | inr orphan ↦ rw (free, orphan) (inr (refl, λ d e. cc))
      | inl parents ↦ elim (Bool-cases (count_where (claimable b.id) db.derivations == 1)) [
        | inr other ↦ rw (free, parents, other) (inr (refl, λ d e. cc))
        | inl one ↦
            elim (Option-cases (
              find (has_id b.id)
                (update_where (claimable b.id) (claim_columns now) db.derivations))) [
                  | inl gone ↦ rw (free, parents, one, gone) (inr (refl, λ d e. cc))
                  | inr (d, got) ↦
                      rw (free, parents, one, got)
                        (inl (
                          d,
                          refl,
                          exists-snoc b.id db.reservations
                              (new_reservation id worker_id b.id b.nixos_id now)
                              (unfold new_reservation in refl),
                        ))
                ]
      ]
    ]
  ]

  -- A claim that answers with no derivation, or with an error, has changed nothing.
  pub claim_rolls_back :
      ((d : Derivation) → (claim_next_derivation (some b) worker_id id now db).1 ≢ ok (some d))
      → (claim_next_derivation (some b) worker_id id now db).0 ≡ db
  claim_rolls_back nothing = elim claim_cases [
    | inl (d, got, _) ↦ absurd (nothing d got)
    | inr (same, _) ↦ same
  ]

  claim_reserves :
      (d : Derivation)
      → (claim_next_derivation (some b) worker_id id now db).1 ≡ ok (some d)
      → is_reserved b.id (claim_next_derivation (some b) worker_id id now db).0.reservations ≡ true
  claim_reserves d got = elim claim_cases [
    | inl (_, _, reserved) ↦ reserved
    | inr (_, never) ↦ absurd (never d got)
  ]

-- After a successful claim no worker claims the same derivation: the second claim answers with no
-- derivation and leaves the database as the first one left it, whatever row its query had read.
pub claim_exclusive :
    (b c : BuildableDerivation) (worker_id other : String) (id id' now later : ℕ) (db : Database)
    (d : Derivation)
    → c.id ≡ b.id
    → (claim_next_derivation (some b) worker_id id now db).1 ≡ ok (some d)
    → let db' = (claim_next_derivation (some b) worker_id id now db).0 in
      claim_next_derivation (some c) other id' later db' ≡ (db', ok none)
claim_exclusive b c worker_id other id id' now later db d same got =
    claim_reserved c other id' later (claim_next_derivation (some b) worker_id id now db).0
      (rw same (claim_reserves b worker_id id now db d got))
