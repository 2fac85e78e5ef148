-- ===== src/Derivation/Insert/Unique.antt =====
-- The inserts keep at most one row for a key, and return that row.
use crystal_forge.Prelude.{
  ℕ, ◌+◌, ◌≤◌, ◌≡◌, refl, Bool, true, false, Bool-cases, inl, inr, Option, none, some, List, [],
  ◌∷◌, ◌++◌, String, arith, ok,
}
use text.Mathlib.TextPositions.{eq_refl}
use crystal_forge.Table.{update_where, find, exists, count_where}
use crystal_forge.Derivation.{
  Derivation, DerivationType, nixos_type, package_type, type_eq, as_id, dry_run_pending,
}
use crystal_forge.Derivation.Insert.{
  opt_eq, has_key, new_row, upsert, insert_derivation, type_of_target, keep_or_pending, refresh,
  insert_derivation_with_target,
}

module _ (key : Derivation → Bool) where
  count-not-exists : (ds : List Derivation) → exists key ds ≡ false → count_where key ds ≡ 0
  unfolding exists count_where
  count-not-exists [] h = refl
  count-not-exists (d ∷ ds) h = ground (arith, count-not-exists ds)

  count-pos : (ds : List Derivation) → exists key ds ≡ true → 1 ≤ count_where key ds
  unfolding exists count_where
  count-pos [] h = cc
  count-pos (d ∷ ds) h = ground (arith, count-pos ds)

  count-snoc :
      (new : Derivation) (ds : List Derivation)
      → key new ≡ true
      → count_where key (ds ++ new ∷ []) ≡ count_where key ds + 1
  unfolding count_where
  count-snoc new [] h = ground arith
  count-snoc new (d ∷ ds) h = ground (arith, count-snoc new ds h)

  count-update_where :
      (f : Derivation → Derivation) (ds : List Derivation)
      → ((d : Derivation) → key (f d) ≡ key d)
      → count_where key (update_where key f ds) ≡ count_where key ds
  unfolding count_where update_where
  count-update_where f [] same = refl
  count-update_where f (d ∷ ds) same = ground (arith, same d, count-update_where f ds same)

  find-snoc :
      (new : Derivation) (ds : List Derivation)
      → exists key ds ≡ false
      → key new ≡ true
      → find key (ds ++ new ∷ []) ≡ some new
  unfolding find exists
  find-snoc new [] e h = ground arith
  find-snoc new (d ∷ ds) e h = ground (arith, find-snoc new ds)

  find-update :
      (f : Derivation → Derivation) (ds : List Derivation) (d : Derivation)
      → ((d : Derivation) → key (f d) ≡ key d)
      → find key ds ≡ some d
      → find key (update_where key f ds) ≡ some (f d)
  unfolding find update_where
  find-update f [] d same h = cc
  find-update f (x ∷ ds) d same h = ground (arith, same x, find-update f ds d same)

  not-exists-find : (ds : List Derivation) → find key ds ≡ none → exists key ds ≡ false
  unfolding find exists
  not-exists-find [] h = refl
  not-exists-find (x ∷ ds) h = ground (arith, not-exists-find ds)

  exists-find :
      (ds : List Derivation) (d : Derivation) → find key ds ≡ some d → exists key ds ≡ true
  unfolding find exists
  exists-find [] d h = cc
  exists-find (x ∷ ds) d h = ground (arith, exists-find ds d)

  pub count-upsert :
      (new : Derivation) (f : Derivation → Derivation) (ds : List Derivation)
      → key new ≡ true
      → ((d : Derivation) → key (f d) ≡ key d)
      → count_where key ds ≤ 1
      → count_where key (upsert key new f ds).0 ≡ 1
  unfolding upsert
  count-upsert new f ds k same one = elim (Bool-cases (exists key ds)) [
    | inl e ↦ rw e (omega (arith, count-update_where f ds same, count-pos ds e))
    | inr e ↦ rw e (omega (arith, count-snoc new ds k, count-not-exists ds e))
  ]

  pub upsert_found :
      (new : Derivation) (f : Derivation → Derivation) (ds : List Derivation) (d : Derivation)
      → ((d : Derivation) → key (f d) ≡ key d)
      → find key ds ≡ some d
      → (upsert key new f ds).1 ≡ ok (f d)
  unfolding upsert
  upsert_found new f ds d same h = simp (exists-find ds d h, find-update f ds d same h)

  pub upsert_new :
      (new : Derivation) (f : Derivation → Derivation) (ds : List Derivation)
      → key new ≡ true
      → exists key ds ≡ false
      → upsert key new f ds ≡ (ds ++ new ∷ [], ok new)
  unfolding upsert
  upsert_new new f ds k h = simp (h, find-snoc new ds h k)

opt_eq_refl : (c : Option ℕ) → opt_eq c c ≡ true
opt_eq_refl none = refl
opt_eq_refl (some n) = ground arith

type_eq_refl : (t : DerivationType) → type_eq t t ≡ true
type_eq_refl nixos_type = refl
type_eq_refl package_type = refl

pub has_key-new_row :
    (id : ℕ) (c : Option ℕ) (t : DerivationType) (name : String) (s now : ℕ)
    → has_key c name t (new_row id c t name s now) ≡ true
unfolding has_key new_row
has_key-new_row id c t name s now = simp (opt_eq_refl, type_eq_refl, eq_refl)

pub has_key-refresh :
    (c : Option ℕ) (name : String) (t : DerivationType) (target : Option String) (now : ℕ)
    (d : Derivation)
    → has_key c name t (refresh target now d) ≡ has_key c name t d
unfolding has_key refresh
has_key-refresh c name t target now d = refl

has_key-keep :
    (c : Option ℕ) (name : String) (t : DerivationType) (d : Derivation)
    → has_key c name t (keep_or_pending d) ≡ has_key c name t d
unfolding has_key keep_or_pending
has_key-keep c name t d = refl

module _ (id : ℕ) (c : Option ℕ) (name : String) (now : ℕ) (ds : List Derivation) where
  -- `insert_derivation` leaves exactly one row for the commit, the name and the type, if there was
  -- at most one.
  pub insert_derivation_unique :
      (target_type : String)
      → let key = has_key c name (type_of_target target_type) in
        count_where key ds ≤ 1
        → count_where key (insert_derivation id c name target_type now ds).0 ≡ 1
  unfolding insert_derivation
  insert_derivation_unique target_type one =
      let t = type_of_target target_type in
      count-upsert (has_key c name t) (new_row id c t name (as_id dry_run_pending) now)
        keep_or_pending ds (has_key-new_row id c t name (as_id dry_run_pending) now)
        (has_key-keep c name t) one

module _ (id : ℕ) (c : Option ℕ) (name : String) (t : DerivationType) (target : Option String)
    (enabled : Option Bool) (now : ℕ) (ds : List Derivation) where
  pub insert_with_target_count :
      count_where (has_key c name t) ds ≤ 1
      → count_where
          (has_key c name t)
          (insert_derivation_with_target id c name t target enabled now ds).0
        ≡ 1
  unfolding insert_derivation_with_target
  insert_with_target_count one =
      count-upsert (has_key c name t) _ (refresh target now) ds
        (has_key-new_row id c t name (as_id dry_run_pending) now)
        (has_key-refresh c name t target now) one

  pub insert_with_target_new :
      find (has_key c name t) ds ≡ none
      → insert_derivation_with_target id c name t target enabled now ds ≡ (
        ds
            ++ record (new_row id c t name (as_id dry_run_pending) now) {
              derivation_target = target;
              cf_agent_enabled = enabled;
            }
              ∷ [],
        ok (record (new_row id c t name (as_id dry_run_pending) now) {
          derivation_target = target;
          cf_agent_enabled = enabled;
        }),
      )
  unfolding insert_derivation_with_target
  insert_with_target_new missing =
      upsert_new (has_key c name t) _ (refresh target now) ds
        (has_key-new_row id c t name (as_id dry_run_pending) now)
        (not-exists-find (has_key c name t) ds missing)

  pub insert_with_target-refresh :
      (d : Derivation)
      → find (has_key c name t) ds ≡ some d
      → (insert_derivation_with_target id c name t target enabled now ds).1
        ≡ ok (refresh target now d)
  unfolding insert_derivation_with_target
  insert_with_target-refresh d h =
      upsert_found (has_key c name t) _ (refresh target now) ds d
        (has_key-refresh c name t target now) h
