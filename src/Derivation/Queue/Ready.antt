-- ===== src/Derivation/Queue/Ready.antt =====
-- Queueing for the builders: what is counted, what changes, and what a second call finds.
use mathlib.Core.Path.{ap₂}
use crystal_forge.Prelude.{ℕ, ◌+◌, ◌≡◌, refl, Bool, true, false, List, [], ◌∷◌, arith}
use crystal_forge.Table.{update_where, count_where}
use crystal_forge.Derivation.{Derivation, build_pending, has_status}
use crystal_forge.Derivation.Queue.{
  queue_columns, ready_for_build, queue_all_ready_derivations, auto_queue_cf_agent_systems,
  agent_candidate,
}

module _ (p : Derivation → Bool) (f g : Derivation → Derivation)
    (leaves : (d : Derivation) → p d ≡ true → p (f d) ≡ false) where
  none_left : (ds : List Derivation) → count_where p (update_where p f ds) ≡ 0
  unfolding count_where update_where
  none_left [] = refl
  none_left (d ∷ ds) = ground (arith, leaves d, none_left ds)

  update_idem :
      (ds : List Derivation) → update_where p g (update_where p f ds) ≡ update_where p f ds
  unfolding update_where
  update_idem [] = refl
  update_idem (d ∷ ds) = ground (arith, leaves d, update_idem ds)

module _ (q p : Derivation → Bool) (f : Derivation → Derivation)
    (hit : (d : Derivation) → p d ≡ true → (q d ≡ false) × (q (f d) ≡ true)) where
  count_gain :
      (ds : List Derivation)
      → count_where q (update_where p f ds) ≡ count_where q ds + count_where p ds
  unfolding count_where update_where
  count_gain [] = refl
  count_gain (d ∷ ds) = ground (arith, hit d, count_gain ds)

ready_leaves :
    (now : ℕ) (d : Derivation)
    → ready_for_build d ≡ true
    → ready_for_build (queue_columns now d) ≡ false
unfolding ready_for_build queue_columns
ready_leaves now d h = ground arith

ready_gain :
    (now : ℕ) (d : Derivation)
    → ready_for_build d ≡ true
    → (has_status build_pending d ≡ false) × (has_status build_pending (queue_columns now d) ≡ true)
unfolding ready_for_build queue_columns
ready_gain now d h = ground arith

-- `queue_all_ready_derivations` raises the number of BuildPending rows by the count it returns,
-- and a second call changes no row and returns 0.
pub queue_all_ready_derivations_lem :
    (now later : ℕ) (ds : List Derivation)
    → let (ds', n) = queue_all_ready_derivations now ds in
      (count_where (has_status build_pending) ds' ≡ count_where (has_status build_pending) ds + n)
      × (queue_all_ready_derivations later ds' ≡ (ds', 0))
unfolding queue_all_ready_derivations
queue_all_ready_derivations_lem now later ds = (
  count_gain (has_status build_pending) ready_for_build (queue_columns now) (ready_gain now) ds,
  ap₂ (λ (xs : List Derivation) (n : ℕ). (xs, n))
      (update_idem ready_for_build (queue_columns now) (queue_columns later) (ready_leaves now) ds)
      (none_left ready_for_build (queue_columns now) (queue_columns later) (ready_leaves now) ds),
)

agent_leaves :
    (c now : ℕ) (d : Derivation)
    → agent_candidate c d ≡ true
    → agent_candidate c (queue_columns now d) ≡ false
unfolding agent_candidate queue_columns
agent_leaves c now d h = ground arith

agent_gain :
    (c now : ℕ) (d : Derivation)
    → agent_candidate c d ≡ true
    → (has_status build_pending d ≡ false) × (has_status build_pending (queue_columns now d) ≡ true)
unfolding agent_candidate queue_columns
agent_gain c now d h = ground arith

-- `auto_queue_cf_agent_systems` raises the number of BuildPending rows by the count it returns,
-- and a second call for the same commit changes no row and returns 0.
pub auto_queue_cf_agent_systems_lem :
    (c now later : ℕ) (ds : List Derivation)
    → let (ds', n) = auto_queue_cf_agent_systems c now ds in
      (count_where (has_status build_pending) ds' ≡ count_where (has_status build_pending) ds + n)
      × (auto_queue_cf_agent_systems c later ds' ≡ (ds', 0))
unfolding auto_queue_cf_agent_systems
auto_queue_cf_agent_systems_lem c now later ds = (
  count_gain (has_status build_pending) (agent_candidate c) (queue_columns now) (agent_gain c now)
      ds,
  ap₂ (λ (xs : List Derivation) (n : ℕ). (xs, n))
      (update_idem (agent_candidate c) (queue_columns now) (queue_columns later)
        (agent_leaves c now) ds)
      (none_left (agent_candidate c) (queue_columns now) (queue_columns later) (agent_leaves c now)
        ds),
)
