-- ===== src/Commits/Retries.antt =====
-- When a commit is evaluated again.
use mathlib.Core.Path.{subst}
use mathlib.Core.Option.{some-injective}
use crystal_forge.Prelude.{
  ℕ, ◌+◌, ◌*◌, ◌≤◌, ◌≡◌, refl, String, true, false, Bool-cases, inl, inr, some, List, [], ◌∷◌, ◌&&◌,
  ltb, leb, ◌==◌, All, All-map, arith, if◌then◌else◌, err, Error, ◌≢◌, ◌||◌, not, none, Bool, ◌∙◌,
}
use crystal_forge.Table.{update_where, find, exists}
use crystal_forge.Table.Keys.{IsUnique, find-update_where}
use crystal_forge.Derivation.{Derivation}
use crystal_forge.CachePush.{minute}
use crystal_forge.Commits.{
  Commit, pending, is_pending, wait_is_over, commit_has_id, attempts_of, derived_from,
  awaits_evaluation, insert_by_time, get_commits_pending_evaluation, started_commit, failed_commit,
  evaluate_commit, mark_commit_evaluation_started, is_stuck_evaluation,
  reset_stuck_commit_evaluations,
}

abbrev commit_id : Commit → ℕ
commit_id c = c.id

-- The wait after the n-th failure.
unfoldable pub wait_after : ℕ → ℕ
wait_after n = if ltb n 3 then minute else if n == 3 then 60 * minute else 120 * minute

module _ (P : Commit → Type 0) where
  insert_by_time-All :
      (c : Commit) (cs : List Commit) → P c → All P cs → All P (insert_by_time c cs)
  unfolding insert_by_time
  insert_by_time-All c [] p h = (p, tt)
  insert_by_time-All c (d ∷ ds) p h =
      elim (Bool-cases (leb d.commit_timestamp c.commit_timestamp)) [
        | inl before ↦ rw before (p, h)
        | inr after ↦ rw after (h.0, insert_by_time-All c ds p h.1)
      ]

module _ (ds : List Derivation) (i : ℕ) (c : Commit) (error : String) (now later : ℕ)
    (cs : List Commit) where
  find-started :
      find (commit_has_id i) cs ≡ some c
      → find (commit_has_id i) (mark_commit_evaluation_started i now cs)
        ≡ some (started_commit now c)
  unfolding mark_commit_evaluation_started
  find-started h = find-update_where commit_id i (started_commit now) cs (λ d. refl) c h

  pub find-failed :
      (e : Error)
      → find (commit_has_id i) cs ≡ some c
      → find (commit_has_id i) (evaluate_commit i (err e) error now later cs)
        ≡ some (failed_commit error (started_commit now c))
  unfolding evaluate_commit
  find-failed e h =
      find-update_where commit_id i (failed_commit error) (mark_commit_evaluation_started i now cs)
        (λ d. refl) (started_commit now c) (find-started h)

due_again :
    (ds : List Derivation) (error : String) (now t : ℕ) (c : Commit)
    → exists (derived_from c.id) ds ≡ false
    → attempts_of c ≤ 4
    → awaits_evaluation ds t (failed_commit error (started_commit now c))
      ≡ (ltb (attempts_of c + 1) 5 && ltb (now + wait_after (attempts_of c + 1)) t)
unfolding awaits_evaluation failed_commit started_commit wait_after
due_again ds error now t c fresh few = rw fresh (ground arith)

-- A commit with no derivations and fewer than five attempts whose evaluation fails is awaited again
-- only if attempts are left, and then exactly from a minute after its start on, an hour after the
-- third failure and two hours after the fourth.
pub evaluate_commit_retry :
    (ds : List Derivation) (i : ℕ) (c : Commit) (e : Error) (error : String) (now later : ℕ)
    (cs : List Commit)
    → exists (derived_from c.id) ds ≡ false
    → attempts_of c ≤ 4
    → find (commit_has_id i) cs ≡ some c
    → (c' : Commit) × (find (commit_has_id i) (evaluate_commit i (err e) error now later cs)
        ≡ some c')
      × ((t : ℕ)
          → awaits_evaluation ds t c'
            ≡ (ltb (attempts_of c + 1) 5 && ltb (now + wait_after (attempts_of c + 1)) t))
evaluate_commit_retry ds i c e error now later cs fresh few found = (
  failed_commit error (started_commit now c),
  find-failed ds i c error now later cs e found,
  λ t. due_again ds error now t c fresh few,
)

-- Whether the wait after the last start is over; a commit that was never started waits for nothing.
abbrev pub has_waited : ℕ → Commit → Bool
has_waited now c = elim c.evaluation_started_at [
  | none ↦ true
  | some t ↦ ltb (t + wait_after (attempts_of c)) now
]

awaits_lem :
    (ds : List Derivation) (now : ℕ) (c : Commit)
    → awaits_evaluation ds now c ≡ (
        not (exists (derived_from c.id) ds)
        && is_pending c.evaluation_status
        && ltb (attempts_of c) 5
        && has_waited now c)
unfolding awaits_evaluation wait_is_over wait_after
awaits_lem ds now c = ground arith

module _ (p : Commit → Bool) where
  exists-insert_by_time :
      (c : Commit) (cs : List Commit) → exists p (insert_by_time c cs) ≡ (p c || exists p cs)
  unfolding exists insert_by_time
  exists-insert_by_time c [] = refl
  exists-insert_by_time c (d ∷ cs) = ground (arith, exists-insert_by_time c cs)

  exists-pending :
      (ds : List Derivation) (now : ℕ) (cs : List Commit)
      → exists p (get_commits_pending_evaluation ds now cs)
        ≡ exists (λ c. p c && awaits_evaluation ds now c) cs
  unfolding exists get_commits_pending_evaluation
  exists-pending ds now [] = refl
  exists-pending ds now (c ∷ cs) = elim (Bool-cases (awaits_evaluation ds now c)) [
    | inl waits ↦
        rw waits rw (exists-insert_by_time c (get_commits_pending_evaluation ds now cs))
          (ground (arith, exists-pending ds now cs))
    | inr skipped ↦ rw skipped (ground (arith, exists-pending ds now cs))
  ]

module _ (i : ℕ) (q : Commit → Bool) where
  exists-absent :
      (cs : List Commit)
      → All (λ c. c.id ≢ i) cs
      → exists (λ c. commit_has_id i c && q c) cs ≡ false
  unfolding exists
  exists-absent [] h = refl
  exists-absent (c ∷ cs) h = ground (arith, exists-absent cs h.1)

  -- Under unique ids a test at an id is a test of the row found.
  exists_unique :
      (cs : List Commit) (c : Commit)
      → IsUnique commit_id cs
      → find (commit_has_id i) cs ≡ some c
      → exists (λ c. commit_has_id i c && q c) cs ≡ q c
  unfolding exists find
  exists_unique [] c u h = cc
  exists_unique (x ∷ cs) c u h = elim (Bool-cases (x.id == i)) [
    | inl hit ↦
        let k : x.id ≡ i = ground arith in
        let same : x ≡ c = some-injective x c (rw hit at h) in
        rw (exists-absent cs (subst (λ n. All (λ z. z.id ≢ n) cs) k u.0)) rw hit rw same
          (ground arith)
    | inr miss ↦ ground (arith, exists_unique cs c u.1)
  ]

-- From the newest commit to the oldest.
abbrev pub NewestFirst : List Commit → Type 0
NewestFirst [] = Unit
NewestFirst (c ∷ cs) = All (λ d. d.commit_timestamp ≤ c.commit_timestamp) cs × NewestFirst cs

insert_by_time-NewestFirst :
    (c : Commit) (cs : List Commit) → NewestFirst cs → NewestFirst (insert_by_time c cs)
unfolding insert_by_time
insert_by_time-NewestFirst c [] h = (tt, tt)
insert_by_time-NewestFirst c (d ∷ cs) h =
    elim (Bool-cases (leb d.commit_timestamp c.commit_timestamp)) [
      | inl before ↦
          let first : d.commit_timestamp ≤ c.commit_timestamp = ground arith in
          rw before ((first, All-map _ _ cs (λ e low. omega (arith, low, first)) h.0), h)
      | inr after ↦
          let last : c.commit_timestamp ≤ d.commit_timestamp = ground arith in
          rw after (
            insert_by_time-All (λ e. e.commit_timestamp ≤ d.commit_timestamp) c cs last h.0,
            insert_by_time-NewestFirst c cs h.1,
          )
    ]

pending-NewestFirst :
    (ds : List Derivation) (now : ℕ) (cs : List Commit)
    → NewestFirst (get_commits_pending_evaluation ds now cs)
unfolding get_commits_pending_evaluation
pending-NewestFirst ds now [] = tt
pending-NewestFirst ds now (c ∷ cs) = elim (Bool-cases (awaits_evaluation ds now c)) [
  | inl waits ↦ rw waits (
      insert_by_time-NewestFirst c (get_commits_pending_evaluation ds now cs)
        (pending-NewestFirst ds now cs))
  | inr skipped ↦ rw skipped (pending-NewestFirst ds now cs)
]

-- Under unique ids a commit is given exactly if it has no derivation, is pending, has fewer than
-- five attempts, and was never started or is a minute past its start, an hour after the third
-- attempt and two hours after the fourth; the commits are given from the newest to the oldest.
pub get_commits_pending_evaluation_lem :
    (ds : List Derivation) (now i : ℕ) (cs : List Commit) (c : Commit)
    → IsUnique commit_id cs
    → find (commit_has_id i) cs ≡ some c
    → (exists (commit_has_id i) (get_commits_pending_evaluation ds now cs) ≡ (
        not (exists (derived_from c.id) ds)
        && is_pending c.evaluation_status
        && ltb (attempts_of c) 5
        && has_waited now c))
      × NewestFirst (get_commits_pending_evaluation ds now cs)
get_commits_pending_evaluation_lem ds now i cs c unique found = (
  exists-pending (commit_has_id i) ds now cs
      ∙ exists_unique i (awaits_evaluation ds now) cs c unique found
      ∙ awaits_lem ds now c,
  pending-NewestFirst ds now cs,
)

find-reset :
    (i now : ℕ) (cs : List Commit) (c : Commit)
    → find (commit_has_id i) cs ≡ some c
    → is_stuck_evaluation now c ≡ true
    → find (commit_has_id i) (reset_stuck_commit_evaluations now cs)
      ≡ some (record c { evaluation_status = pending })
unfolding reset_stuck_commit_evaluations find update_where
find-reset i now [] c h stuck = cc
find-reset i now (x ∷ xs) c h stuck = ground (arith, find-reset i now xs c)

spent_never_awaited :
    (ds : List Derivation) (t : ℕ) (c : Commit)
    → 5 ≤ attempts_of c
    → awaits_evaluation ds t c ≡ false
unfolding awaits_evaluation
spent_never_awaited ds t c h = ground arith

-- A commit whose last attempt was cut off is set back to pending by the reset, and is then never
-- given again, whatever the time.
pub reset_strands_commit :
    (ds : List Derivation) (i : ℕ) (c : Commit) (now : ℕ) (cs : List Commit)
    → find (commit_has_id i) cs ≡ some c
    → is_stuck_evaluation now c ≡ true
    → 5 ≤ attempts_of c
    → (c' : Commit) × (find (commit_has_id i) (reset_stuck_commit_evaluations now cs) ≡ some c')
      × (c'.evaluation_status ≡ pending)
      × ((t : ℕ) → awaits_evaluation ds t c' ≡ false)
reset_strands_commit ds i c now cs found stuck spent = (
  record c { evaluation_status = pending },
  find-reset i now cs c found stuck,
  refl,
  λ t. spent_never_awaited ds t (record c { evaluation_status = pending }) spent,
)
