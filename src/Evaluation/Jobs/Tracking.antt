-- ===== src/Evaluation/Jobs/Tracking.antt =====
-- How the lines of a run lead to rows that are tracked for the closing UPDATEs.
use crystal_forge.Prelude.{
  ℕ, ◌≡◌, refl, String, Bool, true, false, Option-cases, inl, inr, Option, none, some, List, [],
  ◌∷◌, ◌++◌, ◌||◌, ==_refl, Result, ok, err, arith, str_eq, eq_iff,
}
use crystal_forge.Table.{exists}
use crystal_forge.Table.Rows.{exists-append, exists-append_none, exists-snoc, exists-find}
use crystal_forge.Derivation.{Derivation, nixos_type}
use crystal_forge.Derivation.Update.{has_path, path_taken}
use crystal_forge.Derivation.Insert.{has_key, refresh, insert_derivation_with_target}
use crystal_forge.Derivation.Insert.Kept.{
  insert_with_target_row, insert_with_target_kept, insert_with_target_none,
}
use crystal_forge.Commits.{Commit}
use crystal_forge.Evaluation.Flake.{evaluated_agent_target}
use crystal_forge.Evaluation.Policy.{DeploymentPolicy, JsonValue}
use crystal_forge.Evaluation.Jobs.{
  NixEvalJobResult, Line, io_error, logged, evaluated, Progress, last, after_insert, tracked,
  insert_result,
}
use crystal_forge.Evaluation.Jobs.Marking.{is_system, row_with, tracks, rivals}

-- Whether a line gives the path.
abbrev pub gives_path : {J : Type 0} → String → Line J → Bool
gives_path path (io_error e) = false
gives_path path logged = false
gives_path path (evaluated r) = elim r.drv_path [ none ↦ false | some p ↦ str_eq p path ]

pub or_false_left : (a b : Bool) → (a || b) ≡ false → a ≡ false
or_false_left a b h = ground arith

pub or_false_right : (a b : Bool) → (a || b) ≡ false → b ≡ false
or_false_right a b h = ground arith

exists-snoc_tracks :
    (i : ℕ) (es : List (ℕ × String)) (path : String)
    → exists (tracks i path) (es ++ (i, path) ∷ []) ≡ true
exists-snoc_tracks i es path =
    let same = ==_refl i in
    let text = (eq_iff path path).1 refl in exists-snoc (tracks i path) es (i, path) (ground arith)

-- Where no id is tracked with the path, the first one has no rival.
exists-snoc_rivals :
    (i : ℕ) (es : List (ℕ × String)) (path : String)
    → exists (λ e. str_eq e.1 path) es ≡ false
    → exists (rivals i path) (es ++ (i, path) ∷ []) ≡ false
unfolding exists
exists-snoc_rivals i [] path h = let same = ==_refl i in ground arith
exists-snoc_rivals i (e ∷ es) path h = ground (arith, exists-snoc_rivals i es path)

-- A path that no row has is not taken.
pub path_free :
    (i : ℕ) (path : String) (ds : List Derivation)
    → exists (has_path path) ds ≡ false
    → path_taken i (some path) ds ≡ false
unfolding exists
path_free i path [] h = refl
path_free i path (d ∷ ds) h = ground (arith, path_free i path ds)

-- A line that does not give the path adds no entry with it.
tracked_other :
    {J : Type 0} (path : String) (r : NixEvalJobResult J) (id : ℕ)
    → gives_path path (evaluated r) ≡ false
    → exists (λ e. str_eq e.1 path) (tracked r id) ≡ false
unfolding exists
tracked_other path r id h = ground arith

tracked_no_rival :
    {J : Type 0} (i : ℕ) (path : String) (r : NixEvalJobResult J) (id : ℕ)
    → gives_path path (evaluated r) ≡ false
    → exists (rivals i path) (tracked r id) ≡ false
unfolding exists
tracked_no_rival i path r id h = ground arith

-- No row has the path and no id is tracked with it.
abbrev pub IsUntouched : {J : Type 0} → String → Progress J → Type 0
IsUntouched path p =
    (exists (λ e. str_eq e.1 path) p.evaluated_derivations ≡ false)
    × (exists (has_path path) p.derivations ≡ false)

-- A row of the system is the only one that is tracked with the path, which no row has yet.
abbrev pub IsTracked : {J : Type 0} → ℕ → String → String → ℕ → Progress J → Type 0
IsTracked commit_id name path i p =
    (exists (tracks i path) p.evaluated_derivations ≡ true)
    × (exists (rivals i path) p.evaluated_derivations ≡ false)
    × (exists (has_path path) p.derivations ≡ false)
    × (exists (row_with commit_id name i) p.derivations ≡ true)

module _ {J : Type 0} (json : JsonValue J) (commit : Commit) (repo_url : String)
    (target_system : String) (policies : List DeploymentPolicy) (now : ℕ) (name : String) where
  insert_keeps :
      (id i : ℕ) (s : String) (t : Option String) (a : Option Bool) (ds : List Derivation)
      → exists (row_with commit.id name i) ds ≡ true
      → exists
          (row_with commit.id name i)
          (insert_derivation_with_target id (some commit.id) s nixos_type t a now ds).0
        ≡ true
  unfolding has_key refresh
  insert_keeps id i s t a ds h =
      insert_with_target_kept id (some commit.id) s nixos_type t a now ds
        (row_with commit.id name i) (λ d. refl) h

  after_insert-IsUntouched :
      (path : String) (r : NixEvalJobResult J) (ds : List Derivation) (a : Result Derivation)
      (p : Progress J)
      → gives_path path (evaluated r) ≡ false
      → exists (λ e. str_eq e.1 path) p.evaluated_derivations ≡ false
      → exists (has_path path) ds ≡ false
      → IsUntouched path (after_insert r (ds, a) p)
  after_insert-IsUntouched path r ds (ok d) p other e h = (
    exists-append_none _ p.evaluated_derivations (tracked r d.id) e
        (tracked_other path r d.id other),
    h,
  )
  after_insert-IsUntouched path r ds (err x) p other e h = (e, h)

  pub insert_result-IsUntouched :
      (path : String) (r : NixEvalJobResult J) (a : Option Bool) (p : Progress J)
      → gives_path path (evaluated r) ≡ false
      → IsUntouched path p
      → IsUntouched path (insert_result json commit repo_url target_system policies now r a p)
  unfolding insert_result
  insert_result-IsUntouched path r a p other (e, free) = elim (Option-cases (last r.attr_path)) [
    | inl none_left ↦ rw (none_left, insert_result) (e, free)
    | inr (s, named) ↦
        rw (named, insert_result)
          (after_insert-IsUntouched path r _ _ p other e (
            insert_with_target_none p.next_id (some commit.id) s nixos_type
              (some (evaluated_agent_target repo_url commit.git_commit_hash s)) a now p.derivations
              path free))
  ]

  after_insert-IsTracked :
      (path : String) (r : NixEvalJobResult J) (i : ℕ) (ds : List Derivation)
      (a : Result Derivation) (p : Progress J)
      → gives_path path (evaluated r) ≡ false
      → IsTracked commit.id name path i (record p { derivations = ds })
      → IsTracked commit.id name path i (after_insert r (ds, a) p)
  after_insert-IsTracked path r i ds (ok d) p other (e, only, free, row) = (
    exists-append _ p.evaluated_derivations (tracked r d.id) e,
    exists-append_none _ p.evaluated_derivations (tracked r d.id) only
        (tracked_no_rival i path r d.id other),
    free,
    row,
  )
  after_insert-IsTracked path r i ds (err x) p other h = h

  pub insert_result-IsTracked :
      (path : String) (r : NixEvalJobResult J) (a : Option Bool) (i : ℕ) (p : Progress J)
      → gives_path path (evaluated r) ≡ false
      → IsTracked commit.id name path i p
      → IsTracked commit.id name path i
          (insert_result json commit repo_url target_system policies now r a p)
  unfolding insert_result
  insert_result-IsTracked path r a i p other (e, only, free, row) =
      elim (Option-cases (last r.attr_path)) [
        | inl none_left ↦ rw (none_left, insert_result) (e, only, free, row)
        | inr (s, named) ↦
            let target = some (evaluated_agent_target repo_url commit.git_commit_hash s) in
            rw (named, insert_result)
              (after_insert-IsTracked path r i _ _ p other (
                e,
                only,
                insert_with_target_none p.next_id (some commit.id) s nixos_type target a now
                    p.derivations path free,
                insert_keeps p.next_id i s target a p.derivations row,
              ))
      ]

  after_insert_tracks :
      (r : NixEvalJobResult J) (path : String) (d : Derivation) (ds : List Derivation)
      (a : Result Derivation) (p : Progress J)
      → a ≡ ok d
      → r.drv_path ≡ some path
      → r.error ≡ none
      → exists (λ e. str_eq e.1 path) p.evaluated_derivations ≡ false
      → exists (has_path path) ds ≡ false
      → exists (row_with commit.id name d.id) ds ≡ true
      → IsTracked commit.id name path d.id (after_insert r (ds, a) p)
  after_insert_tracks r path d ds a p answer evaluates fine e free row =
      rw answer rw evaluates rw fine (
        exists-snoc_tracks d.id p.evaluated_derivations path,
        exists-snoc_rivals d.id p.evaluated_derivations path e,
        free,
        row,
      )

  -- A line with a path and no error tracks the row of its system.
  pub insert_result_tracks :
      (r : NixEvalJobResult J) (a : Option Bool) (path : String) (p : Progress J)
      → last r.attr_path ≡ some name
      → r.drv_path ≡ some path
      → r.error ≡ none
      → IsUntouched path p
      → (i : ℕ) × IsTracked commit.id name path i
          (insert_result json commit repo_url target_system policies now r a p)
  unfolding insert_result
  insert_result_tracks r a path p named evaluates fine (e, free) =
      let target = some (evaluated_agent_target repo_url commit.git_commit_hash name) in
      let (d, answer, found) =
        insert_with_target_row p.next_id (some commit.id) name nixos_type target a now
          p.derivations in
      let row =
        exists-find (is_system commit.id name) (row_with commit.id name d.id) _ d found
          λ h. let same = ==_refl d.id in ground arith in
      let still_free =
        insert_with_target_none p.next_id (some commit.id) name nixos_type target a now
          p.derivations path free in
      (
        d.id,
        rw (named, insert_result)
            (after_insert_tracks r path d _ _ p answer evaluates fine e still_free row),
      )
