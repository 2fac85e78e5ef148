-- ===== src/Evaluation/Jobs/Marked.antt =====
-- What a run of nix-eval-jobs leaves for a system that it evaluated.
use crystal_forge.Prelude.{
  ℕ, ◌≡◌, refl, String, Bool, true, false, Option, none, some, List, [], ◌∷◌, ◌++◌, ok, arith,
}
use crystal_forge.Table.{exists}
use crystal_forge.Derivation.{Derivation}
use crystal_forge.Derivation.Update.{has_path}
use crystal_forge.Commits.{Commit}
use crystal_forge.Evaluation.Policy.{DeploymentPolicy, JsonValue, PolicyCheckResult}
use crystal_forge.Evaluation.Jobs.{
  NixEvalJobResult, Line, io_error, logged, evaluated, Progress, last, read_result, read_lines,
  mark_evaluated, no_progress, strict_failure, conclude, evaluate_with_nix_eval_jobs, enabled_of,
  check_of,
}
use crystal_forge.Evaluation.Jobs.Marking.{is_evaluated, mark_tracked}
use crystal_forge.Evaluation.Jobs.Tracking.{
  or_false_left, or_false_right, path_free, IsUntouched, IsTracked, insert_result-IsUntouched,
  insert_result-IsTracked, insert_result_tracks, gives_path,
}

module _ {J : Type 0} (json : JsonValue J) (commit : Commit) (repo_url : String)
    (target_system : String) (policies : List DeploymentPolicy) (now : ℕ) (name : String) where
  read_lines-IsTracked :
      (path : String) (lines : List (Line J)) (i : ℕ) (p : Progress J)
      → exists (gives_path path) lines ≡ false
      → IsTracked commit.id name path i p
      → IsTracked commit.id name path i
          (read_lines json commit repo_url target_system policies now lines p).0
  unfolding read_lines read_result exists
  read_lines-IsTracked path [] i p others h = h
  read_lines-IsTracked path (io_error e ∷ lines) i p others h = h
  read_lines-IsTracked path (logged ∷ lines) i p others h =
      read_lines-IsTracked path lines i p others h
  read_lines-IsTracked path (evaluated r ∷ lines) i p others h =
      read_lines-IsTracked path lines i
        (read_result json commit repo_url target_system policies now r p)
        (or_false_right _ _ others)
        (insert_result-IsTracked json commit repo_url target_system policies now name path r
          (enabled_of (check_of json policies r)) i p (or_false_left _ _ others) h)

  read_lines_tracks :
      (before after : List (Line J)) (r : NixEvalJobResult J) (path : String) (p : Progress J)
      → last r.attr_path ≡ some name
      → r.drv_path ≡ some path
      → r.error ≡ none
      → exists (gives_path path) before ≡ false
      → exists (gives_path path) after ≡ false
      → IsUntouched path p
      → (read_lines json commit repo_url target_system policies now
          (before ++ evaluated r ∷ after)
          p).1
        ≡ none
      → (i : ℕ) × IsTracked commit.id name path i
          (read_lines json commit repo_url target_system policies now
            (before ++ evaluated r ∷ after)
            p).0
  unfolding read_lines read_result exists
  read_lines_tracks [] after r path p named evaluates fine first last_one free whole =
      let (i, h) =
        insert_result_tracks json commit repo_url target_system policies now name r
          (enabled_of (check_of json policies r)) path p named evaluates fine free in
      (
        i,
        read_lines-IsTracked path after i
            (read_result json commit repo_url target_system policies now r p) last_one h,
      )
  read_lines_tracks (io_error e ∷ before) after r path p named evaluates fine first last_one free
        whole =
      cc
  read_lines_tracks (logged ∷ before) after r path p named evaluates fine first last_one free
        whole =
      read_lines_tracks before after r path p named evaluates fine first last_one free whole
  read_lines_tracks (evaluated s ∷ before) after r path p named evaluates fine first last_one free
        whole =
      read_lines_tracks before after r path
        (read_result json commit repo_url target_system policies now s p) named evaluates fine
        (or_false_right _ _ first) last_one
        (insert_result-IsUntouched json commit repo_url target_system policies now name path s
          (enabled_of (check_of json policies s)) p (or_false_left _ _ first) free)
        whole

module _ {J : Type 0} (target_system : String) (policies : List DeploymentPolicy) (success : Bool)
    (later : ℕ) where
  conclude_ok :
      (p : Progress J) (o : Option String)
      (answer : List (NixEvalJobResult J) × List PolicyCheckResult)
      → (conclude target_system policies success later (p, o)).1 ≡ ok answer
      → (o ≡ none)
        × ((conclude target_system policies success later (p, o)).0
            ≡ mark_evaluated p.evaluated_derivations later p.derivations)
        × (success ≡ true)
        × (exists (strict_failure policies) answer.1 ≡ false)
  unfolding conclude
  conclude_ok p (some e) answer h = cc
  conclude_ok p none answer h = ground arith

-- Of a run that returns its results the process ended well, no check fails under a strict policy, and
-- a system whose line has a path and no error has a row of the commit with the status
-- DryRunComplete and a path, if no row has that path before the run and no other line gives it.
pub evaluate_marks :
    {J : Type 0} (json : JsonValue J) (commit : Commit) (repo_url : String) (target_system : String)
    (policies : List DeploymentPolicy) (now : ℕ) (before after : List (Line J))
    (r : NixEvalJobResult J) (name path : String) (success : Bool) (later next_id : ℕ)
    (ds : List Derivation) (answer : List (NixEvalJobResult J) × List PolicyCheckResult)
    → last r.attr_path ≡ some name
    → r.drv_path ≡ some path
    → r.error ≡ none
    → exists (gives_path path) before ≡ false
    → exists (gives_path path) after ≡ false
    → exists (has_path path) ds ≡ false
    → let run =
        evaluate_with_nix_eval_jobs json commit repo_url target_system policies now
          (before ++ evaluated r ∷ after)
          success
          later
          next_id
          ds in
      run.1 ≡ ok answer
      → (exists (is_evaluated commit.id name) run.0 ≡ true)
        × (success ≡ true)
        × (exists (strict_failure policies) answer.1 ≡ false)
unfolding evaluate_with_nix_eval_jobs
evaluate_marks json commit repo_url target_system policies now before after r name path success
      later next_id ds answer named evaluates fine first last_one free finished =
    let read =
      read_lines json commit repo_url target_system policies now (before ++ evaluated r ∷ after)
        (no_progress ds next_id) in
    let (whole, marked, exited, strict) =
      conclude_ok target_system policies success later read.0 read.1 answer finished in
    let (i, (e, only, still_free, row)) =
      read_lines_tracks json commit repo_url target_system policies now name before after r path
        (no_progress ds next_id) named evaluates fine first last_one
        (unfold exists no_progress in (refl, free)) whole in
    (
      rw marked (
          mark_tracked commit.id name i path _ later _ e only
            (path_free i path read.0.derivations still_free) row),
      exited,
      strict,
    )
