-- ===== src/Evaluation/Jobs.antt =====
-- models/evaluate_with_policies.rs: one run of nix-eval-jobs on a commit, whose lines become rows of
-- `derivations`, and the body of the server's loop over the commits.
-- The JSON of a line is read by serde_json; the clock is read once for the inserts.
pub mod Marking
pub mod Tracking
pub mod Marked
pub mod Stranded
use crystal_forge.Prelude.{
  ℕ, ◌+◌, String, Bool, true, false, Option, none, some, List, [], ◌∷◌, ◌++◌, ◌&&◌, ◌||◌, not,
  Result, ok, err, Error, message, if◌then◌else◌, str_eq, is_some, is_none,
}
use crystal_forge.Table.{update_where, exists}
use crystal_forge.Derivation.{Derivation, as_id, dry_run_complete, has_id, nixos_type}
use crystal_forge.Derivation.Update.{path_taken}
use crystal_forge.Derivation.Insert.{insert_derivation_with_target}
use crystal_forge.Commits.{Commit, evaluate_commit}
use crystal_forge.Evaluation.Flake.{evaluated_agent_target}
use crystal_forge.Evaluation.Policy.{
  DeploymentPolicy, require_crystal_forge_agent, is_strict, JsonValue, PolicyCheckResult, from_json,
}

pub record NixEvalJobResult (J : Type 0) : Type 0 where
  pub attr : String
  pub attr_path : List String
  pub name : String
  pub drv_path : Option String
  pub error : Option String
  pub cache_status : Option String
  pub outputs : Option J
  pub meta : Option J

-- What the loop reads next: an error of a pipe, a line that is logged at most (a blank one, one that
-- is not a result, one of stderr), or a result.
pub data Line (J : Type 0) : Type 0 where
  io_error : String → Line J
  logged : Line J
  evaluated : NixEvalJobResult J → Line J

-- The variables of the loop, the table of derivations and the next value of its sequence.
pub record Progress (J : Type 0) : Type 0 where
  pub derivations : List Derivation
  pub next_id : ℕ
  pub results : List (NixEvalJobResult J)
  pub policy_checks : List PolicyCheckResult
  pub found_target : Bool
  pub evaluated_derivations : List (ℕ × String)

abbrev pub last : List String → Option String
last [] = none
last (s ∷ []) = some s
last (s ∷ t ∷ rest) = last (t ∷ rest)

-- meta.policies, where both are there
abbrev policies_of : {J : Type 0} → JsonValue J → NixEvalJobResult J → Option J
policies_of json r = elim r.meta [ none ↦ none | some meta ↦ json.get meta "policies" ]

abbrev pub check_of :
    {J : Type 0}
    → JsonValue J
    → List DeploymentPolicy
    → NixEvalJobResult J
    → Option PolicyCheckResult
check_of json policies r = elim (policies_of json r) [
  | none ↦ none
  | some v ↦ some (from_json json r.attr v policies)
]

abbrev pub enabled_of : Option PolicyCheckResult → Option Bool
enabled_of none = none
enabled_of (some check) = check.cf_agent_enabled

abbrev push_some {ℓ} : {A : Type ℓ} → Option A → List A → List A
push_some none xs = xs
push_some (some x) xs = xs ++ x ∷ []

-- A row is tracked where the result has a path and no error.
abbrev pub tracked : {J : Type 0} → NixEvalJobResult J → ℕ → List (ℕ × String)
tracked r id = elim r.drv_path [
  | none ↦ []
  | some path ↦ if is_none r.error then (id, path) ∷ [] else []
]

-- A failed insert is logged.
abbrev pub after_insert :
    {J : Type 0}
    → NixEvalJobResult J
    → List Derivation × Result Derivation
    → Progress J
    → Progress J
after_insert r (ds, ok d) p = record p {
  derivations = ds;
  next_id = p.next_id + 1;
  evaluated_derivations = p.evaluated_derivations ++ tracked r d.id;
}
after_insert r (ds, err e) p = record p { derivations = ds; next_id = p.next_id + 1 }

module _ {J : Type 0} (json : JsonValue J) (commit : Commit) (repo_url : String)
    (target_system : String) (policies : List DeploymentPolicy) (now : ℕ) where
  -- The row of a result: a system of the commit, by the last part of its attribute path.
  unfoldable pub insert_result : NixEvalJobResult J → Option Bool → Progress J → Progress J
  insert_result r cf_agent_enabled p = elim (last r.attr_path) [
    | none ↦ p
    | some system_name ↦
        after_insert r
          (insert_derivation_with_target p.next_id (some commit.id) system_name nixos_type
            (some (evaluated_agent_target repo_url commit.git_commit_hash system_name))
            cf_agent_enabled now p.derivations)
          p
  ]

  abbrev is_target : Option String → Bool
  is_target none = str_eq target_system "all"
  is_target (some s) = str_eq s target_system || str_eq target_system "all"

  unfoldable pub read_result : NixEvalJobResult J → Progress J → Progress J
  unfolding insert_result
  read_result r p =
      let check = check_of json policies r in
      let q = insert_result r (enabled_of check) p in
      record q {
        policy_checks = push_some check p.policy_checks;
        found_target = is_target (last r.attr_path) || p.found_target;
        results = p.results ++ r ∷ [];
      }

  -- The loop over both pipes; an error of a pipe ends it.
  unfoldable pub read_lines : List (Line J) → Progress J → Progress J × Option String
  read_lines [] p = (p, none)
  read_lines (io_error e ∷ lines) p = (p, some e)
  read_lines (logged ∷ lines) p = read_lines lines p
  read_lines (evaluated r ∷ lines) p = read_lines lines (read_result r p)

abbrev pub any_strict : List DeploymentPolicy → Bool
any_strict policies = exists is_strict policies

unfoldable pub strict_failure : List DeploymentPolicy → PolicyCheckResult → Bool
strict_failure policies c = not c.meets_requirements && any_strict policies

-- SET status_id = DryRunComplete, derivation_path, completed_at = NOW()
unfoldable pub evaluated_columns : String → ℕ → Derivation → Derivation
evaluated_columns drv_path now d = record d {
  status_id = as_id dry_run_complete;
  derivation_path = some drv_path;
  completed_at = some now;
}

-- The UPDATE of a tracked row. Where another row has the path it fails, which is only logged.
unfoldable pub mark_row : ℕ → String → ℕ → List Derivation → List Derivation
unfolding evaluated_columns
mark_row id path now ds =
    if path_taken id (some path) ds
    then ds
    else update_where (has_id id) (evaluated_columns path now) ds

unfoldable pub mark_evaluated : List (ℕ × String) → ℕ → List Derivation → List Derivation
unfolding mark_row
mark_evaluated [] now ds = ds
mark_evaluated ((id, path) ∷ rest) now ds = mark_evaluated rest now (mark_row id path now ds)

unfoldable pub no_progress : {J : Type 0} → List Derivation → ℕ → Progress J
no_progress ds next_id = record {
  derivations = ds;
  next_id = next_id;
  results = [];
  policy_checks = [];
  found_target = false;
  evaluated_derivations = [];
}

-- After the loop: the exit status, the target, the strict policies, and then the UPDATEs. The texts
-- of the errors are cut short.
unfoldable pub conclude :
    {J : Type 0}
    → String
    → List DeploymentPolicy
    → Bool
    → ℕ
    → Progress J × Option String
    → List Derivation × Result (List (NixEvalJobResult J) × List PolicyCheckResult)
unfolding strict_failure
conclude target_system policies success later (p, some e) = (p.derivations, err (message e))
conclude target_system policies success later (p, none) =
    if not success
    then (p.derivations, err (message "nix-eval-jobs failed with exit code"))
    else if not p.found_target && not (str_eq target_system "all")
    then (p.derivations, err (message "nix-eval-jobs did not evaluate target system"))
    else if exists (strict_failure policies) p.policy_checks
    then (p.derivations, err (message "systems failed strict deployment policies"))
    else (
      mark_evaluated p.evaluated_derivations later p.derivations,
      ok (p.results, p.policy_checks),
    )

module _ {J : Type 0} (json : JsonValue J) (commit : Commit) (repo_url : String)
    (target_system : String) (policies : List DeploymentPolicy) (now : ℕ) where
  -- `lines` is what the process writes, `success` its exit status, `later` the clock at its end.
  unfoldable pub evaluate_with_nix_eval_jobs :
      List (Line J)
      → Bool
      → ℕ
      → ℕ
      → List Derivation
      → List Derivation × Result (List (NixEvalJobResult J) × List PolicyCheckResult)
  unfolding read_lines conclude no_progress mark_evaluated
  evaluate_with_nix_eval_jobs lines success later next_id ds =
      conclude target_system policies success later
        (read_lines json commit repo_url target_system policies now lines (no_progress ds next_id))

abbrev pub forget {ℓ} : {A : Type ℓ} → Result A → Result (Unit {0})
forget (ok a) = ok tt
forget (err e) = err e

abbrev pub text_of {ℓ} : {A : Type ℓ} → Result A → String
text_of (err (message e)) = e
text_of _ = ""

-- The body of the server's loop for one commit: all systems, one policy that is not strict. The flake
-- is found and the configuration is read.
unfoldable pub server_policies : List DeploymentPolicy
server_policies = require_crystal_forge_agent false ∷ []

unfoldable pub process_pending_commit :
    {J : Type 0}
    → JsonValue J
    → Commit
    → String
    → List (Line J)
    → Bool
    → ℕ
    → ℕ
    → ℕ
    → List Derivation
    → List Commit
    → List Derivation × List Commit
unfolding evaluate_with_nix_eval_jobs server_policies
process_pending_commit json commit repo_url lines success now later next_id ds cs =
    let run =
      evaluate_with_nix_eval_jobs json commit repo_url "all" server_policies now lines success later
        next_id ds in
    (run.0, evaluate_commit commit.id (forget run.1) (text_of run.1) now later cs)
