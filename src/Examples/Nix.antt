-- ===== src/Examples/Nix.antt =====
-- A run of nix-eval-jobs on two systems.
use Prim.Native.String.{◌++◌ as str_append}
use text.Mathlib.Text.{starts_with}
use crystal_forge.Prelude.{
  ℕ, ◌≤◌, ◌≡◌, refl, ◌↔◌, not, String, Bool, true, false, Option, none, some, List, [], ◌∷◌, ◌++◌,
  length, All, ok, message, str_eq, if◌then◌else◌, arith, str_contains,
}
use crystal_forge.Table.{exists, find, count_where}
use crystal_forge.Commits.{Commit, pending, commit_has_id, attempts_of, awaits_evaluation}
use crystal_forge.Evaluation.Flake.{build_flake_reference, build_flake_reference_lem}
use crystal_forge.Evaluation.Policy.{
  DeploymentPolicy, require_crystal_forge_agent, require_packages, JsonValue, PolicyCheckResult,
  from_json, field_value, field_name,
}
use crystal_forge.Evaluation.Policy.Checks.{meets, from_json_lem}
use crystal_forge.Evaluation.Jobs.{
  NixEvalJobResult, Line, logged, evaluated, evaluate_with_nix_eval_jobs, strict_failure,
  read_result, server_policies, process_pending_commit,
}
use crystal_forge.Evaluation.Jobs.Marking.{is_evaluated}
use crystal_forge.Evaluation.Jobs.Marked.{evaluate_marks}
use crystal_forge.Evaluation.Jobs.Stranded.{failed_evaluation_strands}

flake_example :
    (starts_with (build_flake_reference "https://git.example/infra" "a1b2c3") "git+" ≡ true)
    × (str_contains
          (build_flake_reference "https://git.example/infra" "a1b2c3")
          (str_append "?rev=" "a1b2c3")
        ≡ true)
    × (build_flake_reference (build_flake_reference "https://git.example/infra" "a1b2c3") "d4"
        ≡ build_flake_reference "https://git.example/infra" "a1b2c3")
unfolding str_contains
flake_example = build_flake_reference_lem "https://git.example/infra" "a1b2c3" "d4" refl

-- A JSON value: a Boolean, or an object with one field.
data Json : Type 0 where
  boolean : Bool → Json
  object : String → Json → Json

abbrev get : Json → String → Option Json
get (boolean b) name = none
get (object k v) name = if str_eq k name then some v else none

abbrev as_bool : Json → Option Bool
as_bool (boolean b) = some b
as_bool (object k v) = none

abbrev json : JsonValue Json
json = record { get = get; as_bool = as_bool }

abbrev policies : List DeploymentPolicy
policies = require_crystal_forge_agent false ∷ require_packages ("vim" ∷ []) true ∷ []

abbrev agent_only : Json
agent_only = object "cfAgentEnabled" (boolean true)

checked_policy_example :
    (((from_json json "gray" agent_only policies).meets_requirements ≡ true)
      ↔ All (λ p. field_value json agent_only (field_name p) ≡ some true) policies)
    × (length (from_json json "gray" agent_only policies).warnings
        ≡ count_where (λ p. not (meets json agent_only p)) policies)
checked_policy_example = from_json_lem json agent_only "gray" policies

abbrev result : String → Option String → NixEvalJobResult Json
result system path = record {
  attr = system;
  attr_path = system ∷ [];
  name = "nixos-system";
  drv_path = path;
  error = none;
  cache_status = none;
  outputs = none;
  meta = some (object "policies" agent_only);
}

abbrev gray : NixEvalJobResult Json
gray = result "gray" (some "/nix/store/abc-gray.drv")

abbrev commit : Commit
commit = record {
  id = 7;
  flake_id = 1;
  git_commit_hash = "a1b2c3";
  commit_timestamp = 70;
  attempt_count = 0;
  evaluation_status = pending;
  evaluation_started_at = none;
  evaluation_completed_at = none;
  evaluation_attempt_count = none;
  evaluation_error_message = none;
}

abbrev url : String
url = "https://git.example/infra"

abbrev earlier : List (Line Json)
earlier = logged ∷ evaluated (result "blue" none) ∷ []

finished :
    (answer : List (NixEvalJobResult Json) × List PolicyCheckResult) × ((evaluate_with_nix_eval_jobs
        json commit url "all" server_policies 100
        (earlier ++ evaluated gray ∷ [])
        true
        200
        5
        []).1
      ≡ ok answer)
unfolding evaluate_with_nix_eval_jobs server_policies exists strict_failure read_result from_json
    field_name
finished = (_, refl)

marks_example :
    let run =
      evaluate_with_nix_eval_jobs json commit url "all" server_policies 100
        (earlier ++ evaluated gray ∷ [])
        true
        200
        5
        [] in
    (exists (is_evaluated 7 "gray") run.0 ≡ true)
    × (true ≡ true)
    × (exists (strict_failure server_policies) finished.0.1 ≡ false)
unfolding exists
marks_example =
    evaluate_marks json commit url "all" server_policies 100 earlier [] gray "gray"
      "/nix/store/abc-gray.drv" true 200 5 [] finished.0 refl refl refl refl refl refl finished.1

strands_commit_example :
    let end =
      process_pending_commit json commit url
        (earlier ++ evaluated gray ∷ [])
        false
        100
        200
        5
        []
        (commit ∷ []) in
    (c' : Commit) × (find (commit_has_id 7) end.1 ≡ some c')
    × (c'.evaluation_status ≡ pending)
    × (attempts_of c' ≤ 4)
    × ((t : ℕ) → awaits_evaluation end.0 t c' ≡ false)
unfolding evaluate_with_nix_eval_jobs find
strands_commit_example =
    failed_evaluation_strands json commit url earlier [] gray "gray" false 100 200 5 []
      (commit ∷ []) commit (message "nix-eval-jobs failed with exit code") (refl, (refl, tt)) refl
      refl refl (omega arith)
