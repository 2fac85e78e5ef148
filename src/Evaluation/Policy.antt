-- ===== src/Evaluation/Policy.antt =====
-- models/deployment_policies.rs: the policies that an evaluated system has to meet, and what the
-- JSON of an evaluation says of them.
-- A JSON value is a type of the caller's with `get` and `as_bool` of serde_json.
pub mod Checks
use Prim.Native.String.{[] as empty, ◌∷◌ as cons, ◌++◌ as str_append}
use Prim.Native.Char.{code}
use crystal_forge.Prelude.{
  String, Bool, true, false, Option, none, some, List, [], ◌∷◌, ◌++◌, map, ◌==◌, concat, join,
  if◌then◌else◌, str_eq,
}

pub data DeploymentPolicy : Type 0 where
  require_crystal_forge_agent : Bool → DeploymentPolicy
  require_packages : List String → Bool → DeploymentPolicy
  custom_check : String → String → String → Bool → DeploymentPolicy

abbrev pub is_strict : DeploymentPolicy → Bool
is_strict (require_crystal_forge_agent strict) = strict
is_strict (require_packages packages strict) = strict
is_strict (custom_check expression text field strict) = strict

unfoldable pub description : DeploymentPolicy → String
description (require_crystal_forge_agent strict) = "Crystal Forge agent must be enabled"
description (require_packages packages strict) =
    str_append "Required packages: " (join ", " packages)
description (custom_check expression text field strict) = text

unfoldable pub field_name : DeploymentPolicy → String
field_name (require_crystal_forge_agent strict) = "cfAgentEnabled"
field_name (require_packages packages strict) = "hasRequiredPackages"
field_name (custom_check expression text field strict) = field

-- p.replace('"', "\\\"")
escape_quotes : String → String
escape_quotes empty = ""
escape_quotes (cons c s) =
    let rest = escape_quotes s in if code c == b'"' then str_append "\\\"" rest else cons c rest

quoted_package : String → String
unfolding escape_quotes
quoted_package p = concat ("\"" ∷ escape_quotes p ∷ "\"" ∷ [])

-- The name of the field, and the Nix expression of its value.
unfoldable pub to_nix_expression : DeploymentPolicy → String × String
unfolding quoted_package
to_nix_expression (require_crystal_forge_agent strict) = (
  "cfAgentEnabled",
  str_append "(cfg.config.services.crystal-forge.enable or false) && "
      "(cfg.config.services.crystal-forge.client.enable or false)",
)
to_nix_expression (require_packages packages strict) = (
  "hasRequiredPackages",
  concat (
      "let pkgNames = builtins.map (p: p.pname or p.name or \"\") "
      ∷ "cfg.config.environment.systemPackages; "
      ∷ "required = [ "
      ∷ join " " (map quoted_package packages)
      ∷ " ]; "
      ∷ "in builtins.all (pkg: builtins.elem pkg pkgNames) required"
      ∷ []),
)
to_nix_expression (custom_check expression text field strict) = (field, expression)

policy_field : DeploymentPolicy → String
unfolding to_nix_expression
policy_field policy =
    concat
      ("        " ∷ (to_nix_expression policy).0 ∷ " = " ∷ (to_nix_expression policy).1 ∷ ";" ∷ [])

-- The fields of `policyResults` in the expression that nix-eval-jobs is given.
unfoldable pub policy_fields : List DeploymentPolicy → String
unfolding policy_field
policy_fields [] = "        # No policies configured"
policy_fields (p ∷ policies) = join "\n" (map policy_field (p ∷ policies))

-- serde_json::Value
pub record JsonValue (J : Type 0) : Type 0 where
  pub get : J → String → Option J
  pub as_bool : J → Option Bool

pub record PolicyCheckResult : Type 0 where
  pub system_name : String
  pub cf_agent_enabled : Option Bool
  pub has_required_packages : Option Bool
  pub custom_checks : List (String × Bool)
  pub meets_requirements : Bool
  pub warnings : List String

-- HashMap::insert, on an association list
unfoldable pub insert : String → Bool → List (String × Bool) → List (String × Bool)
insert key v [] = (key, v) ∷ []
insert key v ((k, w) ∷ m) =
    let rest = insert key v m in if str_eq k key then (k, v) ∷ m else (k, w) ∷ rest

abbrev pub field_value : {J : Type 0} → JsonValue J → J → String → Option Bool
field_value json policies_json name = elim (json.get policies_json name) [
  | none ↦ none
  | some v ↦ json.as_bool v
]

abbrev pub push_unless_true : Option Bool → String → List String → List String
push_unless_true (some true) warning ws = ws
push_unless_true _ warning ws = ws ++ warning ∷ []

-- What the loop does for one policy, given the value of its field.
unfoldable pub check_policy : DeploymentPolicy → Option Bool → PolicyCheckResult → PolicyCheckResult
unfolding insert
check_policy (require_crystal_forge_agent strict) value r = record r {
  cf_agent_enabled = value;
  warnings =
      push_unless_true value (str_append "Crystal Forge agent not enabled for " r.system_name)
        r.warnings;
}
check_policy (require_packages packages strict) value r = record r {
  has_required_packages = value;
  warnings =
      push_unless_true value
        (concat ("Missing required packages for " ∷ r.system_name ∷ ": " ∷ join ", " packages ∷ []))
        r.warnings;
}
check_policy (custom_check expression text field strict) (some v) r = record r {
  custom_checks = insert field v r.custom_checks;
  warnings = push_unless_true (some v) (concat (r.system_name ∷ ": " ∷ text ∷ [])) r.warnings;
}
check_policy (custom_check expression text field strict) none r = record r {
  warnings =
      push_unless_true none
        (concat (r.system_name ∷ ": Could not evaluate custom check '" ∷ text ∷ "'" ∷ []))
        r.warnings;
}

abbrev pub check_policies :
    {J : Type 0} → JsonValue J → J → List DeploymentPolicy → PolicyCheckResult → PolicyCheckResult
check_policies json policies_json [] r = r
check_policies json policies_json (p ∷ policies) r =
    check_policies json policies_json policies
      (check_policy p (field_value json policies_json (field_name p)) r)

abbrev pub is_empty {ℓ} : {A : Type ℓ} → List A → Bool
is_empty [] = true
is_empty (x ∷ xs) = false

unfoldable pub unchecked : String → PolicyCheckResult
unchecked system_name = record {
  system_name = system_name;
  cf_agent_enabled = none;
  has_required_packages = none;
  custom_checks = [];
  meets_requirements = true;
  warnings = [];
}

unfoldable pub from_json :
    {J : Type 0} → JsonValue J → String → J → List DeploymentPolicy → PolicyCheckResult
unfolding check_policy unchecked
from_json json system_name policies_json policies =
    let r = check_policies json policies_json policies (unchecked system_name) in
    record r { meets_requirements = is_empty r.warnings }
