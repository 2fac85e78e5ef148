-- ===== src/Evaluation/Policy/Checks.antt =====
-- What an answer of `from_json` says of the fields it was made from.
use crystal_forge.Prelude.{
  ◌+◌, String, Bool, true, false, Option, none, some, List, [], ◌∷◌, length, All, ◌≡◌, refl, ◌↔◌,
  not, arith, sym, ◌∙◌, Bool-cases, inl, inr, length-append, if◌then◌else◌,
}
use crystal_forge.Table.{count_where}
use crystal_forge.Evaluation.Policy.{
  DeploymentPolicy, require_crystal_forge_agent, require_packages, custom_check, field_name,
  JsonValue, field_value, PolicyCheckResult, check_policy, check_policies, push_unless_true,
  unchecked, from_json, is_empty,
}

abbrev pub is_true : Option Bool → Bool
is_true (some true) = true
is_true _ = false

length-push_unless_true :
    (v : Option Bool) (w : String) (ws : List String)
    → length (push_unless_true v w ws) ≡ length ws + (if is_true v then 0 else 1)
length-push_unless_true none w ws = omega (arith, length-append ws (w ∷ []))
length-push_unless_true (some true) w ws = omega arith
length-push_unless_true (some false) w ws = omega (arith, length-append ws (w ∷ []))

length-check_policy :
    (p : DeploymentPolicy) (v : Option Bool) (r : PolicyCheckResult)
    → length (check_policy p v r).warnings ≡ length r.warnings + (if is_true v then 0 else 1)
unfolding check_policy
length-check_policy (require_crystal_forge_agent strict) v r =
    length-push_unless_true v _ r.warnings
length-check_policy (require_packages packages strict) v r = length-push_unless_true v _ r.warnings
length-check_policy (custom_check expression text field strict) none r =
    length-push_unless_true none _ r.warnings
length-check_policy (custom_check expression text field strict) (some v) r =
    length-push_unless_true (some v) _ r.warnings

is_true_iff : (v : Option Bool) → (is_true v ≡ true) ↔ (v ≡ some true)
is_true_iff none = (λ h. cc, λ h. cc)
is_true_iff (some true) = (λ _. refl, λ _. refl)
is_true_iff (some false) = (λ h. cc, λ h. cc)

module _ {A : Type 0} (value : A → Option Bool) where
  -- None is counted exactly where all are there and true.
  count_where-is_true :
      (xs : List A)
      → (count_where (λ x. not (is_true (value x))) xs ≡ 0) ↔ All (λ x. value x ≡ some true) xs
  unfolding count_where
  count_where-is_true [] = (λ _. tt, λ _. refl)
  count_where-is_true (x ∷ xs) = elim (Bool-cases (is_true (value x))) [
    | inl e ↦
        let rest = count_where-is_true xs in
        rw e (λ h. ((is_true_iff (value x)).0 e, rest.0 h), λ h. rest.1 h.1)
    | inr e ↦ rw e (
      λ h. let no : ⊥ = omega (arith, h) in elim no [ ],
      λ h. let yes = (is_true_iff (value x)).1 h.0 in cc,
    )
  ]

module _ {J : Type 0} (json : JsonValue J) (policies_json : J) where
  -- The value of the policy's field is there, and it is true.
  abbrev pub meets : DeploymentPolicy → Bool
  meets p = is_true (field_value json policies_json (field_name p))

  length-check_policies :
      (ps : List DeploymentPolicy) (r : PolicyCheckResult)
      → length (check_policies json policies_json ps r).warnings
        ≡ length r.warnings + count_where (λ p. not (meets p)) ps
  unfolding count_where
  length-check_policies [] r = omega arith
  length-check_policies (p ∷ ps) r =
      let v = field_value json policies_json (field_name p) in
      let step = length-check_policy p v r in
      let rest = length-check_policies ps (check_policy p v r) in ground arith

is_empty-length : (ws : List String) → (is_empty ws ≡ true) ↔ (length ws ≡ 0)
is_empty-length [] = (λ _. refl, λ _. refl)
is_empty-length (w ∷ ws) = ground arith

-- A system meets the requirements exactly if the field of every policy is true, and there is one
-- warning for each policy whose field is not.
pub from_json_lem :
    {J : Type 0} (json : JsonValue J) (policies_json : J) (system_name : String)
    (ps : List DeploymentPolicy)
    → (((from_json json system_name policies_json ps).meets_requirements ≡ true)
        ↔ All (λ p. field_value json policies_json (field_name p) ≡ some true) ps)
      × (length (from_json json system_name policies_json ps).warnings
          ≡ count_where (λ p. not (meets json policies_json p)) ps)
unfolding from_json unchecked
from_json_lem json policies_json system_name ps =
    let r = check_policies json policies_json ps (unchecked system_name) in
    let count : length r.warnings ≡ count_where (λ p. not (meets json policies_json p)) ps =
      omega (arith, length-check_policies json policies_json ps (unchecked system_name)) in
    let none_iff = is_empty-length r.warnings in
    let all_iff = count_where-is_true (λ p. field_value json policies_json (field_name p)) ps in
    ((λ h. all_iff.0 (sym count ∙ none_iff.0 h), λ h. none_iff.1 (count ∙ all_iff.1 h)), count)
