-- ===== src/Reports/Reasons.antt =====
-- The texts of the change reasons.
use crystal_forge.Prelude.{
  ◌≡◌, refl, sym, ap, ◌∙◌, String, true, false, Bool-cases, inl, inr, ◌↔◌, ok, arith, str_eq,
  eq_iff,
}
use crystal_forge.Reports.{
  ChangeReason, startup, config_change, state_delta, cf_deployment, to_string, from_str,
  valid_change_reason,
}

from_str-to_string : (r : ChangeReason) → from_str (to_string r) ≡ ok r
unfolding from_str to_string
from_str-to_string startup = refl
from_str-to_string config_change = refl
from_str-to_string state_delta = refl
from_str-to_string cf_deployment = refl

valid-to_string : (r : ChangeReason) → valid_change_reason (to_string r) ≡ true
unfolding valid_change_reason to_string
valid-to_string startup = refl
valid-to_string config_change = refl
valid-to_string state_delta = refl
valid-to_string cf_deployment = refl

-- A valid text is one of a reason.
valid_cases : (s : String) → valid_change_reason s ≡ true → (r : ChangeReason) × (to_string r ≡ s)
unfolding valid_change_reason to_string
valid_cases s h = elim (Bool-cases (str_eq s "startup")) [
  | inl e ↦ (startup, sym ((eq_iff s "startup").0 e))
  | inr n1 ↦ elim (Bool-cases (str_eq s "config_change")) [
    | inl e ↦ (config_change, sym ((eq_iff s "config_change").0 e))
    | inr n2 ↦ elim (Bool-cases (str_eq s "state_delta")) [
      | inl e ↦ (state_delta, sym ((eq_iff s "state_delta").0 e))
      | inr n3 ↦ elim (Bool-cases (str_eq s "cf_deployment")) [
        | inl e ↦ (cf_deployment, sym ((eq_iff s "cf_deployment").0 e))
        | inr n4 ↦ (let none_left : false ≡ true = rw n4 at rw n3 at rw n2 at rw n1 at h in cc)
      ]
    ]
  ]
]

from_str_valid : (s : String) (r : ChangeReason) → from_str s ≡ ok r → valid_change_reason s ≡ true
unfolding from_str valid_change_reason
from_str_valid s r h = ground arith

parsed_text : (s : String) (r : ChangeReason) → from_str s ≡ ok r → s ≡ to_string r
parsed_text s r h =
    let (r', text) = valid_cases s (from_str_valid s r h) in
    let parsed : from_str s ≡ ok r' = ap from_str (sym text) ∙ from_str-to_string r' in
    let same : r' ≡ r = cc in sym text ∙ ap to_string same

-- A text is read as a reason exactly if it is the one that the reason is written as, and the texts
-- that the table takes are exactly those that are read as some reason.
pub change_reason_texts :
    (s : String) (r : ChangeReason)
    → ((from_str s ≡ ok r) ↔ (s ≡ to_string r))
      × ((valid_change_reason s ≡ true) ↔ ((q : ChangeReason) × (from_str s ≡ ok q)))
change_reason_texts s r = (
  (parsed_text s r, λ e. ap from_str e ∙ from_str-to_string r),
  (
    λ h. let (q, text) = valid_cases s h in (q, ap from_str (sym text) ∙ from_str-to_string q),
    λ (q, parsed). from_str_valid s q parsed,
  ),
)
