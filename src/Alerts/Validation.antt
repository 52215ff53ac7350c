-- ===== src/Alerts/Validation.antt =====
-- Validate and DefaultAlertRules of backend/internal/monitoring/alert_rules.go.
use package.text.Mathlib.Text.{starts_with}
use healthops.Prelude.{
  ℕ, suc, String, Bool, true, false, not, ◌&&◌, ◌||◌, Option, none, some, List, [], ◌∷◌, ◌≡◌, refl,
  ℤ, pos, negsuc, arith, is_blank, text_or, str_eq, positive_or, is_none, is_nil, is_positive, all,
  zero, if◌then◌else◌,
}
use healthops.Alerts.Rules.{
  AlertOperator, equals, not_equals, greater_than, less_than, other_operator, text, AlertCondition,
  AlertChannel, AlertRule,
}

pub data RuleError : Type 0 where
  id_required name_required no_conditions negative_cooldown : RuleError
  field_required operator_required invalid_operator invalid_field : ℕ → RuleError
  channel_type_required : ℕ → RuleError

abbrev is_blank_operator : AlertOperator → Bool
is_blank_operator (other_operator s) = is_blank s
is_blank_operator equals = false
is_blank_operator not_equals = false
is_blank_operator greater_than = false
is_blank_operator less_than = false

abbrev pub is_valid_operator : AlertOperator → Bool
is_valid_operator (other_operator s) = false
is_valid_operator equals = true
is_valid_operator not_equals = true
is_valid_operator greater_than = true
is_valid_operator less_than = true

abbrev pub is_valid_field : String → Bool
is_valid_field f =
    str_eq f "status" || str_eq f "healthy" || str_eq f "durationMs" || starts_with f "metrics."

abbrev is_negative : ℤ → Bool
is_negative (pos n) = false
is_negative (negsuc n) = true

unfoldable pub validate_channels : ℕ → List AlertChannel → Option RuleError
validate_channels i [] = none
validate_channels i (c ∷ cs) =
    if is_blank c.type then some (channel_type_required i) else validate_channels (suc i) cs

validate_channels-eq :
    (i : ℕ) (cs : List AlertChannel)
    → is_none (validate_channels i cs) ≡ all (λ c. not (is_blank c.type)) cs
unfolding validate_channels
validate_channels-eq i [] = refl
validate_channels-eq i (c ∷ cs) = ground (arith, validate_channels-eq (suc i) cs)

text_or-not_blank : (s : String) → is_blank (text_or s "warning") ≡ false
text_or-not_blank String.[] = refl
text_or-not_blank (String.◌∷◌ c s) = refl

text_or_idem : (s : String) → text_or (text_or s "warning") "warning" ≡ text_or s "warning"
text_or_idem String.[] = refl
text_or_idem (String.◌∷◌ c s) = refl

positive_or_idem : (z : ℤ) → positive_or 5 (pos (positive_or 5 z)) ≡ positive_or 5 z
positive_or_idem (pos zero) = refl
positive_or_idem (pos (suc n)) = refl
positive_or_idem (negsuc n) = refl

module _ {F : Type 0} where
  -- AlertCondition.Validate, with the index that the rule's error reports.
  unfoldable pub validate_condition : ℕ → AlertCondition F → Option RuleError
  validate_condition i c =
      if is_blank c.field
      then some (field_required i)
      else if is_blank_operator c.operator
      then some (operator_required i)
      else if not (is_valid_operator c.operator)
      then some (invalid_operator i)
      else if not (is_valid_field c.field)
      then some (invalid_field i)
      else none

  unfoldable pub validate_conditions : ℕ → List (AlertCondition F) → Option RuleError
  validate_conditions i [] = none
  validate_conditions i (c ∷ cs) = elim (validate_condition i c) [
    | some e ↦ some e
    | none ↦ validate_conditions (suc i) cs
  ]

  abbrev with_defaults : AlertRule F → AlertRule F
  with_defaults r = record r {
    severity = text_or r.severity "warning";
    cooldown_minutes = pos (positive_or 5 r.cooldown_minutes);
  }

  -- AlertRule.Validate writes its defaults before it looks at the conditions and channels, so they
  -- stay when one of those is refused; a negative cooldown leaves only the severity's.
  unfoldable pub validate : AlertRule F → AlertRule F × Option RuleError
  unfolding validate_conditions validate_channels
  validate r =
      if is_blank r.id
      then (r, some id_required)
      else if is_blank r.name
      then (r, some name_required)
      else if is_nil r.conditions
      then (r, some no_conditions)
      else if is_negative r.cooldown_minutes
      then (record r { severity = text_or r.severity "warning" }, some negative_cooldown)
      else elim (validate_conditions 0 r.conditions) [
        | some e ↦ (with_defaults r, some e)
        | none ↦ (with_defaults r, validate_channels 0 r.channels)
      ]

  -- An independent description of what is accepted.
  abbrev pub is_good_condition : AlertCondition F → Bool
  is_good_condition c =
      not (is_blank c.field) && is_valid_operator c.operator && is_valid_field c.field

  abbrev pub is_well_formed : AlertRule F → Bool
  is_well_formed r =
      not (is_blank r.id)
      && not (is_blank r.name)
      && not (is_nil r.conditions)
      && not (is_negative r.cooldown_minutes)
      && all is_good_condition r.conditions
      && all (λ c. not (is_blank c.type)) r.channels

  validate_condition-eq :
      (i : ℕ) (c : AlertCondition F) → is_none (validate_condition i c) ≡ is_good_condition c
  unfolding validate_condition
  validate_condition-eq i c = ground arith

  validate_conditions-eq :
      (i : ℕ) (cs : List (AlertCondition F))
      → is_none (validate_conditions i cs) ≡ all is_good_condition cs
  unfolding validate_conditions
  validate_conditions-eq i [] = refl
  validate_conditions-eq i (c ∷ cs) =
      ground (arith, validate_condition-eq i c, validate_conditions-eq (suc i) cs)

  -- A rule is accepted exactly when it has an identifier, a name and a condition, its cooldown is
  -- not negative, every condition has one of the four operators and a known field, and every
  -- channel has a type.
  validate-is_well_formed : (r : AlertRule F) → is_none (validate r).1 ≡ is_well_formed r
  unfolding validate
  validate-is_well_formed r =
      ground (arith, validate_conditions-eq 0 r.conditions, validate_channels-eq 0 r.channels)

  -- The rule that an accepted rule becomes has a severity and a cooldown of at least a minute, and
  -- to validate it again accepts it and changes nothing.
  validate_idem :
      (r : AlertRule F)
      → (validate r).1 ≡ none
      → let r' = (validate r).0 in
        (validate r' ≡ (r', none))
        × (is_blank r'.severity ≡ false)
        × (is_positive r'.cooldown_minutes ≡ true)
  unfolding validate
  validate_idem r h = ground (
    arith,
    text_or_idem r.severity,
    positive_or_idem r.cooldown_minutes,
    text_or-not_blank r.severity,
  )
