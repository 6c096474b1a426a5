-- ===== src/Feature/Evaluate.antt =====
-- internal/feature/engine.go: the evaluation of a flag for a context.
pub mod Matching
pub mod Stages
pub mod Tests
use flagbase.Prelude.{
  String, Bool, true, false, not, ◌&&◌, ◌||◌, List, [], ◌∷◌, any, Option, none, some, lookup, ◌==◌,
  map, if◌then◌else◌, ℕ,
}
use flagbase.Text.{Unicode, codes, equal_fold, to_lower, contains, split, trim_space}
use flagbase.Feature.{
  Flag, Rule, Override, flag_status_draft, flag_status_testing, flag_status_deprecated,
}

-- A value of the context: a text, or another value given by what `%v` prints for it.
pub data Attribute : Type 0 where
  text printed : String → Attribute

abbrev pub Context : Type 0
Context = List (String × Attribute)

-- fmt.Sprintf("%v", v)
abbrev pub sprint : Attribute → String
sprint (text s) = s
sprint (printed s) = s

-- `userID, _ := ctx["userId"].(string)`: empty where it is missing or no string.
abbrev pub as_string : Option Attribute → String
as_string none = ""
as_string (some (text s)) = s
as_string (some (printed s)) = ""

abbrev pub user_of : Context → String
user_of ctx = as_string (lookup "userId" ctx)

unfoldable pub bool_to_variant_key : Bool → String
bool_to_variant_key true = "true"
bool_to_variant_key false = "false"

unfoldable pub variant_key_to_bool : String → Bool
variant_key_to_bool key = not (key == "false") && not (key == "")

unfoldable pub resolve_rule_variant : Rule → String
unfolding bool_to_variant_key
resolve_rule_variant r =
    if not (r.variant_key == "") then r.variant_key else bool_to_variant_key r.variant

-- The loop over the overrides.
unfoldable pub find_override : String → List Override → Option String
find_override user [] = none
find_override user (o ∷ os) =
    if o.user_id == user then some o.variant_key else find_override user os

-- The test of the overrides, for a caller who is known.
pub override_for : String → List Override → Option String
unfolding find_override
override_for user os =
    if not (user == "") && not (user == "anonymous") then find_override user os else none

module _ (u : Unicode) where
  unfoldable pub match_rule : Rule → String → Bool
  match_rule rule val =
      if rule.operator == "equals"
      then equal_fold u (codes val) (codes rule.value)
      else if rule.operator == "not_equals"
      then not (equal_fold u (codes val) (codes rule.value))
      else if rule.operator == "contains"
      then contains (to_lower u (codes val)) (to_lower u (codes rule.value))
      else if rule.operator == "in"
      then any (λ p. equal_fold u (trim_space p) (codes val)) (split b',' (codes rule.value))
      else false

  -- The rule's attribute is in the context, and its value matches.
  unfoldable pub applies : Context → Rule → Bool
  unfolding match_rule
  applies ctx rule = elim (lookup rule.attribute ctx) [
    | none ↦ false
    | some val ↦ match_rule rule (sprint val)
  ]

  -- The loop over the rules.
  unfoldable pub find_rule : Context → List Rule → Option String
  unfolding applies resolve_rule_variant
  find_rule ctx [] = none
  find_rule ctx (r ∷ rs) = if applies ctx r then some (resolve_rule_variant r) else find_rule ctx rs

  -- From the test of the status `draft` on.
  pub evaluate_rules : Context → Flag → String
  unfolding find_rule bool_to_variant_key
  evaluate_rules ctx f =
      if f.status == flag_status_draft then "false" else elim (find_rule ctx f.rules) [
        | some v ↦ v
        | none ↦
            if f.status == flag_status_testing then "false" else bool_to_variant_key f.default_value
      ]

  unfoldable pub evaluate_flag : Context → Flag → String
  unfolding evaluate_rules override_for bool_to_variant_key
  evaluate_flag ctx f =
      if not f.enabled
      then "false"
      else if f.status == flag_status_deprecated
      then bool_to_variant_key f.default_value
      else elim (override_for (user_of ctx) f.overrides) [
        | some v ↦ v
        | none ↦ evaluate_rules ctx f
      ]

  unfoldable pub evaluate_variant : List (String × Flag) → String → Context → String
  unfolding evaluate_flag
  evaluate_variant flags key ctx = elim (lookup key flags) [
    | none ↦ "false"
    | some f ↦ evaluate_flag ctx f
  ]

  unfoldable pub evaluate_bool : List (String × Flag) → String → Context → Bool
  unfolding evaluate_variant variant_key_to_bool
  evaluate_bool flags key ctx = variant_key_to_bool (evaluate_variant flags key ctx)
