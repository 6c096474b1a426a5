-- ===== src/Feature/Evaluate/Tests.antt =====
-- The theorems on the evaluation at inputs that meet them.
use flagbase.Prelude.{
  true, ◌↔◌, Some, ℕ, String, true, ◌≡◌, ◌≢◌, ◌⊎◌, refl, [], ◌∷◌, arith, eq_iff, if◌then◌else◌, leb,
  ◌+◌, ◌&&◌, some,
}
use flagbase.Prelude.Int.{pos}
use flagbase.Text.{Unicode, split, equal_fold, trim_space}
use flagbase.Sorting.Insertion.{insertion}
use flagbase.Feature.{Flag, Rule}
use flagbase.Feature.Tables.{Tables, load_rules}
use flagbase.Feature.Tables.Priority.{Decides, find_rule-least}
use flagbase.Feature.Evaluate.{
  Context, text, user_of, bool_to_variant_key, resolve_rule_variant, match_rule, applies, find_rule,
  evaluate_flag,
}
use flagbase.Feature.Evaluate.Matching.{Asks, match_rule_iff}
use flagbase.Feature.Evaluate.Stages.{
  Pins, Grants, draft_hidden, testing_opt_in, evaluate_flag-Agree,
}

abbrev ascii_lower : ℕ → ℕ
ascii_lower c = if leb b'A' c && leb c b'Z' then c + 32 else c

abbrev ascii : Unicode
ascii = record { lower = ascii_lower; fold = ascii_lower }

abbrev rule : String → String → Rule
rule operator value = record {
  id = "r";
  flag_key = "k";
  attribute = "role";
  operator = operator;
  value = value;
  variant = true;
  variant_key = "";
  priority = pos 3;
}

abbrev flag : String → Flag
flag status = record {
  id = "f";
  key = "k";
  name = "K";
  description = "";
  status = status;
  enabled = true;
  default_value = true;
  rules = rule "in" "admin, Developer" ∷ [];
  variants = [];
  overrides =
      record { id = "o"; flag_key = "k"; user_id = "ann"; variant_key = "b"; created_at = 1 } ∷ [];
  created_at = 1;
  updated_at = 1;
}

abbrev caller : String → String → Context
caller user role = ("userId", text user) ∷ ("role", text role) ∷ []

running : Unit {0}
unfolding evaluate_flag find_rule applies match_rule resolve_rule_variant bool_to_variant_key split
    equal_fold trim_space
running = tt

matched : evaluate_flag ascii (caller "bob" "DEVELOPER") (flag "testing") ≡ "true"
unfolding running
matched = refl

bob_not_ann : ◌≢◌ {A = String} "ann" "bob"
bob_not_ann = ground (arith, eq_iff "ann" "bob")

true_not_false : ◌≢◌ {A = String} "true" "false"
true_not_false = ground (arith, eq_iff "true" "false")

draft_hidden_example : evaluate_flag ascii (caller "bob" "developer") (flag "draft") ≡ "false"
draft_hidden_example =
    draft_hidden ascii (caller "bob" "developer") (flag "draft") refl (bob_not_ann, tt)

testing_opt_in_example :
    ((user_of (caller "bob" "DEVELOPER") ≢ "")
      × (user_of (caller "bob" "DEVELOPER") ≢ "anonymous")
      × Some (Pins "bob" "true") (flag "testing").overrides)
    ⊎ Some (Grants ascii (caller "bob" "DEVELOPER") "true") (flag "testing").rules
testing_opt_in_example =
    testing_opt_in ascii (caller "bob" "DEVELOPER") (flag "testing") "true" refl matched
      true_not_false

evaluate_flag-Agree_example :
    evaluate_flag ascii (("plan", text "pro") ∷ caller "bob" "admin") (flag "ga")
    ≡ evaluate_flag ascii (caller "bob" "admin") (flag "ga")
evaluate_flag-Agree_example =
    evaluate_flag-Agree ascii (("plan", text "pro") ∷ caller "bob" "admin") (caller "bob" "admin")
      (flag "ga") (refl, (refl, tt))

listed : match_rule ascii (rule "in" "a, B") "b" ≡ true
unfolding running split
listed = refl

match_rule_iff_example :
    (match_rule ascii (rule "in" "a, B") "b" ≡ true) ↔ Asks ascii (rule "in" "a, B") "b"
match_rule_iff_example = match_rule_iff ascii (rule "in" "a, B") "b"

abbrev ruled : Tables
ruled = record {
  feature_flags = [];
  flag_rules = rule "equals" "x" ∷ record (rule "equals" "admin") { priority = pos 1 } ∷ [];
  flag_variants = [];
  flag_overrides = [];
}

first_found : find_rule ascii (caller "bob" "admin") (load_rules insertion "k" ruled) ≡ some "true"
unfolding running load_rules insertion
first_found = refl

find_rule-least_example :
    Some (Decides ascii (caller "bob" "admin") "k" "true" ruled.flag_rules) ruled.flag_rules
find_rule-least_example =
    find_rule-least ascii (caller "bob" "admin") insertion "k" ruled "true" first_found
