-- ===== src/Table/Ddl/Names.antt =====
-- The names in the statements: keys are identifiers, and a user's table is none of flagbase's own.
use flagbase.Prelude.{
  ℕ, String, true, ◌≡◌, ◌≢◌, ◌↔◌, ◌≤◌, ◌⊎◌, refl, List, [], ◌∷◌, all, All, length, arith,
}
use flagbase.Text.{codes}
use flagbase.Db.{ok}
use flagbase.Table.Validate.{is_lower, is_key_char, key_pattern, validate_key}
use flagbase.Table.Ddl.{sql_table_name}

-- The characters of keys, by their codes.
abbrev pub IsLetter : ℕ → Type 0
IsLetter c = (97 ≤ c) × (c ≤ 122)

abbrev pub IsDigit : ℕ → Type 0
IsDigit c = (48 ≤ c) × (c ≤ 57)

abbrev pub IsWordChar : ℕ → Type 0
IsWordChar c = IsLetter c ⊎ IsDigit c ⊎ (c ≡ 95)

-- The shape of an identifier.
abbrev pub IsKey : List ℕ → Type 0
IsKey [] = ⊥
IsKey (c ∷ cs) = IsLetter c × All IsWordChar cs × (length (c ∷ cs) ≤ 63)

is_lower_iff : (c : ℕ) → (is_lower c ≡ true) ↔ IsLetter c
is_lower_iff c = ground arith

is_key_char_iff : (c : ℕ) → (is_key_char c ≡ true) ↔ IsWordChar c
is_key_char_iff c = ground arith

all_iff : (s : List ℕ) → (all is_key_char s ≡ true) ↔ All IsWordChar s
all_iff [] = (λ _. tt, λ _. refl)
all_iff (c ∷ s) = ground (arith, is_key_char_iff c, all_iff s)

key_pattern_iff : (s : List ℕ) → (key_pattern s ≡ true) ↔ IsKey s
unfolding key_pattern
key_pattern_iff [] = (λ h. cc, λ h. absurd h)
key_pattern_iff (c ∷ cs) = ground (arith, is_lower_iff c, all_iff cs)

-- A key is accepted exactly if it has one to 63 characters, of which the first is one of the
-- letters a to z (97 to 122) and each other one is such a letter, one of the digits 0 to 9 (48 to
-- 57) or an underscore (95).
pub validate_key_iff : (key : String) → (validate_key key ≡ ok tt) ↔ IsKey (codes key)
unfolding validate_key
validate_key_iff key = ground (arith, key_pattern_iff (codes key))

-- The tables of internal/database/db.go.
abbrev pub system_tables : List String
system_tables =
    "users" ∷ "feature_flags" ∷ "flag_rules" ∷ "metrics" ∷ "functions" ∷ "function_versions"
    ∷ "function_invocations" ∷ "frontends" ∷ "frontend_versions" ∷ "table_definitions"
    ∷ "table_columns" ∷ "flag_variants" ∷ "flag_overrides" ∷ "traces" ∷ "trace_events"
    ∷ "function_custom_metrics" ∷ "anomaly_events" ∷ "function_triggers" ∷ "groups" ∷ "user_groups"
    ∷ "packages" ∷ []

-- The physical table of a key, whatever the key, is none of flagbase's own.
pub sql_table_name_apart : (key : String) → All (λ n. sql_table_name key ≢ codes n) system_tables
unfolding sql_table_name
sql_table_name_apart key = ground arith
