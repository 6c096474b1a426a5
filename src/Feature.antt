-- ===== src/Feature.antt =====
-- internal/feature: the data of flag.go.
pub mod Evaluate
pub mod Tables
pub mod Engine
use flagbase.Prelude.{ℕ, String, Bool, List, Option}
use flagbase.Prelude.Int.{ℤ}

-- FlagStatus is a string type: any text may stand in a row.
abbrev pub FlagStatus : Type 0
FlagStatus = String

abbrev pub flag_status_draft : FlagStatus
flag_status_draft = "draft"

abbrev pub flag_status_testing : FlagStatus
flag_status_testing = "testing"

abbrev pub flag_status_ga : FlagStatus
flag_status_ga = "ga"

abbrev pub flag_status_deprecated : FlagStatus
flag_status_deprecated = "deprecated"

pub record Variant : Type 0 where
  pub id : String
  pub flag_key : String
  pub key : String
  pub weight : ℤ

pub record Override : Type 0 where
  pub id : String
  pub flag_key : String
  pub user_id : String
  pub variant_key : String
  pub created_at : ℕ

pub record Rule : Type 0 where
  pub id : String
  pub flag_key : String
  pub attribute : String
  pub operator : String
  pub value : String
  pub variant : Bool
  pub variant_key : String
  pub priority : ℤ

pub record Flag : Type 0 where
  pub id : String
  pub key : String
  pub name : String
  pub description : String
  pub status : FlagStatus
  pub enabled : Bool
  pub default_value : Bool
  pub rules : List Rule
  pub variants : List Variant
  pub overrides : List Override
  pub created_at : ℕ
  pub updated_at : ℕ
