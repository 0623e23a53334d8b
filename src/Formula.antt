-- ===== src/Formula.antt =====
-- The data of crates/formula: formulae as the JSON API gives them (types.rs), cellar types
-- (cellar_type.rs) and the errors (error.rs). A `FormulaName` (formula_name.rs) is its text.
pub mod Samples
pub mod Cellar
pub mod Select
pub mod Support
mod Tests
use brewdock.Base.{ℕ, Bool, Option, List, Text, Assoc}

pub data CellarType : Type 0 where
  any any_skip_relocation : CellarType
  path : Text → CellarType

pub record Versions : Type 0 where
  pub stable : Text
  pub head : Option Text
  pub bottle : Bool

pub record BottleFile : Type 0 where
  pub cellar : CellarType
  pub url : Text
  pub sha256 : Text

pub record BottleStable : Type 0 where
  pub rebuild : ℕ
  pub root_url : Text
  pub files : Assoc BottleFile

pub record BottleSpec : Type 0 where
  pub stable : Option BottleStable

pub record StableUrl : Type 0 where
  pub url : Text
  pub checksum : Option Text

pub record FormulaUrls : Type 0 where
  pub stable : Option StableUrl

pub record MacOsDependencyDetail : Type 0 where
  pub name : Text
  pub contexts : List Text

pub data MacOsDependency : Type 0 where
  name : Text → MacOsDependency
  detailed : MacOsDependencyDetail → MacOsDependency

pub record NamedEntry : Type 0 where
  pub name : Text
  pub version : Option Text
  pub contexts : List Text
  pub specs : List Text

pub data Requirement : Type 0 where
  name : Text → Requirement
  detailed : NamedEntry → Requirement

pub record Formula : Type 0 where
  pub name : Text
  pub full_name : Text
  pub desc : Option Text
  pub homepage : Option Text
  pub license : Option Text
  pub versions : Versions
  pub revision : ℕ
  pub ruby_source_path : Option Text
  pub bottle : BottleSpec
  pub urls : FormulaUrls
  pub pour_bottle_only_if : Option Text
  pub keg_only : Bool
  pub dependencies : List Text
  pub build_dependencies : List Text
  pub uses_from_macos : List MacOsDependency
  pub requirements : List Requirement
  pub disabled : Bool
  pub post_install_defined : Bool

pub data UnsupportedReason : Type 0 where
  disabled no_bottle post_install_defined pour_bottle_restricted source_build_required :
      UnsupportedReason
  no_bottle_for_tag : Text → UnsupportedReason
  incompatible_cellar : CellarType → UnsupportedReason

-- An error of reqwest, serde_json, std::io or rusqlite is represented by its message.
pub data FormulaError : Type 0 where
  not_found : (name : Text) → FormulaError
  unsupported : (name : Text) (reason : UnsupportedReason) → FormulaError
  network parse io database : (message : Text) → FormulaError
  invalid_ruby_source_path : (path : Text) → FormulaError
  cyclic_dependency : (cycle : List Text) → FormulaError
