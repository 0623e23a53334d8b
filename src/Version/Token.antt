-- ===== src/Version/Token.antt =====
-- The tokens of a version and the parsed version (version.rs: `Token`, `PkgVersion`,
-- `ParseVersionError`, `stage_rank`, `token_rev`).
use brewdock.Base.{ℕ, Text, List}

pub data Token : Type 0 where
  alpha beta pre rc numeric patch post : ℕ → Token
  text : Text → Token

pub record PkgVersion : Type 0 where
  pub tokens : List Token
  pub raw : Text

pub record ParseVersionError : Type 0 where
  pub input : Text

unfoldable pub stage_rank : Token → ℕ
stage_rank (alpha _) = 0
stage_rank (beta _) = 1
stage_rank (pre _) = 2
stage_rank (rc _) = 3
stage_rank (numeric _) = 4
stage_rank (patch _) = 5
stage_rank (post _) = 6
stage_rank (text _) = 7

unfoldable pub token_rev : Token → ℕ
token_rev (alpha rev) = rev
token_rev (beta rev) = rev
token_rev (pre rev) = rev
token_rev (rc rev) = rev
token_rev (numeric rev) = rev
token_rev (patch rev) = rev
token_rev (post rev) = rev
token_rev (text _) = 0
