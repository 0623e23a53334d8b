-- ===== src/Version.antt =====
-- crates/formula/src/version.rs: package versions, their parsing and their order.
pub mod Token
pub mod Scan
pub mod Compare
pub mod Digits
pub mod Tokenize
mod Join
pub mod Progress
pub mod Underscore
pub mod Tests
mod SortKey
pub mod Order
