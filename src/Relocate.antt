-- ===== src/Relocate.antt =====
-- crates/cellar/src/relocate.rs: rewriting the `@@HOMEBREW_*@@` placeholders of a bottle's files.
pub mod Replace
pub mod Once
pub mod Placeholder
pub mod Clean
pub mod Keg
mod Tests
unfoldable pub use Replace.*
