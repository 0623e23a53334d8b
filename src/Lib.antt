-- ===== src/Lib.antt =====
-- A model of brewdock, a client that installs Homebrew bottles.
--
-- Text is the list of its UTF-8 bytes (Base/Bytes), a `HashMap` with text keys an association list
-- (Base/Maps), a `Result` a data type with `do` blocks (Base/Results), an unsigned integer a native
-- number.
--
-- The parts of the program, and the files that model them:
--
-- - crates/formula/src/version.rs: Version. `Token` and `PkgVersion` are Version/Token, the helpers
--   of the scanner Version/Scan, `try_keyword`, `tokenize` and `from_str` Version/Tokenize, and
--   `cmp_tokens`, `cmp_token_vs_null`, `Ord` and `PartialEq` Version/Compare. A byte position is a
--   cursor: the bytes from it on, and the byte before it. The scanner's loop takes one unit of fuel
--   for each byte; every round moves the position forward.
-- - crates/formula/src/resolve.rs: Resolve. `visit` takes its `&mut` arguments as a record. Its
--   recursion takes fuel, one unit for each formula of the map and one more.
-- - crates/formula/src/types.rs, error.rs, formula_name.rs: Formula; cellar_type.rs: Formula and
--   Formula/Cellar; bottle_selection.rs: Formula/Select; supportability.rs: Formula/Support.
-- - crates/core/src/platform.rs: Platform and Platform/OsVersion, without `Arch` and detection.
-- - crates/core/src/layout.rs: Layout. A path is the list of its components (Paths).
-- - crates/core/src/source_build.rs, source_build/archive.rs: Source. The Xcode version is an argument.
-- - crates/core/src/orchestrate.rs, orchestrate/planning.rs, error.rs, and crates/formula/src/api/cache.rs:
--   Plan for `plan_install` and what it calls, Upgrade for `pkg_version` and `is_outdated`. What the
--   metadata store and the API answer is a record of two functions of the name, which stay the same
--   during one plan; which kegs are installed is a function of the name. The loop of
--   `fetch_with_deps` takes fuel, one unit for each round and one more.
-- - crates/cellar/src/link.rs, fs.rs: Paths, the path arithmetic alone.
-- - crates/analysis/src/post_install.rs (paths and statements), crates/cellar/src/post_install.rs and
--   post_install/context.rs: PostInstall. `split_segment_parts_on_slash` of the first is Segments.
-- - crates/cellar/src/post_install/rollback.rs: Rollback, the choice of the saved directories
--   (Rollback/Collect for the walk over the statements). What the statements of post_install/execute.rs
--   change is a relation, Rollback/Collect/Writes; they are not executed.
-- - crates/cellar/src/relocate.rs: Relocate. The loop of `replace_bytes` takes one unit of fuel for
--   each byte and one more. A keg is what reading each of its files gives; what `relocate_macho` leaves
--   in a file is an argument. The reading of Mach-O load commands is not modelled.
-- - `cleanup` of crates/core/src/orchestrate/query.rs and `cleanup_directory_tree` of orchestrate.rs:
--   Cleanup, over directories as data.
-- - crates/bottle/src/error.rs, verify.rs, download.rs (the receiving loop) and store.rs (the places of
--   blobs): Bottle; extract.rs: Bottle/Archive, the checks of an entry. SHA-256 is an argument.
-- - crates/cellar/src/discover.rs: Discover. What reading a link and a receipt gives is a function of the
--   path.
-- - `outdated` of query.rs, `plan_upgrade` of orchestrate.rs and `collect_upgrade_candidates` and
--   `resolve_upgrade_install_list` of planning.rs: Outdated. Whether a formula's post-install program can
--   be run is an argument.
-- - crates/core/src/orchestrate/execution.rs and `build_execution_plan` of orchestrate.rs: Execute. What
--   the tools that acquire a payload answer, and the calls that finalize a formula, is an argument; the
--   calls are recorded in their order.
--
-- A plan calls Formula/Select, Formula/Support and Source for each formula, and hands Resolve the map
-- of formulae with their planned dependencies; the list that comes of it is what Execute runs. Outdated
-- and Cleanup take the kegs that Discover finds; Outdated plans through Plan. Discover reads the links that
-- Paths computes. Execute chooses the scope of Relocate.
--
-- Not modelled: everything that reads or writes files, runs commands or talks to a server (the
-- crates sys and cli, most of bottle and cellar, the effects of an installation in core), and the
-- lowering of Ruby in the crates analysis and analyze.
pub mod Base
pub mod Bottle
pub mod Cleanup
pub mod Discover
pub mod Execute
pub mod Formula
pub mod Layout
pub mod Outdated
pub mod Paths
pub mod Plan
pub mod Platform
pub mod PostInstall
pub mod Relocate
pub mod Resolve
pub mod Rollback
pub mod Segments
pub mod Source
pub mod Upgrade
pub mod Version
