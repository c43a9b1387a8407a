-- ===== src/Fetch.antt =====
-- crates/oath-fetch: which version of a package is fetched, and what is done with its tarball.
pub mod Integrity
pub mod Resolve
pub mod Tarball
