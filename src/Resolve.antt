-- ===== src/Resolve.antt =====
-- crates/oath-resolve: the graph of resolved packages and the lockfile that keeps it.
pub mod Names
pub mod Lockfile
