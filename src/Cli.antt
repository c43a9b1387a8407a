-- ===== src/Cli.antt =====
-- crates/oath-cli: what the command line keeps between runs.
pub mod Approvals
