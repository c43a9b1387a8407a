-- ===== src/Sandbox.antt =====
-- crates/oath-sandbox: the permissions of a sandboxed run and the plan that the backends enforce.
pub mod Policy
