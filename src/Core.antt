-- ===== src/Core.antt =====
-- crates/oath-core: the policy that a user or a project sets, and the permissions that a package
-- declares, and base64.
pub mod Policy
pub mod Permissions
pub mod Integrity
