-- ===== src/Core.antt =====
-- crates/roci-core: the HTTP front of the registry.
pub mod Error
pub mod Names
pub mod Actions
pub mod Routes
pub mod Glob
pub mod Policy
pub mod Bearer
pub mod Auth
pub mod Dispatch
pub mod Ranges
pub mod Login
pub mod Authn
