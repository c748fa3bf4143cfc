-- ===== src/Examples.antt =====
-- Concrete runs of the handlers, on a small world.
pub mod Data
pub mod Refreshes
pub mod Accounts
pub mod Worker
pub mod Limits
pub mod Access
pub mod Oidc
pub mod Startup
pub mod Provider
