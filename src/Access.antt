-- ===== src/Access.antt =====
-- Who a request speaks for, and what it may do: src/app/auth, and the admin and registration routes.
-- A route's dependencies run before its body, on the same database session.
pub mod Guards
pub mod Admin
pub mod Register
pub mod Laws
pub mod Recent
pub mod Disabled
pub mod Deletion
