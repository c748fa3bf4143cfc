-- ===== src/Mfa.antt =====
-- TOTP, recovery codes and login challenges: src/app/services/mfa.py.
pub mod Factors
pub mod Challenge
pub mod Enrollment
pub mod Counters
pub mod Exchange
pub mod Laws
