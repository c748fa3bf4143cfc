-- ===== src/Oidc.antt =====
-- OpenID Connect: src/app/services/oidc.py.
pub mod Texts
pub mod Interface
pub mod Documents
pub mod Entries
pub mod Cache
pub mod Load
pub mod Client
pub mod Loading
pub mod Origin
pub mod Results
pub mod Trust
pub mod Waiting
pub mod Offered
pub mod Verified
pub mod Begin
pub mod Usernames
pub mod Identities
pub mod Complete
pub mod Frames
pub mod Exchange
pub mod Once
pub mod Reuse
pub mod Accounts
pub mod SignIn
pub mod Links
pub mod Decimals
pub mod FreeNames
