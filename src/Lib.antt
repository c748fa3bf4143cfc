-- ===== src/Lib.antt =====
-- The account, session and mail-delivery core of a FastAPI service: what its handlers do to the
-- tables of the database, and what that guarantees.
--
-- The program. A login (src/app/auth/login.py) checks the password and issues an access token and
-- the first refresh token of a new family, or, for an account with a second factor, a challenge that
-- src/app/services/mfa.py exchanges for the tokens. A refresh (src/app/auth/refresh.py) replaces the
-- live token of a family by its successor and ends the family when a replaced token comes back; a
-- logout ends the family. Single-use account tokens carry the verification of an address, the reset
-- of a password and the MFA challenge. Their mail goes through an outbox table, written in the
-- request's transaction (src/app/services/outbox.py) and emptied by a worker that leases messages
-- (src/app/services/outbox_worker.py). A fixed-window limiter (src/app/middlewares/rate_limit.py)
-- stands before the routes. A login through an identity provider (src/app/services/oidc.py) begins
-- with a stored transaction, which the provider's callback uses up, and ends in the same session or
-- challenge as a password login. An administrator (src/app/api/v1/admin.py) switches accounts off.
--
-- The files.
--   Base, Table            shared names and Boolean tests; a table as the list of its rows, with the
--                          statements that the code sends
--   World                  the settings, and as a parameter everything the code calls and does not
--                          implement: PostgreSQL's acceptance of rows, clock, random source, hashes,
--                          bcrypt, PyJWT, Fernet, pyotp, SMTP
--   Models                 the rows of src/app/models
--   Db                     a request's session: committed rows, the request's view, commit, rollback
--                          and close; exceptions as results (src/app/db)
--   Tokens                 src/app/auth/refresh_token.py, src/app/auth/jwt.py and
--                          src/app/services/account_action_tokens.py
--   Sessions               src/app/services/sessions.py and src/app/services/session_issuance.py
--   Refresh                src/app/auth/refresh.py
--   Families               the abstract machine of the token table, which the handlers refine
--   Login, DeviceName      src/app/auth/login.py, and the device name of src/app/auth/refresh_token.py
--   ActionTokens, EmailVerification, PasswordReset
--                          the account tokens and the two services of these names
--   Mfa                    src/app/services/mfa.py
--   Access                 the guards of a request (src/app/auth), src/app/api/v1/admin.py and
--                          src/app/auth/register.py
--   Startup                the validation of the settings in src/app/core/config.py
--   Oidc                   src/app/services/oidc.py; Oidc/Interface is what it uses of the client of
--                          the identity provider
--   Oidc/Documents, Oidc/Cache, Oidc/Load, Oidc/Client
--                          src/app/services/oidc_provider.py and src/app/services/oidc_cache.py, over
--                          a store that other clients may change before every command
--   Outbox, OutboxWorker   the two services of these names, and the machine of one message
--   RateLimit              src/app/middlewares/rate_limit.py
--   Routes                 the routes of src/app/api/v1 that call the services
--   Examples               runs at concrete inputs
-- The functions and fields have the names of the source without a leading underscore. A handler is
-- an action on the session; `request` runs it on the committed rows and closes the session.
--
-- Conventions. A time is a number of microseconds, in the limiter of seconds. A reading of the clock,
-- of the random source or of an id sequence is numbered, so that two readings may differ. The rows
-- that a statement without ORDER BY finds are taken in insertion order. Locked rows make each
-- handler one step; the rows that other workers have locked are an argument of a claim. The
-- loops run over lists, but for the search of a username, whose fuel is one more than the number of
-- users, the digits of a number, whose fuel is the number, and the wait for another client's refresh,
-- which sleeps a twentieth of a second in each round or until its deadline, and whose fuel is two more
-- than the intervals that the longest wait holds.
--
-- Not modelled: metrics, log lines and spans, the HTTP layer with its validation, cookies and headers,
-- the health and metrics routes, and the polling loop of the worker process.
pub mod Base
pub mod Table
pub mod World
pub mod Models
pub mod Db
pub mod Tokens
pub mod Sessions
pub mod Refresh
pub mod Families
pub mod Oidc
pub mod Outbox
pub mod ActionTokens
pub mod EmailVerification
pub mod PasswordReset
pub mod Mfa
pub mod DeviceName
pub mod Login
pub mod OutboxWorker
pub mod RateLimit
pub mod Access
pub mod Startup
pub mod Routes
pub mod Examples
