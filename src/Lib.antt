-- ===== src/Lib.antt =====
-- Modura: the tenant core of the backend, over a model of its PostgreSQL database.
--
-- The backend (backend/internal) is a modular monolith. Each module has a service, which validates a
-- request and runs a unit of work, and a store, which runs SQL statements in it; the modules share the
-- tables of one database. The files here follow that division.
--
--   Errors                   the error values of the modules, wrapping, and results
--   Database                 the rows of the tables (backend/internal/platform/database/migrations)
--   Database/Constraints     the constraints of the migrations as one test on the database
--   Database/Tx              statements, faults, and Transactor.WithinTransaction
--                            (backend/internal/platform/database/transactor.go)
--   Database/Tx/Rules        rules for what a unit of work leaves, by its statements; Runs has those
--                            for a call on the pool
--   Identity/Types, Rows     the types of the identity module and the tests of its WHERE clauses
--   Identity/Sessions        the session statements of backend/internal/modules/identity/postgres/store.go
--   Identity/Accounts, AccountRows
--                            credentials, one-time tokens and the account states of the same file
--   Identity/Service         backend/internal/modules/identity/service.go; Login and Hiding are on what
--                            a login starts and what it does not tell
--   Organization/Tree        the recursive queries over departments
--   Organization/Departments, Members
--                            backend/internal/modules/organization/postgres/store.go
--   Organization/History     the writes of that store one after another, as steps between databases
--   Organization/Service     backend/internal/modules/organization/service.go; Requests and Audited are
--                            on each of its writes, with Audit/Writing/Evidence, the row that a write
--                            records
--   Authorization/Policies   resolution, validation and delegation of data scopes
--                            (backend/internal/modules/authorization/service.go, management.go)
--   Authorization/Store, StoreRows
--                            backend/internal/modules/authorization/postgres
--   Authorization/Enforcer   the casbin enforcer that service.go builds for a decision
--   Authorization/Service, Management
--                            backend/internal/modules/authorization/service.go and management.go
--   Audit                    backend/internal/modules/audit: writes, redaction and listing
--   Tenancy                  backend/internal/modules/platformtenant: the tenants' lifecycle
--   Identity/Token           backend/internal/modules/identity/token.go: signing and verification
--   Identity/Password        backend/internal/modules/identity/password.go: the format of the hashes
--   PlatformAdmin, PlatformAdmin/Service
--                            backend/internal/modules/platformadmin: its store and its service;
--                            Bootstrapping and Rotation are on the store
--   Provisioning             backend/internal/modules/provisioning/service.go, over the interfaces of the
--                            modules that it calls; Modules has the modules themselves, and Later the
--                            databases after a provisioning
--   Settings/Types, Values   the types of the settings module, and the tests on codes and values
--   Settings/Dictionaries, Configurations
--                            backend/internal/modules/settings/postgres/store.go, with Replacing,
--                            Apart, Versions and Effective on dictionaries, and Overriding and Typing
--                            on values
--   Settings/Service         backend/internal/modules/settings/service.go; Typed is on its
--                            writes of configurations, one after another
--   Config                   backend/internal/platform/config/config.go
--   Transport                backend/internal/api/transport/security.go, with requests and responses
--   Transport/Identity, Authorization, Organization
--                            the HTTP handlers of these modules (their transport/http/handler.go), and
--                            Permissions, the check of an actor's permission that they share
--   Transport/Settings, PlatformSettings, Audit, Provisioning, Platform
--                            the HTTP handlers of the other modules; Platform has those of
--                            platformadmin and platformtenant
--   Transport/System         backend/internal/api/handler/system.go: the health checks
--   Text                     the text functions of Go that the services use, with Split
--                            (strings.Split) and Decimal (%d of fmt, in both directions)
--   Examples                 a sample database, and runs on it
--
-- How the program is modelled. A store's method is a function of the same name in snake case, from the
-- database to a result and the database that it leaves. A method that takes the caller's transaction is
-- a `Tx`, which on an error leaves nothing; a method on the pool is an `Op`. A statement fails where
-- the environment says that the driver reports an error (`down label round`: the text of the error and
-- the round of the loop), and a statement that writes fails where a constraint of the migrations would
-- not hold afterwards. Transactions are serial: a row lock is a read, since whatever held the row has
-- ended. A SELECT is a filter of the table's rows, an UPDATE maps the rows that its WHERE clause
-- selects, and ON CONFLICT is written out. Where the source orders rows by the server's collation, the
-- order is an argument `before`.
--
-- Identifiers and digests are texts, a time is the number of nanoseconds since 1970, and a bigint is a
-- native number with its bounds in the constraints. WITH RECURSIVE runs in rounds on fuel; a tree of
-- depth h needs h + 1 rounds.
--
-- A global and a tenant's table of the settings are one table whose rows have an owner, a tenant or
-- none; the statements that the source has twice, once for each, are one definition that takes the
-- owner. Byte strings are texts, with one character for a byte. The times in the claims of a token are integers of any size, where the
-- code has int64 seconds: the two agree within the range of time.Time. Where the source passes on the
-- error of a statement without a label, the label that decides the fault here names the statement.
--
-- Code from elsewhere is an argument: casbin (a record of functions with the behaviour documented for
-- the model that the code gives it), JSON and base64, time.ParseDuration, uuid.Parse,
-- mail.ParseAddress, HMAC and SHA-256, Argon2id, the clock, the generators,
-- the form in which PostgreSQL stores a jsonb, and the lower-case table of Unicode. The identity
-- service takes the tokens and the password hashing as functions, which Identity/Token and
-- Identity/Password can fill; the service of the platform administrators uses those two files.
--
-- Not modelled: the branches of a handler for a service that is nil (cmd/modura/main.go gives every
-- service), the branches of a store without a pool, generated code, start-up, the front end, the CHECKs that
-- Database/Constraints lists, and the column `result` of the audit events, which is always the same.
-- Where the source does not lock a row that it reads, as for the definition of a configuration that a
-- tenant overrides, another transaction can commit in between; that is left out too. Concurrent transactions that read what another has not committed do not occur at the isolation
-- levels of the source and are left out.
mod Prelude
pub mod Errors
pub mod Database
pub mod Identity
pub mod Organization
pub mod Text
pub mod Audit
pub mod Authorization
pub mod Config
pub mod Examples
pub mod PlatformAdmin
pub mod Provisioning
pub mod Settings
pub mod Tenancy
pub mod Transport
