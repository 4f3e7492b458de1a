-- ===== src/Lib.antt =====
-- A library on the content platform: the accounts, sessions, tokens and mutes of its identity part,
-- and the HTTP server around them.
--
-- The parts and their files:
-- - Prelude: Boolean tests, int64 values as integers, texts, and lists with SQL-like operations.
-- - GoTime: package time, as far as the program uses it. An instant is a number of nanoseconds.
--   GoStrings: package strings. Http: package net/http, where a handler takes a request and a world
--   (the response writer, the log and the database) and returns or panics.
-- - Domain (internal/identity/domain/user.go, session.go), Domain/Validation (validation.go).
-- - Errors (internal/identity/service/errors.go), Ports (ports.go).
-- - Database: the tables of migrations/00002_identity.sql as lists of rows with their constraints,
--   and the environment of one call. Database/Monad: an operation takes a database and returns a
--   result or an error with the database that it leaves.
-- - Repository (internal/infra/postgres/identity/repository.go), with Users (user.go), Sessions
--   (session.go) and Audit (audit.go): one action per method. WithinTx is `within_tx`.
-- - Service (internal/identity/service/service.go), with Checks, Rows, Mute, Authenticate, Login,
--   Refresh and Account (auth.go), Profile and Deletion (profile.go), and StatusChange (status.go).
--   An operation is named as in the source: Login is `login`, UpdateMe is `update_me`, and so on. A
--   long method is cut where its callback starts and where a row is locked.
-- - Token (internal/infra/token): Refresh (refresh.go), Access (access.go), Decimal (ParsePositiveID
--   and strconv), Base64 (encoding/base64) and UnixTime. Password (internal/infra/password/bcrypt.go).
-- - Authn (internal/platform/authn): Bearer and Middleware (middleware.go). RequestId
--   (internal/platform/requestid). AppError (internal/platform/apperror). Httpx
--   (internal/platform/httpx): Response (response.go), Recorder and Middleware (middleware.go), Decode
--   (decode.go).
-- - Endpoint: the handlers of internal/identity/handler, Payload and Requests (dto.go), Reply
--   (handler.go), Auth (auth.go), Profile (profile.go and ChangeStatus), PathId (parsePathID) and
--   Instant (status.go); and System (internal/system/service and internal/system/handler).
-- - Configuration (internal/infra/config): the types and validate.go, Load (config.go), Redaction
--   (log_value.go), and Address for the two tests of addresses.
-- - App (internal/app): Dispatch and Routes (routes.go), Start (app.go), Lifecycle (lifecycle.go).
--   Login: a login with the token adapters that Start gives the service.
-- - Tests: runs of the operations on a small database and of the parts at small values.
--
-- The service calls the repository inside and outside of transactions. In the source the two share
-- a database/sql pool and the row locks; here a call is a sequence of statements on a store. What
-- other transactions commit in between is the function `others` of the environment, which stands
-- before a single statement and before a transaction: the row locks keep what a transaction reads.
-- Which statement fails, whether a commit that fails was carried out (of a transaction, or of the one
-- writing statement of CreateUser and RevokeSession), when the context is done and what the clock says
-- are parameters too, so a theorem holds for every course that they can take.
--
-- A request goes through Routes: the request identifier, AccessLog, Recovery and the mux, then, on the
-- routes that want it, the authentication, and then a handler, which calls the service with the
-- database of the world and writes its reply. The service reaches the password and token adapters
-- by the records of Ports, which Password and Token fill (`password_hasher`, `refresh_codec`,
-- `access_token_manager`), and Start puts the parts together. The path of a request is one text: that
-- an escaped path differs from the one that AccessLog writes is left out.
--
-- Loops of the source run over lists and are structural recursion. Two loops run on a number with fuel.
-- The printing of digits has the number itself as fuel, which is enough since each round divides it by
-- ten. The scan of the fraction of an instant has the length of the text, which is enough since each
-- round moves on by a byte.
-- Identifiers are int64 values that the program compares, prints and parses; the parser's sums
-- wrap at 2^64 as in the source. Seconds since 1970 wrap, as an int64 does. A [32]byte digest is a
-- list of bytes.
--
-- Parameters, for code outside the repository: the validator package's test of an e-mail address,
-- Unicode's lower-case table, PostgreSQL's lower(), bcrypt, golang-jwt, SHA-256, random sources,
-- encoding/json, mime, url.PathUnescape, the addresses that net, net/url and pgx parse, the reading
-- of the environment, the redirect of ServeMux, and what listeners, servers and clients return. What a
-- theorem relies on in bcrypt and golang-jwt are the records `IsBcrypt` and `IsJwt`
-- (Token/Access/Jwt). Not modelled: the text of SQL statements, the messages of errors that no client
-- sees, times, addresses and user agents in the log, the opening of the PostgreSQL and Redis clients,
-- migrations, logging itself, and the two commands.
pub mod Prelude
pub mod GoTime
pub mod GoStrings
pub mod Domain
pub mod Errors
pub mod Ports
pub mod Database
pub mod Repository
pub mod Service
pub mod Tests
pub mod Http
pub mod AppError
pub mod Httpx
pub mod RequestId
pub mod Authn
pub mod Token
pub mod Password
pub mod Address
pub mod Configuration
pub mod Endpoint
pub mod App
