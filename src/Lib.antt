-- ===== src/Lib.antt =====
-- theapp: the authorization core of the backend, in one library.
--
-- The program is a multi-tenant backend: a gRPC server in front of cores (domains), which work on
-- PostgreSQL through stores. A call passes the server's interceptors, which authenticate it,
-- resolve the caller's session through the auth core, and compare it with the tables of methods;
-- then a handler calls a core; a core method checks the request, opens a transaction and, inside of
-- it, reads what the caller holds, decides, and writes.
--
-- Which file models which part of the repository:
--   Set, Slices            backend/pkg/set/set.go, backend/pkg/x/slicesx/slicesx.go
--   Permission             backend/internal/core/mdl/permission.go: registry and scopes
--   Role                   backend/internal/core/mdl/role.go: roles, requests, their Validate
--   Session                backend/internal/core/mdl/auth.go: the session in a context
--   Errors, Status         backend/internal/core/mdl/errors.go, backend/internal/data/pgdb/errors.go,
--                          the codes of gRPC and codeToLevel
--   Text                   strings.TrimSpace of the standard library
--   Pgrbac, Pgauth, Pguser, Pgorg
--                          the row types of backend/internal/core/pgstores/*/model.go
--   Pgrbac (its children)  backend/internal/core/pgstores/pgrbac: the store of roles, its queries over
--                          the tables of backend/internal/data/pgschema/schema.sql
--   Pgdb                   errors.go, typed_query.go, batch.go and exec.go of backend/internal/data/pgdb
--   Transactor             the interface Transactor of the cores; Snapshots meets it for tests
--   Tx                     backend/internal/data/pgdb/tx.go and RunBatchTx of batch.go
--   Rbac                   backend/internal/core/rbac: custom roles, system roles, assignments;
--                          Rbac/Database runs it on the store of Pgrbac
--   Grpc                   backend/internal/api/grpc/custom_role.go, with internal/validate and
--                          internal/conv: the requests of the role service and its page tokens;
--                          Grpc/RolePages/Stored puts handler, core and store together
--   Auth                   backend/internal/core/auth: magic links, token pairs, sessions
--   Org                    backend/internal/core/org and backend/internal/core/mdl/org.go
--   Users                  backend/internal/core/user and backend/internal/core/mdl/user.go
--   Server                 backend/internal/api/grpc/server.go and unary_interceptors.go
--   Prelude, Action        shared helpers, and the monad in which the methods are written
--
-- A method that may fail, panic and change the database is an `Action W A`: from a database `W` to
-- an outcome (a value, an error, or a panic) and a database. What was written before an error stays
-- written unless a transaction takes it back. `m on_error f` is `if err != nil { return f(err) }`.
-- Errors are chains of wrapped sentinels, and `is` is errors.Is. A context is the session that it
-- may carry. Each store is a record of actions, a parameter of its core, as the Go interfaces are.
-- A transaction's callback that assigns captured variables is an action that returns them.
-- `IsAtomic` states what the cores rely on in a Transactor: a transaction that returns kept what its
-- callback returned and wrote. It says nothing of a transaction that fails. Tx models RunTx over a
-- record of the driver's operations, whose documented behaviour is `IsPgx`; what a failed Commit
-- leaves behind is not part of it.
--
-- The role store is also modelled: `Db` holds the tables that it uses, without audit.audit_log, to
-- which the audit_row triggers of the schema write a row for each change. A query is what its
-- statement does to them and the rows it returns, and a batch is its statements in their order,
-- each of which sees what the ones before it wrote. A batch that fails gives back the tables it
-- began with, as PostgreSQL's implicit transaction does; so does RunBatchTx here, which stands for
-- a call that begins the transaction itself (Tx models the other one). Constraints that a statement
-- can break are tested where it writes. What PostgreSQL computes (random UUIDs, the clock, lower
-- and btrim, the order of a collation) is the parameter `Postgres`, and `IsOrdering` is what ORDER BY
-- documents: it loses no row and adds none. A modification that adds and removes one permission at
-- once, whose outcome PostgreSQL leaves open, keeps the removal here. The numbers of a sequence have
-- no gaps, and advisory locks have no effect on one caller's run.
--
-- Go's maps are lists of their keys, and nothing is stated that depends on their order. A UUID is a
-- number and a time is a number of nanoseconds; database ids are numbers without a bound, and the
-- one number that is read from text, the project id of a call, is bounded as strconv.Atoi bounds
-- it; the ints of pages are numbers modulo 2 ^ 64. A panic of a pure function is `none`. Every loop
-- runs over a list, so no definition of the code takes fuel; the client that follows page tokens
-- counts its requests, and one more than there are roles is enough.
--
-- Parameters are: the driver pgx, PostgreSQL, the JWT library, the random source, SHA-256, base64,
-- JSON, the wire format of protobuf, Unicode's case tables, the parsers of net/mail and of UUIDs,
-- and the clock. Not modelled are: the SQL of the other stores, the handlers of the other services,
-- the streaming interceptors (the same checks for streams), idempotency keys, logging and
-- telemetry, the workflows, the gateway, the code that protoc generates, and the commands.
pub mod Prelude
pub mod Set
pub mod Slices
pub mod Permission
pub mod Status
pub mod Errors
pub mod Action
pub mod Text
pub mod Session
pub mod Role
pub mod Pgrbac
pub mod Pgauth
pub mod Pguser
pub mod Transactor
pub mod Snapshots
pub mod Pgdb
pub mod Tx
pub mod Rbac
pub mod Server
pub mod Auth
pub mod Pgorg
pub mod Org
pub mod Users
pub mod Grpc
