-- ===== src/Lib.antt =====
-- flagbase is a platform server: feature flags with an evaluation engine (internal/feature),
-- user-defined tables (internal/table), accounts and tokens (internal/iam), and around them
-- triggers (internal/trigger), stored objects and frontends (internal/storage,
-- internal/frontend), a gateway (internal/gateway), stored functions (internal/function) and
-- their traces (internal/tracing), a registry of packages (internal/packages) and HTTP handlers
-- (internal/api). All components keep their state in one SQLite database (internal/database).
-- The HTTP handlers call one operation of a component for each request; the evaluation of flags
-- is called with the claims of the caller's token. This library models the components whose
-- logic the rest relies on, as functions that thread their state.
--
--  Which file models which part:
--    Feature             internal/feature/flag.go: flags, rules, variants, overrides
--    Feature/Evaluate    internal/feature/engine.go: EvaluateBool, EvaluateVariant
--    Feature/Tables      internal/database/db.go: the four tables of flags, and their SQL
--    Feature/Engine      internal/feature/engine.go: the operations, the cache and reload
--    Table               internal/table/engine.go: columns and definitions
--    Table/Validate      internal/table/engine.go: validateKey, validateColumn
--    Table/Ddl           internal/table/engine.go: buildCreateDDL, buildAlterDDL, sqlLiteral
--    Table/Schema        internal/table/engine.go: CreateTable, AddColumns, DeleteTable, GetTable
--    Table/Records       internal/table/records.go: validation, the operations on records
--    Iam                 internal/iam/claims.go and the data of internal/iam/service.go
--    Iam/Tables          internal/database/db.go: users, groups, user_groups, and their SQL
--    Iam/Accounts        internal/iam/service.go: the methods of Service
--    Admin               internal/admin/setup.go: the setup token
--    Gateway             internal/gateway/handler.go: routes behind flags
--    Trigger             internal/trigger: triggers, subscriptions and cron jobs
--    Storage             internal/storage/local.go; Storage/Paths: cleaned paths
--    Frontend            internal/frontend/service.go: web apps and their versions
--    Tracing             internal/tracing/tracing.go: traces and spans
--    Function            internal/function/store.go: the data; Function/Source: stored sources
--    Function/Store      the life of a function; Function/Invoke: its execution
--    Packages            internal/packages/packages.go; Packages/Fetching: its fetches
--    Worker              internal/worker/worker.go: anomalies of flags, and the connections
--    Api                 internal/api: middleware, registration, login, first administrator
--    Ids                 newID of each store; Text: the functions of Go's strings package
--    Db                  the calls of database/sql; Db/Ensures: reasoning about them
--    Sorting             ORDER BY; Prelude: shared names, lists, rows
--
-- How the code is carried over. A component's tables are a record of lists of rows; a statement
-- of SQL is a function on it that returns the affected rows, the rows asked for, or the
-- constraint it breaks, with the cascades that the schema declares. An operation is a function
-- on a session: the state, a tape that says which of the coming driver calls fail, and the
-- coming reads of crypto/rand. Theorems about an operation quantify over the tape, unless they
-- say that the driver does not fail, so each statement, Begin and Commit may fail. A failing
-- call has no effect, and a transaction that fails leaves the state of before. A query that
-- returns several rows is one call of the driver. Errors are the constructors of Db.Error: the
-- program's own sentinels, the constraints, and `driver` for all else.
--
-- Parameters. What is not in the repository is a parameter: Unicode's case tables
-- (Text.Unicode), the order in which SQLite returns rows of equal sort keys (Sorting, with the
-- law that it sorts and loses nothing), whether SQLite accepts the text of a data definition
-- statement, how SQLite converts and compares values (Table.Records.Sqlite), SHA-256, and the
-- signing and parsing of tokens (Iam.Crypto), of which the theorems assume what golang-jwt
-- documents (Iam.IsJwt): a token that has not expired parses to the claims it was signed with,
-- and a token for whose method there is no key is refused. NATS and the cron scheduler are
-- registries of handlers (Trigger.Registry), of which the theorems assume that adding and
-- removing a handler changes that handler alone (Trigger.IsRegistry). JSON of configurations,
-- the reader of archives, zlib and base64, goja's parser, the runtimes that execute a function
-- (Function.Invoke.Runtimes, which may change the state in any way), url.Parse and the texts of
-- errors are parameters, too; of zlib and base64 a theorem assumes that they read back what
-- they write (Function.Source.IsCodec). The file system is a list of files and one of
-- directories by cleaned paths; the calls of the os package that the code makes are functions
-- on it. time.Now and CURRENT_TIMESTAMP are an argument `now`.
--
-- Bounds and fuel. Every function is structural recursion on a list or a text, so no fuel is
-- used. Counters are natural numbers: positions of columns and counts of rows stay far below a
-- machine word. Limits and offsets of a query, which may be negative, are integers.
--
-- Not modelled: the read-write lock of the flag engine, so each operation is one step; and
-- those of the gateway and of triggers; the clock and the network; the other HTTP handlers and
-- the command line, which decode requests and call the operations above; the host calls of
-- functions, and the check of functions of the worker. The pool of connections is modelled in
-- the worker alone, where rows stay open while other calls are made: there a call without a
-- free connection waits (Worker.pooled).
pub mod Prelude
pub mod Text
pub mod Db
pub mod Ids
pub mod Sorting
pub mod Feature
pub mod Table
pub mod Iam
pub mod Admin
pub mod Gateway
pub mod Trigger
pub mod Storage
pub mod Frontend
pub mod Tracing
pub mod Packages
pub mod Function
pub mod Worker
pub mod Api
