-- ===== src/Lib.antt =====
-- A model of kratos-core, the server core of a Go application: persistent jobs, access policies,
-- logs, API documents, calls inside the process, and what stands in front of the handlers of
-- requests.
--
-- The parts and how they meet. A request passes the middlewares of server/middleware: the
-- authentication, whose authorizer emits one event per decision into the log pipeline; the tenant
-- scope, which fills the tenant fields of the message; and the rate limit. The log pipeline of biz
-- buffers the events, hands them to a queue, and consumes them again into records. The policies
-- that the engine decides by are built from roles, menus and APIs in resource/biz. The scheduler
-- of job keeps timers for the job records of the store. The streams of sse are resolved for the
-- users that the same kind of claims names.
--
-- The documents of resource/openapi are registered at the start and answer queries by operation and
-- language, whose candidates resource/locale gives. The API records of resource/biz, which the
-- policies refer to, are made from the same documents. The connection of client/localgrpc lets one
-- part call the services of another without a network.
--
-- The files and the code.
--   Prelude     shared names, numbers, lists, Go's `==` and maps, texts, and errors (errorsx/reason.go)
--   Job         job/scheduler.go, execution.go, execution_lock.go, registry.go and server.go.
--               World has the records of data/job.go and the outside; Scheduler and Server have one
--               definition per method, in snake case; Views reads a trace of effects.
--   Policy      resource/biz/casbin_rule.go: Rules has `buildCasbinRuleList` with a definition per
--               loop, Refresh has `RebuildPolicyData`, `RefreshPolicy` and `RebuildPolicy`.
--   Log         biz/base_log.go: Pipeline has `EmitLog`, `Emit`, `run` and `close`, Store has
--               `Consume` and `persist`, Key has `LogMessagePrimaryKey`.
--   Tenant      server/middleware/tenant.go: the walks over a message, field by field.
--   Auth        server/middleware/auth.go: `matchWhiteList`, `verifyAccessToken`,
--               `authClaimsMiddleware`, `NewAuthMiddleware` and `IsAuthorized`.
--   RateLimit   server/middleware/ratelimit/ratelimit.go: `NewMiddleware` and its helpers.
--   Redact      server/middleware/logging/redact.go: `redactLogValue`, `redactLogHeaderMap` and
--               the tests of keys and texts, over JSON values as trees.
--   Sse         sse/registry.go, and the resolution of requests in sse/server.go.
--   LocalGrpc   client/localgrpc/conn.go: Registry has `RegisterService`, Invoke has `Invoke` and the
--               nesting of the interceptors, Stream has `localStream`, Transfer its messages, and Run
--               the runs of a stream.
--   Migration   resource/migration: Strip has `stripSQLComments` of description.go, Files is files.go
--               and Sync is sync.go.
--   RequestLog  server/middleware/logging/utils.go: `getClientRealIP` and the other parts of a log line.
--   ResponseLog server/middleware/logging/response_log.go: the search for large collections.
--   Queue       queue/queue.go and queue/decode.go, with the queue of the runtime as a parameter.
--   Client      client/middleware/retry/retry.go: `UnaryClientInterceptor`.
--   Locale      resource/locale/locale.go: `Normalize` and `Candidates`.
--   OpenApi     resource/openapi: Registry has `Register`, Query the queries of registry.go, Schema
--               the expansion of schemas and Operation the rest of openapi.go.
--   ApiResource resource/biz/base_api.go: Names, Prompts, Packages and Records.
-- A file named Tests has concrete runs.
--
-- State and outside. Where code calls another library or the database, the model takes the call
-- as a field of a record (Env, Outside, Store, Engine, Tokens, Codec). In Job each call is an
-- event of a trace, newest first, and an answer is a function of the trace so far, so any
-- behaviour of the outside is an environment. What a theorem needs of the outside is a record of
-- named hypotheses (IsFresh, IsFaithful, IsPrimary, IsAuthn), which the runs in Tests instantiate.
-- A method that holds a mutex is one action; the interleavings of requests, worker and shutdown
-- of the log pipeline are lists of actions. So are the runs of a local stream, where a `select` is
-- the list of what its ready cases would do, and an action names the case that is taken. Maps are
-- lists of pairs, the latest first; where the order of a map's walk matters, any order is a model.
--
-- Bounds. Loops are over lists or trees, but for `stripSQLComments`, whose fuel is the number of
-- bytes, and the expansion of schemas, whose fuel is the depth limit 8 of the code.
-- Native numbers stand for counts, bytes and times; an `int32` is narrowed by `to_i32`, with the wrap written out, and the 64-bit
-- hash and key of a message wrap at 2 ^ 64 and stay below 2 ^ 63. The buffer holds 2048 events.
--
-- Not modelled. Output to the process log, metadata of message keys on errors, nil receivers of
-- methods, and the floating-point seconds of a rate limit, which are whole nanoseconds here. Case
-- mapping of texts is that of ASCII. Weights of languages are exact multiples of 2⁻¹⁰⁷⁴, as floats
-- from 0 to 1 are. The rest of the clients, the generated API, the search for the descriptions of
-- migrations, the translations, the fields of a log line, the server of the queue and the server
-- set-up have no part here.
pub mod ApiResource
pub mod Auth
pub mod Client
pub mod Job
pub mod LocalGrpc
pub mod Locale
pub mod Log
pub mod Migration
pub mod OpenApi
pub mod Policy
pub mod Prelude
pub mod Queue
pub mod RateLimit
pub mod Redact
pub mod RequestLog
pub mod ResponseLog
pub mod Sse
pub mod Tenant
