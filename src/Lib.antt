-- ===== src/Lib.antt =====
-- Go-ESPN-API: a service that fetches sports data from ESPN and the NHL, writes it to Postgres, and
-- serves it over HTTP.
--
-- The parts. A worker process (internal/scheduler/worker.go) puts jobs on a cron or runs them once.
-- A job (internal/scheduler/scheduler.go) makes units of work from the configured leagues
-- (config/ingest.go) or from stuck events, and gives them to a bounded pool of goroutines
-- (internal/scheduler/fanout.go). Each unit calls an ingest service (internal/ingest), which resolves
-- the sport and the league, asks the ESPN client (infras/espn/espn.go) for a payload, parses it
-- leniently, and writes rows through the repositories (internal/domains) in one transaction. The
-- client retries with a backoff and goes through a pool of relays. The HTTP server reads the rows
-- behind the middleware of transport/http/middleware, and pages through them.
--
-- The files.
--   Prelude: numbers, tests, lists, integers, decimals and Go strings, which are lists of bytes.
--     Functions of package strings are on ASCII; Prelude/Trim says what TrimSpace and Cut give.
--   Calendar: UTC dates, AddDate(0, 0, -1) and the compact layout of package time.
--   Config: ParseIngestLeagues.
--   Espn/Backoff: New and the delay of waitBackoff, on int64 words. Espn/Relay: send, sendViaRelays;
--     net/http is the parameter Net. Espn/Request: requestWithRetry, attempt, handleResponse; the loop
--     runs on the number of attempts, so no fuel is needed. Espn/Urls: buildURL and the Get methods.
--   Ingest/Json: the accessors of json.go over decoded payloads. Ingest/Parse: parse.go and common.go.
--     Ingest/Store: withTx and the statements on tables with a unique key; a transaction is a function
--     of a session, and the database may refuse any statement, BEGIN or COMMIT (the parameter fails).
--     Ingest/Db: the rows and the parameters of the services. Ingest/Resolve: resolveSportLeague.
--     Ingest/News: IngestNews. Ingest/Injuries: IngestInjuries.
--     Ingest/Transactions: IngestTransactions. Ingest/Teams: IngestTeams. Ingest/Success: these four.
--     Ingest/Endpoints: the POST endpoints of internal/handlers/ingest/handler.go over them, with what
--     is asked of a body in Ingest/Endpoints/Validation.
--     Ingest/Scoreboard: IngestScoreboard, with the venues, the competitors and the minimal teams.
--     Ingest/Nhl: nhl_parse.go, SyncTeams, SyncStandings and SyncRosters. Ingest/Feed: the loop of
--     upserts that these share.
--   Scheduler/Fanout: fanOut as a step relation on the state of the pool, one step of any goroutine
--     at a time; errgroup enters by what it documents. Scheduler/Jobs: the jobs, their units and their
--     order. Scheduler/Worker: what the worker registers, how long it waits, what it closes.
--   Http/Failure: the status and the key of an error. Http/Auth: Auth, RBAC, APIKeyRequired, APIKey; a
--     middleware gives what it writes and the request that it hands on. Chi's route lookup and the
--     validation of tokens are parameters. Http/Pages: transport/http/response/drf.go, the pages of a
--     list and their links. Http/Limiter: the rate limit over a cache; Http/Limiter/Clients: by the
--     clients. Http/Server: the states of transport/http/http.go as a step relation, in which setup,
--     the watch of the signal and the requests with their handlers go on side by side.
--   Reads: the lists behind the endpoints. Reads/Ordering: ResolveOrdering. Reads/Listing: List of a
--     service and of a handler. Reads/Sql, Reads/Filters: the WHERE clauses of the repositories and
--     their arguments. Reads/Competitors, Reads/Events: the list of events from the request to the
--     responses. Reads/Detail: an event by its id or its ESPN id.
--     Reads/Requests: the filters that the other list handlers read. A client that follows links has
--     as many requests as there are rows, and one, which is more than there are pages.
--   Examples: the theorems at concrete inputs.
--
-- Numbers: an int of the code that counts is a natural number; the counters of the pool, the relay
-- cursor and the durations are 64-bit words with their wrap-around.
--
-- What is taken for granted: a rollback restores the rows and the next ids, though a sequence of
-- Postgres goes on; a COMMIT that fails has written nothing, though where only its acknowledgement is
-- lost it has; no panic leaves withTx, which would then not roll back; and the Get and the Save of the
-- rate limit are one step, though those of requests at one time may interleave.
--
-- Not modelled: logging and tracing, the cron, what the database makes of a query, Redis, Kafka, S3,
-- the dependency injection, and the services and handlers that are not named above.
pub mod Prelude
pub mod Calendar
pub mod Config
pub mod Ingest
pub mod Scheduler
pub mod Espn
pub mod Http
pub mod Reads
pub mod Examples
