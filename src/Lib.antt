-- ===== src/Lib.antt =====
-- The logic of News API: a service in TypeScript that searches articles at a provider (GNews) for
-- its clients, behind a cache that replicas share, a circuit breaker and retries.
--
-- The parts of the program, and how they work together. A request passes the middleware
-- (src/middleware), and a controller reads its query parameters (src/utils/validation.ts). The news
-- service (src/services/newsService.ts) looks in the cache; on a miss the request joins the search
-- in flight for its key, or starts one. A new search is coordinated with the other replicas by a
-- lease (src/cache/coordinator.ts) and asks the provider (src/providers/gnewsProvider.ts), which a
-- circuit breaker guards and whose transient failures are retried (src/providers/retry.ts). Errors
-- of every part are thrown values (src/errors, src/runtime/requestCancellation.ts) and end in the
-- error handler. Shutdown (src/runtime/shutdown.ts) and the server's transport errors
-- (src/runtime/httpServerEvents.ts) run beside the requests.
--
-- Which file models which part:
--   Js, Js/*            strings as lists of UTF-16 code units (trim, classes of characters), `Number`
--                       of a string, decimals of natural numbers
--   Config, Config/*    src/config: every setting from the text of its variable
--   Errors              src/errors/HttpError.ts, the errors and tests of
--                       src/runtime/requestCancellation.ts, and what a call that may throw gives
--   Http/RetryAfter     src/http/retryAfter.ts
--   Http/RequestId      src/http/requestId.ts
--   Http/BodyParser     src/http/bodyParser.ts
--   Http/Conditional    src/http/conditional.ts
--   Http/Responses      src/http/responses.ts
--   Types/*             src/types/article.ts, on values of JSON, and src/types/search.ts
--   Provider/Circuit    the circuit breaker of src/providers/gnewsProvider.ts
--   Provider/Search     the admission and the settlement of a search, same file; Provider/Search/Reach
--                       has the interleavings of searches as a step relation
--   Provider/Request    the whole of a search and its parameters, same file
--   Provider/Retry      src/providers/retry.ts
--   Cache/Memory        the in-process store of src/cache/store.ts
--   Cache/Store         which of the two stores the program uses, src/cache/store.ts
--   Cache/Redis         the store on Redis, same file; Cache/Redis/AbstractLease has the lease
--                       that its commands implement, Cache/Redis/Instance a server that keeps the promises
--   Cache/Coordinator   src/cache/coordinator.ts; Cache/Heartbeat has `startLeaseHeartbeat`
--   Redis/CommandRunner src/redis/commandRunner.ts
--   Service/InFlight    the searches in flight of src/services/newsService.ts
--   Service/Cached      the cached reads and writes of a search, same file
--   Service/Search      the load with its stale fallback and the answer of a search, same file;
--                       Service/Cached/OnRedis runs them on the store on Redis
--   Service/Fetch       the load under the coordination of the replicas, same file
--   Service/Valid       the search of the service with its fetch and the search of the provider
--   Service/CacheKey    the key of a search, same file
--   Server              src/server.ts, src/config/env.ts, and the servers of
--                       src/config/httpServer.ts and src/runtime/httpServerEvents.ts
--   Controllers         src/controllers/newsController.ts
--   App                 src/app.ts, src/routes.ts and src/middleware/apiErrors.ts
--   Client, Client/Calls src/client/newsApiClient.ts; Client/Contract puts it against the error handler
--                       of the server and Client/Revalidation against its envelopes
--   Observability/*     src/tracing.ts and src/logger.ts
--   Utils/Validation    src/utils/validation.ts
--   Middleware/*        src/middleware/errorHandler.ts, src/middleware/rateLimit.ts and
--                       src/middleware/clientApiKey.ts
--   Runtime/Shutdown    src/runtime/shutdown.ts with src/runtime/lifecycle.ts
--   Runtime/Signals     the signals of src/runtime/requestCancellation.ts
--   Runtime/LogLimiter  src/runtime/httpServerEvents.ts
-- Functions keep the names of the source in snake case. A module variable or an object that is
-- changed in place is a record that each operation takes and returns; what runs in between, such
-- as other requests, is a step relation or an argument. The files named Laws, Bounds, Storing,
-- Eviction, Recency, Trace, Reach, Lease, Origin, Counting, OnRedis, Valid, Contract and Revalidation hold proofs;
-- Tests hold runs at concrete inputs.
--
-- Bounds and fuel. Numbers that the program keeps below 2 ^ 53 are natural numbers; where a text is
-- read as a number the doubles are modelled with their rounding. `parse_from` of
-- Http/Conditional has the length of the header as fuel, and each round takes a character.
-- `retry_loop` has one round more than the retries allowed. `evict_while_full` has one round more
-- than the keys there are. `coordinate_loop` has one round more than the number of the round that
-- finds the wait over.
--
-- Parameters. `Date.parse` and `toISOString` are functions; SHA-256 is a function or its digest;
-- `NodeCache` is the record `NodeCache` with `NodeCacheLaws`, which the cache of
-- Cache/Memory/Instance satisfies; a Redis server is the record `Redis` with `RedisLaws`, which the
-- server of Cache/Redis/Instance satisfies; `fetch`, URLs and `JSON.parse` are the record `Platform` of
-- Client. What the rate limiter's package does with a request, which route a path matches and what the
-- body parser gives are arguments, and so are the clock, the draws of `Math.random`, the signals and
-- the results of the provider.
--
-- Not modelled: Express, the listening of the server, the connections to Redis other than the
-- wait of a command, the metrics registry, the text of log lines, the types that are generated
-- from the OpenAPI document, and the scripts of the repository.
pub mod App
pub mod Base
pub mod Cache
pub mod Client
pub mod Config
pub mod Controllers
pub mod Errors
pub mod Http
pub mod Js
pub mod Middleware
pub mod Observability
pub mod Provider
pub mod Redis
pub mod Runtime
pub mod Server
pub mod Service
pub mod Types
pub mod Utils
