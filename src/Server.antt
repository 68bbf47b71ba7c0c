-- ===== src/Server.antt =====
-- src/server.ts, src/config/env.ts and the servers of src/config/httpServer.ts and
-- src/runtime/httpServerEvents.ts: the start of the program and the cleanup of its shutdown.
pub mod Laws
pub mod Tests
use news_api.Base.{
  ℕ, suc, Bool, true, false, not, Option, none, some, List, ◌∷◌, ◌==◌, if◌then◌else◌, length,
}
use news_api.Cache.Store.{StoreModule, disconnect_cache_store, no_store}
use news_api.Middleware.RateLimit.{LimiterModule, disconnect_rate_limit_store, Environment}
use news_api.Config.Server.{HttpServerSettings}
use news_api.Errors.{Result, ok, throw}
use news_api.Js.Text.{Text, text_is, codes, trim}

-- `requireApiKeyUnlessTest()`: whether the program goes on, and not exits with 1.
unfoldable pub require_api_key_unless_test : (node_env gnews_api_key : Option Text) → Bool
unfolding trim
require_api_key_unless_test node_env gnews_api_key =
    if text_is node_env (codes "test")
    then true
    else elim gnews_api_key [ none ↦ false | some key ↦ not (length (trim key) == 0) ]

-- What the program sets of a server of Node, and the listeners that it adds.
pub record NodeServer : Type 0 where
  pub max_header_size : ℕ
  pub request_timeout : ℕ
  pub headers_timeout : ℕ
  pub keep_alive_timeout : ℕ
  pub max_requests_per_socket : ℕ
  pub client_error_listeners : ℕ
  pub drop_request_listeners : ℕ

-- `configureHttpServer(server, settings)`.
unfoldable pub configure_http_server : HttpServerSettings → NodeServer → NodeServer
configure_http_server settings server = record server {
  request_timeout = settings.request_timeout;
  headers_timeout = settings.headers_timeout;
  keep_alive_timeout = settings.keep_alive_timeout;
  max_requests_per_socket = settings.max_requests_per_socket;
}

-- `createConfiguredHttpServer(listener, settings)`; `create` is `createServer` with a size of headers.
unfoldable pub create_configured_http_server : (ℕ → NodeServer) → HttpServerSettings → NodeServer
unfolding configure_http_server
create_configured_http_server create settings =
    configure_http_server settings (create settings.max_header_size)

-- `instrumentHttpServer(server, logSettings)`: the flag says whether the server is in
-- `instrumentedServers`.
unfoldable pub instrument_http_server : Bool × NodeServer → Bool × NodeServer
instrument_http_server (true, server) = (true, server)
instrument_http_server (false, server) = (
  true,
  record server {
    client_error_listeners = suc server.client_error_listeners;
    drop_request_listeners = suc server.drop_request_listeners;
  },
)

-- `shutdownTracing()`, for whether there is an SDK, with the result of its shutdown.
unfoldable pub shutdown_tracing : Result (Unit {0}) → (sdk : Bool) → Bool × Result (Unit {0})
shutdown_tracing shut false = (false, ok tt)
shutdown_tracing (ok tt) true = (false, ok tt)
shutdown_tracing (throw e) true = (true, throw e)

-- The parts that are released, and the errors that are logged.
pub data CleanupError : Type 0 where
  cache_disconnect_error rate_limit_disconnect_error tracing_shutdown_error : CleanupError

pub record Resources : Type 0 where
  pub cache : StoreModule
  pub limiter : LimiterModule
  pub sdk : Bool
  pub errors : List CleanupError

abbrev pub log_failure : CleanupError → Result (Unit {0}) → Resources → Resources
log_failure e (ok tt) r = r
log_failure e (throw err) r = record r { errors = e ∷ r.errors }

abbrev pub release_cache : Result (Unit {0}) → Resources → Resources
release_cache quit r =
    let (cache, done) = disconnect_cache_store quit r.cache in
    log_failure cache_disconnect_error done (record r { cache = cache })

abbrev pub release_limiter : Result (Unit {0}) → Resources → Resources
release_limiter quit r =
    let (limiter, done) = disconnect_rate_limit_store r.limiter quit in
    log_failure rate_limit_disconnect_error done (record r { limiter = limiter })

abbrev pub release_tracing : Result (Unit {0}) → Resources → Resources
release_tracing shut r =
    let (sdk, done) = shutdown_tracing shut r.sdk in
    log_failure tracing_shutdown_error done (record r { sdk = sdk })

-- The `cleanup` of the shutdown handler: each part has a `try` of its own.
unfoldable pub cleanup : (quit_cache quit_limiter shut : Result (Unit {0})) → Resources → Resources
unfolding disconnect_cache_store disconnect_rate_limit_store shutdown_tracing
cleanup quit_cache quit_limiter shut r =
    release_tracing shut (release_limiter quit_limiter (release_cache quit_cache r))
