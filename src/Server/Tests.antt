-- ===== src/Server/Tests.antt =====
-- A cleanup in which the first disconnection fails.
use news_api.Cache.Store.{redis_kind}
use news_api.Server.Laws.{IsReleased, failures, cleanup-IsReleased}
use news_api.Server.{Resources, cleanup}
use news_api.Base.{true, some, []}
use news_api.Errors.{ok, throw, no_error}

abbrev running : Resources
running = record {
  cache = record { singleton = some (redis_kind []); redis_client = true };
  limiter = record { redis_client = true; redis_command_runner = true };
  sdk = true;
  errors = [];
}

cleanup-IsReleased_example :
    IsReleased running
      (cleanup (throw no_error) (ok tt) (ok tt) running)
      (failures (throw no_error) (ok tt) (ok tt) running)
      (ok tt)
cleanup-IsReleased_example = cleanup-IsReleased (throw no_error) (ok tt) (ok tt) running
